-- ===== src/Access/Counters.antt =====
-- The counters: hits and misses, reads and writes, and the three classes of misses, all modulo 2^64.
use cache_hierarchy_simulato.Prelude.{
  is_some, ℕ, ◌+◌, ◌≡◌, Bool, true, false, ◌&&◌, arith, length, inl, inr, Bool-cases,
}
use cache_hierarchy_simulato.Word.{u64}
use cache_hierarchy_simulato.Config.{is_write_back}
use cache_hierarchy_simulato.Cache.{Cache, Decoded, set_line}
use cache_hierarchy_simulato.Access.{count_access, classify, touch_ref, record_hit, install}
use cache_hierarchy_simulato.Access.Branches.{after_hit, after_miss, after_fill, evicts_dirty}
use cache_hierarchy_simulato.Access.Transition.{Transition, hit, around, fill}

module _ {Double : Type 0} where
  -- `extra` accesses are counted that are neither hits nor misses yet.
  pub record CountsAgree (extra : ℕ) (c : Cache Double) : Type 0 where
    pub total : u64 (c.stats.hits + c.stats.misses + extra) ≡ c.stats.accesses
    pub kinds : u64 (c.stats.reads + c.stats.writes) ≡ c.stats.accesses
    pub enabled : is_some c.ref_fa ≡ c.cfg.classify_3c
    pub classes :
        c.cfg.classify_3c ≡ true
        → u64 (u64 (c.stats.compulsory + c.stats.capacity) + c.stats.conflict) ≡ c.stats.misses
    pub distinct : c.cfg.classify_3c ≡ true → c.stats.compulsory ≡ u64 (length c.seen)

  count_access-CountsAgree :
      (b : Bool) (c : Cache Double) → CountsAgree 0 c → CountsAgree 1 (count_access b c)
  unfolding count_access
  count_access-CountsAgree true c h = ground arith
  count_access-CountsAgree false c h = ground arith

  record_hit-CountsAgree :
      (d : Decoded) (way : ℕ) (c : Cache Double)
      → CountsAgree 1 c
      → CountsAgree 0 (record_hit d way c)
  unfolding record_hit touch_ref
  record_hit-CountsAgree d way c h = ground arith

  after_miss-CountsAgree :
      (d : Decoded) (c : Cache Double) → CountsAgree 1 c → CountsAgree 0 (after_miss d c)
  unfolding after_miss classify
  after_miss-CountsAgree d c h = ground arith

  after_hit-CountsAgree :
      (b : Bool) (d : Decoded) (way : ℕ) (c : Cache Double)
      → CountsAgree 1 c
      → CountsAgree 0 (after_hit b d way c)
  unfolding after_hit set_line
  after_hit-CountsAgree b d way c h =
      let hit = record_hit-CountsAgree d way c h in
      elim (Bool-cases (b && is_write_back c.cfg.write_policy)) [
        | inl e ↦ rw e (ground arith)
        | inr e ↦ rw e hit
      ]

  after_fill-CountsAgree :
      (b : Bool) (d : Decoded) (way : ℕ) (c : Cache Double)
      → CountsAgree 0 c
      → CountsAgree 0 (after_fill b d way c)
  unfolding after_fill install set_line
  after_fill-CountsAgree b d way c h = elim (Bool-cases (evicts_dirty c d.set_index way)) [
    | inl e ↦ rw e (ground arith)
    | inr e ↦ rw e (ground arith)
  ]

  -- An access keeps the agreement of the counters.
  pub Transition-CountsAgree :
      (rand : ℕ → ℕ) (addr : ℕ) (b : Bool) {c c' : Cache Double} {r : Bool}
      → CountsAgree 0 c
      → Transition rand addr b c r c'
      → CountsAgree 0 c'
  Transition-CountsAgree rand addr b {c} h (hit way found) =
      after_hit-CountsAgree b _ way _ (count_access-CountsAgree b c h)
  Transition-CountsAgree rand addr b {c} h (around missed out) =
      after_miss-CountsAgree _ _ (count_access-CountsAgree b c h)
  Transition-CountsAgree rand addr b {c} h (fill draws missed here) =
      after_fill-CountsAgree b _ _ _ (after_miss-CountsAgree _ _ (count_access-CountsAgree b c h))
