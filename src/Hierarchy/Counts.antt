-- ===== src/Hierarchy/Counts.antt =====
-- How many accesses and misses the first two levels of a hierarchy have counted after a run.
use native.Mathlib.Nat.{mod-eq_of_lt}
use cache_hierarchy_simulato.Prelude.{
  ℕ, ◌+◌, ◌≤◌, ◌<◌, ◌≡◌, refl, ap, ◌∙◌, Bool, true, false, List, [], ◌∷◌, length, arith, ◌&&◌, inl,
  inr, Bool-cases,
}
use cache_hierarchy_simulato.Word.{u64_mod, incr}
use cache_hierarchy_simulato.Config.{CacheConfig, is_write_back}
use cache_hierarchy_simulato.Memory.{World, MemoryLevel}
use cache_hierarchy_simulato.Cache.{Cache, Decoded, build, set_line}
use cache_hierarchy_simulato.Access.{access, count_access, classify, record_hit, touch_ref, install}
use cache_hierarchy_simulato.Access.Branches.{after_hit, after_miss, after_fill, evicts_dirty}
use cache_hierarchy_simulato.Access.Transition.{Transition, hit, around, fill, access-Transition}

module _ {Double : Type 0} where
  -- The configuration and the two counters stay as they are.
  record SameCounts (c c' : Cache Double) : Type 0 where
    cfg : c'.cfg ≡ c.cfg
    accesses : c'.stats.accesses ≡ c.stats.accesses
    misses : c'.stats.misses ≡ c.stats.misses

  after_hit-SameCounts :
      (b : Bool) (d : Decoded) (way : ℕ) (c : Cache Double) → SameCounts c (after_hit b d way c)
  unfolding after_hit record_hit touch_ref set_line
  after_hit-SameCounts b d way c = elim (Bool-cases (b && is_write_back c.cfg.write_policy)) [
    | inl e ↦ rw e (record { cfg = refl; accesses = refl; misses = refl })
    | inr e ↦ rw e (record { cfg = refl; accesses = refl; misses = refl })
  ]

  after_fill-SameCounts :
      (b : Bool) (d : Decoded) (way : ℕ) (c : Cache Double) → SameCounts c (after_fill b d way c)
  unfolding after_fill install set_line
  after_fill-SameCounts b d way c = elim (Bool-cases (evicts_dirty c d.set_index way)) [
    | inl e ↦ rw e (record { cfg = refl; accesses = refl; misses = refl })
    | inr e ↦ rw e (record { cfg = refl; accesses = refl; misses = refl })
  ]

  -- A cache of the configuration that has served a number of accesses.
  pub record Counted (chosen : CacheConfig Double) (before : List ℕ) (c : Cache Double)
      : Type 0 where
    pub cfg : c.cfg ≡ chosen
    pub accesses : c.stats.accesses ≡ length before
    pub misses : c.stats.misses ≤ length before

  Counted-same :
      {chosen : CacheConfig Double} {served : List ℕ} {c c' : Cache Double}
      → SameCounts c c'
      → Counted chosen served c
      → Counted chosen served c'
  Counted-same same h = record {
    cfg = same.cfg ∙ h.cfg;
    accesses = same.accesses ∙ h.accesses;
    misses = omega (arith, same.misses, h.misses);
  }

  -- The access is counted, and its miss is not yet.
  record Started (chosen : CacheConfig Double) (addr : ℕ) (before : List ℕ) (c : Cache Double)
      : Type 0 where
    cfg : c.cfg ≡ chosen
    accesses : c.stats.accesses ≡ length (addr ∷ before)
    misses : c.stats.misses ≤ length before

  module _ (chosen : CacheConfig Double) (addr : ℕ) (before : List ℕ)
      (room : length before + 1 < u64_mod) where
    count_access-Started :
        (b : Bool) (c : Cache Double)
        → Counted chosen before c
        → Started chosen addr before (count_access b c)
    unfolding count_access
    count_access-Started true c h = record {
      cfg = h.cfg;
      accesses = ap incr h.accesses ∙ mod-eq_of_lt room ∙ omega arith;
      misses = h.misses;
    }
    count_access-Started false c h = record {
      cfg = h.cfg;
      accesses = ap incr h.accesses ∙ mod-eq_of_lt room ∙ omega arith;
      misses = h.misses;
    }

    Started-same :
        {c c' : Cache Double}
        → SameCounts c c'
        → Started chosen addr before c
        → Counted chosen (addr ∷ before) c'
    Started-same same s = record {
      cfg = same.cfg ∙ s.cfg;
      accesses = same.accesses ∙ s.accesses;
      misses = omega (arith, same.misses, s.misses);
    }

    after_miss-Counted :
        (d : Decoded) (c : Cache Double)
        → Started chosen addr before c
        → Counted chosen (addr ∷ before) (after_miss d c)
    unfolding after_miss classify
    after_miss-Counted d c s = ground arith

    Transition-Counted :
        (rand : ℕ → ℕ) (b : Bool) {c c' : Cache Double} {r : Bool}
        → Counted chosen before c
        → Transition rand addr b c r c'
        → Counted chosen (addr ∷ before) c'
    Transition-Counted rand b {c} h (hit way found) =
        Started-same (after_hit-SameCounts b _ way _) (count_access-Started b c h)
    Transition-Counted rand b {c} h (around missed out) =
        after_miss-Counted _ _ (count_access-Started b c h)
    Transition-Counted rand b {c} h (fill draws missed here) =
        Counted-same (after_fill-SameCounts b _ _ _)
          (after_miss-Counted _ _ (count_access-Started b c h))

  pub access-Counted :
      (chosen : CacheConfig Double) (rand : ℕ → ℕ) (S : Type 0) (next : MemoryLevel S) (addr : ℕ)
      (b : Bool) (c : Cache Double) (w : World S) (before : List ℕ)
      → length before + 1 < u64_mod
      → Counted chosen before c
      → Counted chosen (addr ∷ before) (access rand next addr b c w).1
  access-Counted chosen rand S next addr b c w before room h =
      Transition-Counted chosen addr before room rand b h (access-Transition rand addr b c next w)

  pub build-Counted : (cfg : CacheConfig Double) (k : ℕ) → Counted cfg [] (build cfg k)
  build-Counted cfg k = record { cfg = refl; accesses = refl; misses = omega arith }
