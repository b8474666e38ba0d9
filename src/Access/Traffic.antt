-- ===== src/Access/Traffic.antt =====
-- The traffic of a cache to the level below, against its own counters.
use cache_hierarchy_simulato.Prelude.{
  ℕ, ◌+◌, ◌≡◌, refl, ap, ◌∙◌, Bool, true, false, not, ◌&&◌, List, [], ◌∷◌, ◌++◌, inl, inr,
  Bool-cases, Option-cases, if◌then◌else◌, arith,
}
use cache_hierarchy_simulato.Word.{incr, u64}
use cache_hierarchy_simulato.Config.{is_write_back, is_no_write_allocate}
use cache_hierarchy_simulato.Memory.{World, MemoryLevel}
use cache_hierarchy_simulato.Cache.{Cache, Decoded, set_line}
use cache_hierarchy_simulato.Access.{count_access, classify, record_hit, touch_ref, install, access}
use cache_hierarchy_simulato.Access.Branches.{
  Request, load, store, send, goes_around, writes_through, evicts_dirty, through_requests,
  evict_requests, after_hit, after_miss, after_fill, access-hit, access-around, access-fill,
}
use cache_hierarchy_simulato.Access.Transition.{parts, looked_up}

-- A level that counts the loads and the stores that it is sent.
pub record CountsTraffic {S : Type 0} (next : MemoryLevel S) : Type 0 where
  pub loads : S → ℕ
  pub stores : S → ℕ
  pub loads-next :
      (addr : ℕ) (b : Bool) (w : World S)
      → loads (next addr b w).1.level ≡ (if b then loads w.level else incr (loads w.level))
  pub stores-next :
      (addr : ℕ) (b : Bool) (w : World S)
      → stores (next addr b w).1.level ≡ (if b then incr (stores w.level) else stores w.level)

-- The two counters after a row of calls.
loads_after : List Request → ℕ → ℕ
loads_after [] n = n
loads_after (r ∷ rs) n = loads_after rs (if r.is_write then n else incr n)

stores_after : List Request → ℕ → ℕ
stores_after [] n = n
stores_after (r ∷ rs) n = stores_after rs (if r.is_write then incr n else n)

module _ {S : Type 0} {next : MemoryLevel S} (t : CountsTraffic next) where
  loads-send :
      (rs : List Request) (w : World S)
      → t.loads (send next rs w).level ≡ loads_after rs (t.loads w.level)
  unfolding send loads_after
  loads-send [] w = refl
  loads-send (r ∷ rs) w =
      loads-send rs (next r.addr r.is_write w).1
      ∙ ap (loads_after rs) (t.loads-next r.addr r.is_write w)

  stores-send :
      (rs : List Request) (w : World S)
      → t.stores (send next rs w).level ≡ stores_after rs (t.stores w.level)
  unfolding send stores_after
  stores-send [] w = refl
  stores-send (r ∷ rs) w =
      stores-send rs (next r.addr r.is_write w).1
      ∙ ap (stores_after rs) (t.stores-next r.addr r.is_write w)

  -- The counters of the levels agree: under write-allocate every miss is a load below; under
  -- write-through every store is a store below; under write-back with write-allocate every
  -- write-back is; and under write-back every miss and every write-back is one call below.
  pub record TrafficAgrees {Double : Type 0} (c : Cache Double) (s : S) : Type 0 where
    pub fetches :
        (if is_no_write_allocate c.cfg.alloc_policy then c.stats.misses else t.loads s)
        ≡ c.stats.misses
    pub forwards :
        (if is_write_back c.cfg.write_policy then c.stats.writes else t.stores s) ≡ c.stats.writes
    pub write_backs :
        (if is_write_back c.cfg.write_policy && not (is_no_write_allocate c.cfg.alloc_policy)
          then t.stores s
          else c.stats.writebacks)
        ≡ c.stats.writebacks
    pub calls :
        (if is_write_back c.cfg.write_policy
          then u64 (t.loads s + t.stores s)
          else u64 (c.stats.misses + c.stats.writebacks))
        ≡ u64 (c.stats.misses + c.stats.writebacks)

  module _ {Double : Type 0} (c : Cache Double) (w : World S) where
    after_hit-TrafficAgrees :
        (addr : ℕ) (b : Bool) (d : Decoded) (way : ℕ)
        → TrafficAgrees c w.level
        → let c₀ = count_access b c in
          TrafficAgrees (after_hit b d way c₀) (send next (through_requests addr b c₀) w).level
    unfolding after_hit record_hit touch_ref set_line count_access loads_after stores_after
    after_hit-TrafficAgrees addr b d way h =
        let rs = through_requests addr b (count_access b c) in
        ground (arith, loads-send rs w, stores-send rs w)

    around-TrafficAgrees :
        (addr : ℕ) (b : Bool) (d : Decoded)
        → goes_around b c ≡ true
        → TrafficAgrees c w.level
        → TrafficAgrees (after_miss d (count_access b c)) (send next (store addr ∷ []) w).level
    unfolding after_miss classify count_access loads_after stores_after
    around-TrafficAgrees addr b d out h =
        ground (arith, loads-send (store addr ∷ []) w, stores-send (store addr ∷ []) w)

    missed_counts :
        (b : Bool) (d : Decoded)
        → let m = after_miss d (count_access b c) in
          (m.cfg ≡ c.cfg)
          × (m.stats.misses ≡ incr c.stats.misses)
          × (m.stats.writes ≡ (if b then incr c.stats.writes else c.stats.writes))
          × (m.stats.writebacks ≡ c.stats.writebacks)
    unfolding after_miss classify count_access
    missed_counts b d = ground arith

  module _ {Double : Type 0} (m : Cache Double) (w : World S) (addr : ℕ) (b : Bool) (d : Decoded)
      (way : ℕ) where
    fill_requests : List Request
    fill_requests = evict_requests d way m ++ through_requests addr b m

    fill-loads : t.loads (send next fill_requests w).level ≡ t.loads w.level
    unfolding fill_requests loads_after
    fill-loads = elim (Bool-cases (evicts_dirty m d.set_index way)) [
      | inl e ↦ ground (arith, loads-send fill_requests w)
      | inr e ↦ ground (arith, loads-send fill_requests w)
    ]

    filled_counts :
        let f = after_fill b d way m in
        (f.cfg ≡ m.cfg)
        × (f.stats.misses ≡ m.stats.misses)
        × (f.stats.writes ≡ m.stats.writes)
        × (f.stats.writebacks ≡ (
            if evicts_dirty m d.set_index way then incr m.stats.writebacks else m.stats.writebacks))
    unfolding after_fill install set_line
    filled_counts = ground arith

    fill-stores :
        let s = t.stores w.level in
        t.stores (send next fill_requests w).level ≡ (
          let s' = if evicts_dirty m d.set_index way then incr s else s in
          if writes_through b m then incr s' else s')
    unfolding fill_requests stores_after
    fill-stores = ground (arith, stores-send fill_requests w)

  module _ {Double : Type 0} (c : Cache Double) (w : World S) where
    fetch_counts :
        (addr : ℕ)
        → let w' = send next (load addr ∷ []) w in
          (t.loads w'.level ≡ incr (t.loads w.level)) × (t.stores w'.level ≡ t.stores w.level)
    unfolding loads_after stores_after
    fetch_counts addr = (loads-send (load addr ∷ []) w, stores-send (load addr ∷ []) w)

    fill-TrafficAgrees :
        (addr : ℕ) (b : Bool) (d : Decoded) (way draws : ℕ)
        → goes_around b c ≡ false
        → TrafficAgrees c w.level
        → let m = after_miss d (count_access b c) in
          let fetched = send next (load addr ∷ []) w in
          TrafficAgrees
            (after_fill b d way m)
            (send next
              (evict_requests d way m ++ through_requests addr b m)
              (record fetched { draws = draws })).level
    unfolding fill_requests
    fill-TrafficAgrees addr b d way draws here h =
        let m = after_miss d (count_access b c) in
        let fetched = send next (load addr ∷ []) w in
        let w' = record fetched { draws = draws } in
        ground (
          arith,
          missed_counts c w b d,
          filled_counts m w' addr b d way,
          fill-loads m w' addr b d way,
          fill-stores m w' addr b d way,
          fetch_counts addr,
        )

    -- If the counters of a cache agree with what the level below has counted, they agree after an
    -- access.
    pub access-TrafficAgrees :
        (rand : ℕ → ℕ) (addr : ℕ) (b : Bool)
        → TrafficAgrees c w.level
        → let r = access rand next addr b c w in TrafficAgrees r.1 r.2.level
    unfolding count_access
    access-TrafficAgrees rand addr b h = elim (Option-cases (looked_up rand addr b c)) [
      | inr (way, found) ↦
          rw (access-hit rand next addr b c w way found)
            (after_hit-TrafficAgrees c w addr b _ way h)
      | inl missed ↦ elim (Bool-cases (goes_around b c)) [
        | inl out ↦
            rw (access-around rand next addr b c w missed out)
              (around-TrafficAgrees c w addr b (parts rand addr b c) out h)
        | inr here ↦
            rw (access-fill rand next addr b c w missed here)
              (fill-TrafficAgrees addr b (parts rand addr b c) _ _ here h)
      ]
    ]
