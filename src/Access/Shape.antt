-- ===== src/Access/Shape.antt =====
-- The geometry and the sizes of the tables for each step of Cache::access.
use cache_hierarchy_simulato.Prelude.{
  ℕ, ◌<◌, ◌≡◌, Bool, arith, length, length-set, All-set, All-get_or, inl, inr, Option-cases,
  Bool-cases, ◌&&◌,
}
use cache_hierarchy_simulato.Config.{is_write_back}
use cache_hierarchy_simulato.Cache.{CacheLine, Cache, Decoded, lines_of, set_line}
use cache_hierarchy_simulato.Cache.Decode.{decode_fields}
use cache_hierarchy_simulato.Cache.Shape.{HasWays, IsShaped}
use cache_hierarchy_simulato.Access.{
  find_empty, count_access, classify, touch_ref, pick_way, record_hit, install,
}
use cache_hierarchy_simulato.Access.Branches.{after_hit, after_miss, after_fill, evicts_dirty}
use cache_hierarchy_simulato.Access.Transition.{Transition, start, parts, hit, around, fill}
use cache_hierarchy_simulato.Access.Ways.{
  on_access-FitsPolicy, on_insert-FitsPolicy, get_victim-lt, find_empty-lt,
}

module _ {Double : Type 0} where
  classify-IsShaped : (b : ℕ) {c : Cache Double} → IsShaped c → IsShaped (classify b c)
  unfolding classify
  classify-IsShaped b h = ground arith

  touch_ref-IsShaped : (b : ℕ) {c : Cache Double} → IsShaped c → IsShaped (touch_ref b c)
  unfolding touch_ref
  touch_ref-IsShaped b h = ground arith

module _ {Double : Type 0} {c : Cache Double} (h : IsShaped c) where
  pub length-lines_of : (i : ℕ) → i < c.num_sets → length (lines_of c i) ≡ c.cfg.associativity
  length-lines_of i lt =
      All-get_or (HasWays c.cfg.associativity) c.sets i _ h.columns (rw h.rows lt)

  set_line-IsShaped :
      (i way : ℕ) (line : CacheLine) → i < c.num_sets → IsShaped (set_line c i way line)
  unfolding set_line
  set_line-IsShaped i way line lt = record {
    block = h.block;
    sets_pow = h.sets_pow;
    fits = h.fits;
    ways = h.ways;
    rows = rw length-set h.rows;
    columns = All-set _ c.sets i _ h.columns (rw length-set (length-lines_of i lt));
    policy = h.policy;
  }

  -- The way that a fill takes exists.
  pub pick_way-lt :
      (rand : ℕ → ℕ) (i draws : ℕ)
      → i < c.num_sets
      → (pick_way rand c i draws).0 < c.cfg.associativity
  unfolding pick_way
  pick_way-lt rand i draws lt = elim (Option-cases (find_empty 0 (lines_of c i))) [
    | inl full ↦
        rw (full, pick_way)
          (get_victim-lt rand c.num_sets c.cfg.associativity i draws c.repl lt h.ways h.policy)
    | inr (way, free) ↦
        rw (free, pick_way)
          (omega (arith, find_empty-lt 0 way (lines_of c i) free, length-lines_of i lt))
  ]

module _ {Double : Type 0} where
  pub count_access-IsShaped :
      (b : Bool) {c : Cache Double} → IsShaped c → IsShaped (count_access b c)
  unfolding count_access
  count_access-IsShaped b h = ground arith

  record_hit-IsShaped :
      (d : Decoded) (way : ℕ) {c : Cache Double}
      → d.set_index < c.num_sets
      → IsShaped c
      → IsShaped (record_hit d way c)
  unfolding record_hit
  record_hit-IsShaped d way {c} lt h =
      let s = c.stats in
      touch_ref-IsShaped d.block_addr (record {
        block = h.block;
        sets_pow = h.sets_pow;
        fits = h.fits;
        ways = h.ways;
        rows = h.rows;
        columns = h.columns;
        policy = on_access-FitsPolicy _ _ _ way c.repl lt h.policy;
      })

  after_hit-IsShaped :
      (b : Bool) (d : Decoded) (way : ℕ) {c : Cache Double}
      → d.set_index < c.num_sets
      → IsShaped c
      → IsShaped (after_hit b d way c)
  unfolding after_hit record_hit touch_ref
  after_hit-IsShaped b d way {c} lt h = elim (Bool-cases (b && is_write_back c.cfg.write_policy)) [
    | inl e ↦ rw e (set_line-IsShaped (record_hit-IsShaped d way lt h) d.set_index way _ lt)
    | inr e ↦ rw e (record_hit-IsShaped d way lt h)
  ]

  pub after_miss-IsShaped :
      (d : Decoded) {c : Cache Double} → IsShaped c → IsShaped (after_miss d c)
  unfolding after_miss
  after_miss-IsShaped d {c} h = classify-IsShaped d.block_addr (ground arith)

  install-IsShaped :
      (b : Bool) (d : Decoded) (way : ℕ) {c : Cache Double}
      → d.set_index < c.num_sets
      → IsShaped c
      → IsShaped (install b d way c)
  unfolding install set_line
  install-IsShaped b d way {c} lt h =
      let line = set_line-IsShaped h d.set_index way _ lt in
      record {
        block = line.block;
        sets_pow = line.sets_pow;
        fits = line.fits;
        ways = line.ways;
        rows = line.rows;
        columns = line.columns;
        policy = on_insert-FitsPolicy _ _ _ way c.repl lt h.policy;
      }

  after_fill-IsShaped :
      (b : Bool) (d : Decoded) (way : ℕ) {c : Cache Double}
      → d.set_index < c.num_sets
      → IsShaped c
      → IsShaped (after_fill b d way c)
  unfolding after_fill
  after_fill-IsShaped b d way {c} lt h = elim (Bool-cases (evicts_dirty c d.set_index way)) [
    | inl e ↦ rw e (install-IsShaped b d way lt (ground arith))
    | inr e ↦ rw e (install-IsShaped b d way lt h)
  ]

  -- Counting a miss and classifying it changes counters and the reference model only.
  pub record SameFrames (c c' : Cache Double) : Type 0 where
    pub cfg : c'.cfg ≡ c.cfg
    pub num_sets : c'.num_sets ≡ c.num_sets
    pub offset_bits : c'.offset_bits ≡ c.offset_bits
    pub index_bits : c'.index_bits ≡ c.index_bits
    pub sets : c'.sets ≡ c.sets
    pub repl : c'.repl ≡ c.repl

  pub after_miss-SameFrames : (d : Decoded) (c : Cache Double) → SameFrames c (after_miss d c)
  unfolding after_miss classify
  after_miss-SameFrames d c = ground arith

  module _ (rand : ℕ → ℕ) (addr : ℕ) (b : Bool) {c : Cache Double} (h : IsShaped c) where
    pub set_index-lt : (parts rand addr b c).set_index < c.num_sets
    unfolding count_access
    set_index-lt = (decode_fields (start rand addr b c) (count_access-IsShaped b h) addr).1

    -- An access keeps the geometry of the cache and the sizes of all its tables.
    pub Transition-IsShaped :
        {r : Bool} {c' : Cache Double} → Transition rand addr b c r c' → IsShaped c'
    unfolding count_access
    Transition-IsShaped (hit way found) =
        after_hit-IsShaped b _ way set_index-lt (count_access-IsShaped b h)
    Transition-IsShaped (around missed out) = after_miss-IsShaped _ (count_access-IsShaped b h)
    Transition-IsShaped (fill draws missed here) =
        let d = parts rand addr b c in
        let same = after_miss-SameFrames d (start rand addr b c) in
        after_fill-IsShaped b d _ (omega (arith, same.num_sets, set_index-lt))
          (after_miss-IsShaped d (count_access-IsShaped b h))
