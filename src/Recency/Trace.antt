-- ===== src/Recency/Trace.antt =====
-- A whole trace against the stacks of the sets of the first level.
use native.Mathlib.Nat.{mod-eq_of_lt}
use mathlib.Core.Path.{subst}
use cache_hierarchy_simulato.Prelude.{
  ℕ, suc, ◌+◌, ◌*◌, ◌/◌, ◌%◌, ◌≤◌, ◌<◌, ◌≡◌, refl, ap, ◌∙◌, Bool, true, false, ◌&&◌, List, [], ◌∷◌,
  if◌then◌else◌, arith, length, inl, inr, Bool-cases,
}
use cache_hierarchy_simulato.Word.{u64, u64_mod, incr}
use cache_hierarchy_simulato.Config.{CacheConfig, lru, is_no_write_allocate, is_write_back}
use cache_hierarchy_simulato.Memory.{World, MemoryLevel}
use cache_hierarchy_simulato.Cache.{Cache, Decoded, decode, ok, build, set_line}
use cache_hierarchy_simulato.Cache.Shape.{IsShaped}
use cache_hierarchy_simulato.Cache.Construct.{IsWords, build-IsShaped}
use cache_hierarchy_simulato.Access.{access, count_access, classify, record_hit, touch_ref, install}
use cache_hierarchy_simulato.Access.Branches.{
  after_hit, after_miss, after_fill, evicts_dirty, goes_around,
}
use cache_hierarchy_simulato.Access.Split.{IsSplit, stays, access-IsSplit, build-IsSplit}
use cache_hierarchy_simulato.Access.Transition.{Transition, hit, around, fill, access-Transition}
use cache_hierarchy_simulato.Trace
use cache_hierarchy_simulato.Hierarchy.{CacheHierarchy, construct_hierarchy, run}
use cache_hierarchy_simulato.Hierarchy.First.{references, run-first}
use cache_hierarchy_simulato.Recency.{Stacks, access_stacks, replay}
use cache_hierarchy_simulato.Recency.Access.{access-LruModels}
use cache_hierarchy_simulato.Recency.Uses.{LruModels}
use cache_hierarchy_simulato.Recency.Fresh.{build-LruModels}

module _ {Double : Type 0} where
  after_hit-hits :
      (b : Bool) (d : Decoded) (way : ℕ) (c : Cache Double)
      → (after_hit b d way c).stats.hits ≡ incr c.stats.hits
  unfolding after_hit record_hit touch_ref set_line
  after_hit-hits b d way c = elim (Bool-cases (b && is_write_back c.cfg.write_policy)) [
    | inl e ↦ rw e refl
    | inr e ↦ rw e refl
  ]

  after_miss-hits : (d : Decoded) (c : Cache Double) → (after_miss d c).stats.hits ≡ c.stats.hits
  unfolding after_miss classify
  after_miss-hits d c = ground arith

  after_fill-hits :
      (b : Bool) (d : Decoded) (way : ℕ) (c : Cache Double)
      → (after_fill b d way c).stats.hits ≡ c.stats.hits
  unfolding after_fill install set_line
  after_fill-hits b d way c = elim (Bool-cases (evicts_dirty c d.set_index way)) [
    | inl e ↦ rw e refl
    | inr e ↦ rw e refl
  ]

  count_access-hits : (b : Bool) (c : Cache Double) → (count_access b c).stats.hits ≡ c.stats.hits
  unfolding count_access
  count_access-hits true c = refl
  count_access-hits false c = refl

  pub Transition-hits :
      (rand : ℕ → ℕ) (addr : ℕ) (b : Bool) {c c' : Cache Double} {r : Bool}
      → Transition rand addr b c r c'
      → c'.stats.hits ≡ (if r then incr c.stats.hits else c.stats.hits)
  Transition-hits rand addr b {c} (hit way found) =
      after_hit-hits b _ way _ ∙ ap incr (count_access-hits b c)
  Transition-hits rand addr b {c} (around missed out) = after_miss-hits _ _ ∙ count_access-hits b c
  Transition-hits rand addr b {c} (fill draws missed here) =
      after_fill-hits b _ _ _ ∙ after_miss-hits _ _ ∙ count_access-hits b c

replay-le :
    (ways sets size : ℕ) (before : List ℕ) → (replay ways sets size before).0 ≤ length before
unfolding replay
replay-le ways sets size [] = omega arith
replay-le ways sets size (a ∷ before) = ground (arith, replay-le ways sets size before)

module _ {Double : Type 0} (ways sets size : ℕ) where
  -- The cache has served the accesses to the addresses, the newest first, as the stacks have.
  pub record Replayed (before : List ℕ) (c : Cache Double) : Type 0 where
    pub split : IsSplit ways sets size c
    pub models : LruModels (length before) c (replay ways sets size before).1
    pub hits : c.stats.hits ≡ (replay ways sets size before).0

  module _ (rand : ℕ → ℕ) (S : Type 0) (next : MemoryLevel S) (addr : ℕ) (b : Bool)
      (c : Cache Double) (w : World S) (before : List ℕ) (room : length before + 1 < u64_mod)
      (s : Replayed before c) where
    -- The next access is one of the stacks.
    pub access-stacks :
        let r = access rand next addr b c w in
        let q =
          access_stacks ways false
            (addr / size % sets)
            (addr / size / sets)
            (replay ways sets size before).1 in
        (r.0 ≡ q.0) × LruModels (suc (length before)) r.1 q.1
    access-stacks =
        let allocate = stays ways sets size b s.split in
        let st = (replay ways sets size before).1 in
        let d = decode c addr in
        let specified : access_stacks c.cfg.associativity (goes_around b c) d.set_index d.tag st
            ≡ access_stacks ways false (addr / size % sets) (addr / size / sets) st =
          rw (s.split.set_index addr, s.split.tag addr, s.split.ways_same, allocate) refl in
        subst
          (λ (q : Bool × Stacks).
            ((access rand next addr b c w).0 ≡ q.0)
            × LruModels (suc (length before)) (access rand next addr b c w).1 q.1)
          specified (access-LruModels rand addr b s.models s.split.sound.shaped room next w)

    pub access-Replayed : Replayed (addr ∷ before) (access rand next addr b c w).1
    unfolding replay
    access-Replayed =
        let t = access-Transition rand addr b c next w in
        let (verdict, models) = access-stacks in
        let tick : incr c.stats.hits ≡ (replay ways sets size before).0 + 1 =
          ap incr s.hits ∙ mod-eq_of_lt (omega (arith, replay-le ways sets size before)) in
        record {
          split = access-IsSplit ways sets size rand S next addr b c w s.split;
          models = models;
          hits = Transition-hits rand addr b t ∙ rw (verdict, tick, s.hits) refl;
        }

  pub build-Replayed :
      (cfg : CacheConfig Double) (k : ℕ)
      → IsShaped (build cfg k)
      → cfg.replacement ≡ lru
      → is_no_write_allocate cfg.alloc_policy ≡ false
      → cfg.associativity ≡ ways
      → k ≡ sets
      → cfg.block_size ≡ size
      → Replayed [] (build cfg k)
  unfolding replay
  build-Replayed cfg k shaped chosen allocates same_ways same_sets same_size = record {
    split = build-IsSplit ways sets size cfg k shaped allocates same_ways same_sets same_size;
    models = build-LruModels cfg k chosen;
    hits = refl;
  }

module _ (Double : Type 0) where
  -- In a hierarchy that the constructor returns, whose first level holds 64-bit words, is LRU and
  -- allocates on stores, the hits of the first level are, after a trace of fewer than 2^64 CPU
  -- accesses, those of the stacks of its sets: every set keeps its blocks in the order of their
  -- last uses, an access moves its block to the top, and the bottom block leaves a full set.
  pub run-replay :
      (rand : ℕ → ℕ) (cfg : CacheConfig Double) (cfgs : List (CacheConfig Double))
      (mem_time : Double) (draws : ℕ) {p : (n : ℕ) × CacheHierarchy Double n} (verbose : Bool)
      (trace : List Trace.Access)
      → IsWords cfg
      → cfg.replacement ≡ lru
      → is_no_write_allocate cfg.alloc_policy ≡ false
      → construct_hierarchy Double (cfg ∷ cfgs) mem_time draws ≡ ok p
      → length (references trace []) < u64_mod
      → (run Double rand verbose trace p.1).0.world.level.0.stats.hits
        ≡ (replay cfg.associativity
            (cfg.size_bytes / u64 (cfg.block_size * cfg.associativity))
            cfg.block_size
            (references trace [])).0
  run-replay rand cfg cfgs mem_time draws {p} verbose trace words chosen allocates e room =
      let sets = cfg.size_bytes / u64 (cfg.block_size * cfg.associativity) in
      let replayed =
        run-first Double rand (Replayed cfg.associativity sets cfg.block_size)
          (access-Replayed cfg.associativity sets cfg.block_size rand) cfg cfgs mem_time draws
          verbose trace
          (λ k accepted.
            build-Replayed cfg.associativity sets cfg.block_size cfg k
              (build-IsShaped cfg words k accepted) chosen allocates refl accepted.quotient refl)
          e room in
      replayed.hits
