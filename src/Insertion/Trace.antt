-- ===== src/Insertion/Trace.antt =====
-- A whole trace against the rows of the sets of a FIFO first level.
use native.Mathlib.Nat.{mod-eq_of_lt}
use mathlib.Core.Path.{subst}
use cache_hierarchy_simulato.Prelude.{
  ℕ, suc, ◌+◌, ◌*◌, ◌/◌, ◌%◌, ◌≤◌, ◌<◌, ◌≡◌, refl, ap, ◌∙◌, Bool, false, List, [], ◌∷◌, arith,
  length, replicate,
}
use cache_hierarchy_simulato.Word.{u64, u64_mod, incr}
use cache_hierarchy_simulato.Config.{CacheConfig, fifo, is_no_write_allocate}
use cache_hierarchy_simulato.Replacement.{make_replacement}
use cache_hierarchy_simulato.Memory.{World, MemoryLevel}
use cache_hierarchy_simulato.Cache.{Cache, decode, ok, build}
use cache_hierarchy_simulato.Cache.Shape.{IsShaped}
use cache_hierarchy_simulato.Cache.Construct.{IsWords, build-IsShaped}
use cache_hierarchy_simulato.Access.{access}
use cache_hierarchy_simulato.Access.Branches.{goes_around}
use cache_hierarchy_simulato.Access.Split.{IsSplit, stays, access-IsSplit, build-IsSplit}
use cache_hierarchy_simulato.Access.Transition.{access-Transition}
use cache_hierarchy_simulato.Trace
use cache_hierarchy_simulato.Hierarchy.{CacheHierarchy, construct_hierarchy, run}
use cache_hierarchy_simulato.Hierarchy.First.{references, run-first}
use cache_hierarchy_simulato.Recency.{Stacks}
use cache_hierarchy_simulato.Recency.Fresh.{empty-SetModels}
use cache_hierarchy_simulato.Recency.Trace.{Transition-hits}
use cache_hierarchy_simulato.Insertion.{access_rows, serve}
use cache_hierarchy_simulato.Insertion.Twin.{FifoModels}
use cache_hierarchy_simulato.Insertion.Access.{access-FifoModels}

serve-le : (ways sets size : ℕ) (before : List ℕ) → (serve ways sets size before).0 ≤ length before
unfolding serve
serve-le ways sets size [] = omega arith
serve-le ways sets size (a ∷ before) = ground (arith, serve-le ways sets size before)

build-FifoModels :
    {Double : Type 0} (cfg : CacheConfig Double) (n : ℕ)
    → cfg.replacement ≡ fifo
    → FifoModels 0 (build cfg n) (λ i. [])
unfolding make_replacement
build-FifoModels cfg n chosen = record {
  policy = record { insert_time = replicate n (replicate cfg.associativity 0); clock = 0 };
  is_fifo = rw chosen refl;
  models = record {
    policy = record { last_used = replicate n (replicate cfg.associativity 0); clock = 0 };
    is_lru = refl;
    uses = omega arith;
    sets = empty-SetModels cfg n;
  };
}

module _ {Double : Type 0} (ways sets size : ℕ) where
  -- The cache has served the accesses to the addresses, the newest first, as the rows have.
  record Served (before : List ℕ) (c : Cache Double) : Type 0 where
    split : IsSplit ways sets size c
    models : FifoModels (length before) c (serve ways sets size before).1
    hits : c.stats.hits ≡ (serve ways sets size before).0

  access-Served :
      (rand : ℕ → ℕ) (S : Type 0) (next : MemoryLevel S) (addr : ℕ) (b : Bool) (c : Cache Double)
      (w : World S) (before : List ℕ)
      → length before + 1 < u64_mod
      → Served before c
      → Served (addr ∷ before) (access rand next addr b c w).1
  unfolding serve
  access-Served rand S next addr b c w before room s =
      let allocate = stays ways sets size b s.split in
      let st = (serve ways sets size before).1 in
      let d = decode c addr in
      let specified : access_rows c.cfg.associativity (goes_around b c) d.set_index d.tag st
          ≡ access_rows ways false (addr / size % sets) (addr / size / sets) st =
        rw (s.split.set_index addr, s.split.tag addr, s.split.ways_same, allocate) refl in
      let (verdict, models) =
        subst
          (λ (q : Bool × Stacks).
            ((access rand next addr b c w).0 ≡ q.0)
            × FifoModels (suc (length before)) (access rand next addr b c w).1 q.1)
          specified (access-FifoModels rand addr b s.models s.split.sound.shaped room next w) in
      let t = access-Transition rand addr b c next w in
      let tick : incr c.stats.hits ≡ (serve ways sets size before).0 + 1 =
        ap incr s.hits ∙ mod-eq_of_lt (omega (arith, serve-le ways sets size before)) in
      record {
        split = access-IsSplit ways sets size rand S next addr b c w s.split;
        models = models;
        hits = Transition-hits rand addr b t ∙ rw (verdict, tick, s.hits) refl;
      }

  build-Served :
      (cfg : CacheConfig Double) (k : ℕ)
      → IsShaped (build cfg k)
      → cfg.replacement ≡ fifo
      → is_no_write_allocate cfg.alloc_policy ≡ false
      → cfg.associativity ≡ ways
      → k ≡ sets
      → cfg.block_size ≡ size
      → Served [] (build cfg k)
  unfolding serve
  build-Served cfg k shaped chosen allocates same_ways same_sets same_size = record {
    split = build-IsSplit ways sets size cfg k shaped allocates same_ways same_sets same_size;
    models = build-FifoModels cfg k chosen;
    hits = refl;
  }

module _ (Double : Type 0) where
  -- In a hierarchy that the constructor returns, whose first level holds 64-bit words, is FIFO and
  -- allocates on stores, the hits of the first level are, after a trace of fewer than 2^64 CPU
  -- accesses, those of the rows of its sets: every set keeps its blocks in the order in which they
  -- came in, a hit changes no row, and a miss of a full set pushes out the block that came in first.
  pub run-serve :
      (rand : ℕ → ℕ) (cfg : CacheConfig Double) (cfgs : List (CacheConfig Double))
      (mem_time : Double) (draws : ℕ) {p : (n : ℕ) × CacheHierarchy Double n} (verbose : Bool)
      (trace : List Trace.Access)
      → IsWords cfg
      → cfg.replacement ≡ fifo
      → is_no_write_allocate cfg.alloc_policy ≡ false
      → construct_hierarchy Double (cfg ∷ cfgs) mem_time draws ≡ ok p
      → length (references trace []) < u64_mod
      → (run Double rand verbose trace p.1).0.world.level.0.stats.hits
        ≡ (serve cfg.associativity
            (cfg.size_bytes / u64 (cfg.block_size * cfg.associativity))
            cfg.block_size
            (references trace [])).0
  run-serve rand cfg cfgs mem_time draws verbose trace words chosen allocates e room =
      let sets = cfg.size_bytes / u64 (cfg.block_size * cfg.associativity) in
      let served =
        run-first Double rand (Served cfg.associativity sets cfg.block_size)
          (access-Served cfg.associativity sets cfg.block_size rand) cfg cfgs mem_time draws verbose
          trace
          (λ k accepted.
            build-Served cfg.associativity sets cfg.block_size cfg k
              (build-IsShaped cfg words k accepted) chosen allocates refl accepted.quotient refl)
          e room in
      served.hits
