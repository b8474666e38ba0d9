-- ===== src/Hierarchy/Lower.antt =====
-- The second level of a hierarchy: its compulsory misses and its LRU hits, by the calls that the
-- first level makes of it.
use cache_hierarchy_simulato.Prelude.{
  ℕ, suc, ◌/◌, ◌*◌, ◌<◌, ◌≡◌, refl, Bool, true, false, List, [], ◌∷◌, length,
}
use cache_hierarchy_simulato.Word.{u64, u64_mod}
use cache_hierarchy_simulato.Config.{CacheConfig, lru, is_no_write_allocate}
use cache_hierarchy_simulato.Cache.{ok}
use cache_hierarchy_simulato.Cache.Construct.{IsWords, build-IsShaped}
use cache_hierarchy_simulato.Trace
use cache_hierarchy_simulato.Hierarchy.{CacheHierarchy, construct_hierarchy, run}
use cache_hierarchy_simulato.Hierarchy.Second.{sent, addresses, run-second}
use cache_hierarchy_simulato.Classification.{distinct}
use cache_hierarchy_simulato.Classification.Trace.{blocks_of, Served, access-Served, build-Served}
use cache_hierarchy_simulato.Recency.{replay}
use cache_hierarchy_simulato.Recency.Trace.{Replayed, access-Replayed, build-Replayed}

module _ (Double : Type 0) (rand : ℕ → ℕ) (cfg cfg' : CacheConfig Double)
    (cfgs : List (CacheConfig Double)) (mem_time : Double) (draws : ℕ) {n : ℕ}
    (h : CacheHierarchy Double (suc n)) (verbose : Bool) (trace : List Trace.Access)
    (words : IsWords cfg')
    (built : construct_hierarchy Double (cfg ∷ cfg' ∷ cfgs) mem_time draws ≡ ok (suc n, h))
    (room : length (sent Double rand trace h []) < u64_mod) where
  -- In a hierarchy that the constructor returns, whose second level classifies its misses and holds
  -- 64-bit words, the compulsory misses of the second level are, after a trace for which the first
  -- level makes fewer than 2^64 calls of it, the different blocks of these calls.
  pub second-compulsory :
      cfg'.classify_3c ≡ true
      → (run Double rand verbose trace h).0.world.level.1.0.stats.compulsory
        ≡ distinct (blocks_of cfg'.block_size (addresses (sent Double rand trace h [])))
  second-compulsory on =
      let served =
        run-second Double rand (Served cfg'.block_size)
          (λ S next addr b c w before. access-Served cfg'.block_size rand next addr b c w before)
          cfg cfg' cfgs mem_time draws h verbose trace
          (λ k accepted. build-Served cfg' k (build-IsShaped cfg' words k accepted) on) built
          room in
      served.first_touches

  -- In a hierarchy that the constructor returns, whose second level holds 64-bit words, is LRU and
  -- allocates on stores, the hits of the second level are, after a trace for which the first level
  -- makes fewer than 2^64 calls of it, those of the stacks of its sets for these calls.
  pub second-replay :
      cfg'.replacement ≡ lru
      → is_no_write_allocate cfg'.alloc_policy ≡ false
      → (run Double rand verbose trace h).0.world.level.1.0.stats.hits
        ≡ (replay cfg'.associativity
            (cfg'.size_bytes / u64 (cfg'.block_size * cfg'.associativity))
            cfg'.block_size
            (addresses (sent Double rand trace h []))).0
  second-replay chosen allocates =
      let sets = cfg'.size_bytes / u64 (cfg'.block_size * cfg'.associativity) in
      let replayed =
        run-second Double rand (Replayed cfg'.associativity sets cfg'.block_size)
          (access-Replayed cfg'.associativity sets cfg'.block_size rand) cfg cfg' cfgs mem_time
          draws h verbose trace
          (λ k accepted.
            build-Replayed cfg'.associativity sets cfg'.block_size cfg' k
              (build-IsShaped cfg' words k accepted) chosen allocates refl accepted.quotient refl)
          built room in
      replayed.hits
