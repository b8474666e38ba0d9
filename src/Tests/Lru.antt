-- ===== src/Tests/Lru.antt =====
-- The reference model, the classes of misses and the LRU stacks on small caches.
use cache_hierarchy_simulato.Prelude.{
  suc, ◌<◌, ◌+◌, ◌++◌, leb, length, List, [], arith, false, if◌then◌else◌, refl, true, ℕ, ◌*◌, ◌/◌,
  ◌∷◌, ◌≡◌, ◌≤◌,
}
use cache_hierarchy_simulato.Word.{u64, u64_mod}
use cache_hierarchy_simulato.Config.{CacheConfig}
use cache_hierarchy_simulato.RefFaCache.{RefFaCache, find, touch}
use cache_hierarchy_simulato.RefFaCache.Stack.{Models, touch_stack, remove, drop_last}
use cache_hierarchy_simulato.RefFaCache.Refines.{touch-Models}
use cache_hierarchy_simulato.RefFaCache.Verdicts.{verdicts, stack_verdicts, verdicts-stack}
use cache_hierarchy_simulato.Memory.{World, MemoryLevel, Memory}
use cache_hierarchy_simulato.Memory
use cache_hierarchy_simulato.Cache.{decode, ok, build}
use cache_hierarchy_simulato.Cache.Construct.{IsWords}
use cache_hierarchy_simulato.Access.{access}
use cache_hierarchy_simulato.Access.Branches.{goes_around}
use cache_hierarchy_simulato.Hierarchy
use cache_hierarchy_simulato.Hierarchy.{CacheHierarchy, construct_hierarchy, run}
use cache_hierarchy_simulato.Hierarchy.First.{references}
use cache_hierarchy_simulato.Classification.{distinct, miss_class, count_class}
use cache_hierarchy_simulato.Classification.Shadow.{tally}
use cache_hierarchy_simulato.Classification.History.{Tracks, total_lines, access-classified}
use cache_hierarchy_simulato.Classification.Trace.{blocks_of, run-compulsory, fresh-Tracks}
use cache_hierarchy_simulato.Recency.Reuse.{tags_of, run-reuse}
use cache_hierarchy_simulato.Recency.{access_stacks, replay}
use cache_hierarchy_simulato.Recency.Access.{access-LruModels}
use cache_hierarchy_simulato.Recency.Uses.{LruModels}
use cache_hierarchy_simulato.Recency.Fresh.{build-LruModels}
use cache_hierarchy_simulato.Recency.Trace.{run-replay}
use cache_hierarchy_simulato.Recency.FullyAssociative.{run-no_conflict}
use cache_hierarchy_simulato.Recency.Ways.{run-ways}
use cache_hierarchy_simulato.Tests.{
  program, numbers, first, second, memory, small, below, chain, trace, first-IsWords, chain-built,
  small-IsSound, small-IsShaped, chain-room,
}

-- Two blocks, the newer one first.
abbrev shadow : RefFaCache
shadow = record { last_used = (5, 2) ∷ (3, 7) ∷ []; capacity = 2; clock = 7 }

shadow-Models : Models shadow (3 ∷ 5 ∷ [])
unfolding find
shadow-Models = record {
  ranks = (3, 7) ∷ (5, 2) ∷ [];
  stack = refl;
  unique = (refl, (refl, tt));
  unique_ranks = (refl, (refl, tt));
  ranked = (omega arith, (omega arith, tt));
  same = λ x. ground arith;
  size = refl;
}

touch-Models_example :
    let s = touch_stack 2 9 (3 ∷ 5 ∷ []) in
    ((touch 9 shadow).0 ≡ s.0) × Models (touch 9 shadow).1 s.1
touch-Models_example = touch-Models 9 shadow-Models (omega arith)

abbrev touched : List ℕ
touched = 1 ∷ 2 ∷ 1 ∷ 3 ∷ 1 ∷ 2 ∷ []

verdicts-stack_example :
    verdicts touched (record { last_used = []; capacity = 2; clock = 0 })
    ≡ stack_verdicts 2 touched []
verdicts-stack_example = verdicts-stack 2 touched (omega arith)

touched-verdicts : stack_verdicts 2 touched [] ≡ false ∷ false ∷ true ∷ false ∷ true ∷ false ∷ []
unfolding stack_verdicts touch_stack remove drop_last
touched-verdicts = refl

run-compulsory_example :
    (run ℕ numbers false trace chain.1).0.world.level.0.stats.compulsory
    ≡ distinct (blocks_of 8 (references trace []))
run-compulsory_example =
    run-compulsory ℕ numbers first (second ∷ []) 100 0 {p = chain} false trace first-IsWords refl
      chain-built chain-room

run-replay_example :
    (run ℕ numbers false trace chain.1).0.world.level.0.stats.hits
    ≡ (replay 2 (32 / u64 (8 * 2)) 8 (references trace [])).0
run-replay_example =
    run-replay ℕ numbers first (second ∷ []) 100 0 {p = chain} false trace first-IsWords refl refl
      chain-built chain-room

-- The four lines of the first level in one set.
abbrev one_set : CacheConfig ℕ
one_set = record first { associativity = 4 }

abbrev flat : (n : ℕ) × CacheHierarchy ℕ n
flat = (
  0,
  record {
    world = record { draws = 0; level = (build one_set 1, memory) };
    mem_time = 100;
    fed = 0;
  },
)

one_set-IsWords : IsWords one_set
one_set-IsWords = record { size = omega arith; block = omega arith; ways = omega arith }

flat-built : construct_hierarchy ℕ (one_set ∷ []) 100 0 ≡ ok flat
unfolding program
flat-built = refl

run-no_conflict_example : (run ℕ numbers false trace flat.1).0.world.level.0.stats.conflict ≡ 0
run-no_conflict_example =
    run-no_conflict ℕ numbers one_set [] 100 0 {p = flat} false trace one_set-IsWords refl refl refl
      refl flat-built chain-room

small-Tracks : Tracks [] small
small-Tracks = fresh-Tracks first 2 small-IsShaped refl

access-classified_example :
    let r = access numbers Memory.access 16 true small below in
    (tally r.1 ≡ (
      if r.0
      then tally small
      else count_class
          (miss_class (total_lines small) [] (decode small 16).block_addr)
          (tally small)))
    × Tracks ((decode small 16).block_addr ∷ []) r.1
access-classified_example =
    access-classified numbers 16 true small-Tracks (omega arith) Memory.access below small-IsShaped
      small-IsSound.unique

small-LruModels : LruModels 0 small (λ i. [])
small-LruModels = build-LruModels first 2 refl

access-LruModels_example :
    let r = access numbers Memory.access 16 true small below in
    let d = decode small 16 in
    let s = access_stacks 2 (goes_around true small) d.set_index d.tag (λ i. []) in
    (r.0 ≡ s.0) × LruModels 1 r.1 s.1
access-LruModels_example =
    access-LruModels numbers 16 true small-LruModels small-IsShaped (omega arith) Memory.access
      below

-- As many sets as in the first level, of four ways.
abbrev wide : CacheConfig ℕ
wide = record first { size_bytes = 64; associativity = 4 }

abbrev wide_chain : (n : ℕ) × CacheHierarchy ℕ n
wide_chain = (
  0,
  record { world = record { draws = 0; level = (build wide 2, memory) }; mem_time = 100; fed = 0 },
)

wide-IsWords : IsWords wide
wide-IsWords = record { size = omega arith; block = omega arith; ways = omega arith }

wide_chain-built : construct_hierarchy ℕ (wide ∷ []) 100 0 ≡ ok wide_chain
unfolding program
wide_chain-built = refl

run-ways_example :
    (run ℕ numbers false trace chain.1).0.world.level.0.stats.hits
    ≤ (run ℕ numbers false trace wide_chain.1).0.world.level.0.stats.hits
run-ways_example =
    run-ways ℕ numbers first wide (second ∷ []) [] 100 0 {p = chain} {p' = wide_chain} trace
      first-IsWords wide-IsWords refl refl refl refl refl refl (omega arith) (omega arith)
      chain-built wide_chain-built chain-room

chain-split : references trace [] ≡ (64 ∷ 48 ∷ []) ++ 4 ∷ 32 ∷ 32 ∷ 16 ∷ 0 ∷ []
unfolding references
chain-split = refl

chain-space : length (references trace []) + 1 < u64_mod
unfolding references
chain-space = omega arith

-- Two other blocks of the set of two ways were accessed since.
run-reuse_example :
    (Hierarchy.access ℕ numbers 6 false (run ℕ numbers false trace chain.1).0).0
    ≡ leb (suc (distinct (tags_of 2 8 0 (64 ∷ 48 ∷ [])))) 2
run-reuse_example =
    run-reuse ℕ numbers first (second ∷ []) 100 0 {p = chain} false trace 4 6 false (64 ∷ 48 ∷ [])
      (32 ∷ 32 ∷ 16 ∷ 0 ∷ []) first-IsWords refl refl chain-built chain-split chain-space refl refl
