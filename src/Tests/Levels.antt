-- ===== src/Tests/Levels.antt =====
-- Two levels.
use cache_hierarchy_simulato.Prelude.{
  ℕ, ◌/◌, ◌*◌, ◌<◌, ◌≡◌, refl, false, List, [], ◌∷◌, length, arith,
}
use cache_hierarchy_simulato.Word.{u64, u64_mod}
use cache_hierarchy_simulato.Config.{CacheConfig, lru, fifo, write_allocate}
use cache_hierarchy_simulato.RefFaCache.Stack.{drop_last}
use cache_hierarchy_simulato.Cache.{ok, build, set_line}
use cache_hierarchy_simulato.Cache.Construct.{IsWords}
use cache_hierarchy_simulato.Access.{
  find_way, count_access, access_miss, allocate, install, write_back_victim, classify, find_empty,
}
use cache_hierarchy_simulato.Access.Branches.{after_miss}
use cache_hierarchy_simulato.Access.Calls.{calls}
use cache_hierarchy_simulato.Trace.{read, write}
use cache_hierarchy_simulato.Trace
use cache_hierarchy_simulato.Hierarchy
use cache_hierarchy_simulato.Hierarchy.{CacheHierarchy, construct_hierarchy, run}
use cache_hierarchy_simulato.Hierarchy.Second.{sent, addresses}
use cache_hierarchy_simulato.Hierarchy.Lower.{second-compulsory, second-replay}
use cache_hierarchy_simulato.Hierarchy.First.{references}
use cache_hierarchy_simulato.Classification.{distinct}
use cache_hierarchy_simulato.Classification.Trace.{blocks_of}
use cache_hierarchy_simulato.Recency.{replay}
use cache_hierarchy_simulato.Tests.{program, numbers, first, second, memory, small, at}
use cache_hierarchy_simulato.Insertion.{enter, access_rows, serve}
use cache_hierarchy_simulato.Insertion.Trace.{run-serve}

-- The second level as an LRU cache that allocates on stores.
abbrev pub deep : CacheConfig ℕ
deep = record second { replacement = lru; alloc_policy = write_allocate }

abbrev pub two : CacheHierarchy ℕ 1
two = record {
  world = record { draws = 0; level = (small, (build deep 2, memory)) };
  mem_time = 100;
  fed = 0;
}

abbrev pub short : List Trace.Access
short = at read 0 ∷ at write 16 ∷ []

deep-IsWords : IsWords deep
deep-IsWords = record { size = omega arith; block = omega arith; ways = omega arith }

pub two-built : construct_hierarchy ℕ (first ∷ deep ∷ []) 100 0 ≡ ok (1, two)
unfolding program
two-built = refl

two-sent : length (sent ℕ numbers short two []) ≡ 2
unfolding program sent calls find_way count_access Hierarchy.feed Hierarchy.one Hierarchy.access
    access_miss allocate install set_line write_back_victim classify find_empty after_miss
two-sent = refl

pub two-room : length (sent ℕ numbers short two []) < u64_mod
two-room = omega (arith, two-sent)

second-compulsory_example :
    (run ℕ numbers false short two).0.world.level.1.0.stats.compulsory
    ≡ distinct (blocks_of 16 (addresses (sent ℕ numbers short two [])))
second-compulsory_example =
    second-compulsory ℕ numbers first deep [] 100 0 two false short deep-IsWords two-built two-room
      refl

second-replay_example :
    (run ℕ numbers false short two).0.world.level.1.0.stats.hits
    ≡ (replay 4 (128 / u64 (16 * 4)) 16 (addresses (sent ℕ numbers short two []))).0
second-replay_example =
    second-replay ℕ numbers first deep [] 100 0 two false short deep-IsWords two-built two-room refl
      refl

-- One FIFO level.
abbrev arrivals : CacheConfig ℕ
arrivals = record first { replacement = fifo }

abbrev line : (n : ℕ) × CacheHierarchy ℕ n
line = (
  0,
  record {
    world = record { draws = 0; level = (build arrivals 2, memory) };
    mem_time = 100;
    fed = 0;
  },
)

arrivals-IsWords : IsWords arrivals
arrivals-IsWords = record { size = omega arith; block = omega arith; ways = omega arith }

line-built : construct_hierarchy ℕ (arrivals ∷ []) 100 0 ≡ ok line
unfolding program
line-built = refl

-- Three blocks of one set: the block of 0 is hit once, and leaves when the third block comes in.
abbrev crowded : List Trace.Access
crowded = at read 0 ∷ at read 16 ∷ at read 0 ∷ at read 32 ∷ at read 0 ∷ []

crowded-room : length (references crowded []) < u64_mod
unfolding references
crowded-room = omega arith

crowded-hits : (serve 2 2 8 (references crowded [])).0 ≡ 1
unfolding references serve access_rows enter drop_last
crowded-hits = refl

run-serve_example :
    (run ℕ numbers false crowded line.1).0.world.level.0.stats.hits
    ≡ (serve 2 (32 / u64 (8 * 2)) 8 (references crowded [])).0
run-serve_example =
    run-serve ℕ numbers arrivals [] 100 0 {p = line} false crowded arrivals-IsWords refl refl
      line-built crowded-room
