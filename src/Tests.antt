-- ===== src/Tests.antt =====
-- Runs of the model on small caches, and instances of its theorems there. The caches, the trace and
-- the generator of this file serve the child modules too.
mod Accesses
mod Addresses
mod Lru
mod Parsing
mod Commands
mod Levels
mod Reports
mod Workloads
use cache_hierarchy_simulato.Prelude.{
  List, [], arith, false, refl, true, ℕ, ◌*◌, length, ◌+◌, ◌<◌, ◌∷◌, ◌≡◌,
}
use cache_hierarchy_simulato.Config.{
  lru, random, write_back, write_through, write_allocate, no_write_allocate, CacheConfig,
}
use cache_hierarchy_simulato.Geometry.{log2u, is_pow2}
use cache_hierarchy_simulato.Replacement.{oldest}
use cache_hierarchy_simulato.Memory.{World, Memory}
use cache_hierarchy_simulato.Memory
use cache_hierarchy_simulato.Cache.{Cache, decode, victim_addr, ok, build, construct}
use cache_hierarchy_simulato.Cache.Shape.{IsShaped}
use cache_hierarchy_simulato.Cache.Construct.{IsWords}
use cache_hierarchy_simulato.Access.{access, pick_way}
use cache_hierarchy_simulato.Access.Branches.{send}
use cache_hierarchy_simulato.Access.Resident.{resident, same_block, held_at}
use cache_hierarchy_simulato.Access.Sound.{IsSound, construct-IsSound}
use cache_hierarchy_simulato.Trace.{Op, read, write, modify, instr}
use cache_hierarchy_simulato.Trace
use cache_hierarchy_simulato.Hierarchy.{
  CacheHierarchy, build_levels, construct_hierarchy, access_level, run, check_hierarchy,
}
use cache_hierarchy_simulato.Hierarchy.Invariant.{check_hierarchy-run}
use cache_hierarchy_simulato.Hierarchy.Traffic.{LevelsAgree}
use cache_hierarchy_simulato.Hierarchy.Balance.{run-LevelsAgree}
use cache_hierarchy_simulato.Word.{u64_mod}
use cache_hierarchy_simulato.Hierarchy.First.{references}

program : Unit {0}
unfolding construct construct_hierarchy build_levels is_pow2 log2u access_level run check_hierarchy
    decode victim_addr oldest access pick_way resident same_block held_at send Memory.access
program = tt

-- A generator for the random policy: 3, 10, 17, …
abbrev numbers : ℕ → ℕ
numbers n = 7 * n + 3

-- Two sets of two ways of 8 bytes, write-back with write-allocate.
abbrev first : CacheConfig ℕ
first = record {
  name = "L1";
  size_bytes = 32;
  block_size = 8;
  associativity = 2;
  replacement = lru;
  write_policy = write_back;
  alloc_policy = write_allocate;
  hit_time = 1;
  addr_width = 64;
  classify_3c = true;
}

-- Two sets of four ways of 16 bytes, write-through around.
abbrev second : CacheConfig ℕ
second = record {
  name = "L2";
  size_bytes = 128;
  block_size = 16;
  associativity = 4;
  replacement = random;
  write_policy = write_through;
  alloc_policy = no_write_allocate;
  hit_time = 10;
  addr_width = 64;
  classify_3c = true;
}

abbrev memory : Memory
memory = record { reads = 0; writes = 0 }

abbrev small : Cache ℕ
small = build first 2

abbrev below : World Memory
below = record { draws = 0; level = memory }

abbrev chain : (n : ℕ) × CacheHierarchy ℕ n
chain = (
  1,
  record {
    world = record { draws = 0; level = (small, (build second 2, memory)) };
    mem_time = 100;
    fed = 0;
  },
)

abbrev at : Op → ℕ → Trace.Access
at op addr = record { op = op; addr = addr; size = 4 }

abbrev trace : List Trace.Access
trace =
    at read 0 ∷ at write 16 ∷ at modify 32 ∷ at instr 48 ∷ at read 4 ∷ at write 48 ∷ at read 64 ∷ []

first-IsWords : IsWords first
first-IsWords = record { size = omega arith; block = omega arith; ways = omega arith }

second-IsWords : IsWords second
second-IsWords = record { size = omega arith; block = omega arith; ways = omega arith }

small-built : construct first false ≡ ok small
unfolding program
small-built = refl

chain-built : construct_hierarchy ℕ (first ∷ second ∷ []) 100 0 ≡ ok chain
unfolding program
chain-built = refl

check_hierarchy-run_example : check_hierarchy ℕ (run ℕ numbers true trace chain.1).0 ≡ true
check_hierarchy-run_example =
    check_hierarchy-run ℕ numbers (first ∷ second ∷ []) 100 0 {p = chain} true trace
      (first-IsWords, (second-IsWords, tt)) chain-built

run-LevelsAgree_example : LevelsAgree ℕ numbers 2 (run ℕ numbers false trace chain.1).0.world.level
run-LevelsAgree_example =
    run-LevelsAgree ℕ numbers (first ∷ second ∷ []) 100 0 {p = chain} false trace chain-built

small-IsSound : IsSound small
small-IsSound = construct-IsSound first false first-IsWords small-built

small-IsShaped : IsShaped small
small-IsShaped = small-IsSound.shaped

chain-room : length (references trace []) < u64_mod
unfolding references
chain-room = omega arith
