-- ===== src/Hierarchy.antt =====
-- include/hierarchy.h and src/hierarchy.cpp: the chain L1 -> L2 -> ... -> Memory.
-- `levels_` with the pointers between neighbours is a nest of pairs: a cache beside what is below it.
pub mod Invariant
pub mod Traffic
pub mod Balance
pub mod First
pub mod Log
pub mod Second
pub mod Lower
pub mod Counts
use cache_hierarchy_simulato.Prelude.{
  ℕ, zero, suc, ◌+◌, Bool, true, false, List, [], ◌∷◌, ◌++◌, ◌&&◌, if◌then◌else◌, length,
}
use cache_hierarchy_simulato.Word.{incr}
use cache_hierarchy_simulato.Config.{CacheConfig}
use cache_hierarchy_simulato.Memory.{World, MemoryLevel, Memory}
use cache_hierarchy_simulato.Memory
use cache_hierarchy_simulato.Cache.{
  Cache, Decoded, decode, Result, ok, failed, no_cache_level, construct, ◌>>=◌,
}
use cache_hierarchy_simulato.Access
use cache_hierarchy_simulato.Check.{check_invariants}
use cache_hierarchy_simulato.Trace.{Op, read, write, modify, instr}
use cache_hierarchy_simulato.Trace

-- `n` caches over the memory.
abbrev pub Levels : Type 0 → ℕ → Type 0
Levels Double zero = Memory
Levels Double (suc n) = Cache Double × Levels Double n

-- What the verbose log shows of one access.
pub record Echo : Type 0 where
  pub number : ℕ
  pub opcode : ℕ
  pub addr : ℕ
  pub block : ℕ
  pub set_index : ℕ
  pub tag : ℕ
  pub hit : Bool

module _ (Double : Type 0) where
  -- The loop of the constructor: the deepest level is built first.
  unfoldable pub build_levels :
      (cfgs : List (CacheConfig Double)) → Result (Levels Double (length cfgs))
  build_levels [] = ok (record { reads = 0; writes = 0 })
  build_levels (cfg ∷ cfgs) = do below ← build_levels cfgs; c ← construct cfg false; ok (c, below)

  -- At least one level is there, so the number of levels is a successor.
  pub record CacheHierarchy (n : ℕ) : Type 0 where
    pub world : World (Levels Double (suc n))
    pub mem_time : Double
    pub fed : ℕ

  -- CacheHierarchy::CacheHierarchy, in a process that has called std::rand() `draws` times.
  unfoldable pub construct_hierarchy :
      List (CacheConfig Double) → Double → ℕ → Result ((n : ℕ) × CacheHierarchy n)
  construct_hierarchy [] mem_time draws = failed no_cache_level
  construct_hierarchy (cfg ∷ cfgs) mem_time draws = do
    levels ← build_levels (cfg ∷ cfgs)
    ok (
      length cfgs,
      record { world = record { draws = draws; level = levels }; mem_time = mem_time; fed = 0 },
    )

  module _ (rand : ℕ → ℕ) where
    -- The virtual call `access` on the level that `n` caches stand under.
    unfoldable pub access_level : (n : ℕ) → MemoryLevel (Levels Double n)
    access_level zero addr is_write w = Memory.access addr is_write w
    access_level (suc n) addr is_write w =
        let (hit, c, below) =
          Access.access rand (access_level n) addr is_write w.level.0
            (record { draws = w.draws; level = w.level.1 }) in
        (hit, record { draws = below.draws; level = (c, below.level) })

    module _ {n : ℕ} where
      -- CacheHierarchy::access
      unfoldable pub access : ℕ → Bool → CacheHierarchy n → Bool × CacheHierarchy n
      access addr is_write h =
          let (hit, w) = access_level (suc n) addr is_write h.world in (hit, record h { world = w })

      -- CacheHierarchy::one
      unfoldable pub one : Bool → ℕ → Bool → ℕ → CacheHierarchy n → CacheHierarchy n × List Echo
      one verbose addr is_write opcode h =
          let (hit, h') = access addr is_write h in
          let d = decode h'.world.level.0 addr in
          let number = incr h'.fed in
          if verbose
          then (
            record h' { fed = number },
            record {
              number = number;
              opcode = opcode;
              addr = addr;
              block = d.block_addr;
              set_index = d.set_index;
              tag = d.tag;
              hit = hit;
            }
                ∷ [],
          )
          else (h', [])

      -- CacheHierarchy::feed
      unfoldable pub feed : Bool → Op → ℕ → CacheHierarchy n → CacheHierarchy n × List Echo
      feed verbose read addr h = one verbose addr false b'R' h
      feed verbose write addr h = one verbose addr true b'W' h
      feed verbose modify addr h =
          let (h₁, loaded) = one verbose addr false b'R' h in
          let (h₂, stored) = one verbose addr true b'W' h₁ in (h₂, loaded ++ stored)
      feed verbose instr addr h = (h, [])

      -- The loop of main: every record of the trace is fed.
      unfoldable pub run :
          Bool → List Trace.Access → CacheHierarchy n → CacheHierarchy n × List Echo
      run verbose [] h = (h, [])
      run verbose (a ∷ rest) h =
          let (h₁, out) = feed verbose a.op a.addr h in
          let (h₂, more) = run verbose rest h₁ in (h₂, out ++ more)

  -- The loop of CacheHierarchy::checkInvariants; every level is checked, also after a failure.
  unfoldable pub check_levels : (n : ℕ) → Levels Double n → Bool
  check_levels zero m = true
  check_levels (suc n) s = check_invariants s.0 && check_levels n s.1

  unfoldable pub check_hierarchy : {n : ℕ} → CacheHierarchy n → Bool
  unfolding check_levels
  check_hierarchy {n} h = check_levels (suc n) h.world.level
