-- ===== src/Config.antt =====
-- include/config.h: the three policy enumerations and CacheConfig; include/stats.h: the counters.
-- `double` is a parameter: the cache itself never computes with the hit time that it carries.
use Prim.Native.String.{String}
use cache_hierarchy_simulato.Prelude.{ℕ, Bool, true, false}

pub data ReplacementType : Type 0 where
  lru fifo random : ReplacementType

pub data WritePolicy : Type 0 where
  write_back write_through : WritePolicy

pub data AllocPolicy : Type 0 where
  write_allocate no_write_allocate : AllocPolicy

pub record CacheConfig (Double : Type 0) : Type 0 where
  pub name : String
  pub size_bytes : ℕ
  pub block_size : ℕ
  pub associativity : ℕ
  pub replacement : ReplacementType
  pub write_policy : WritePolicy
  pub alloc_policy : AllocPolicy
  pub hit_time : Double
  pub addr_width : ℕ
  pub classify_3c : Bool

-- The comparisons `== WritePolicy::WriteBack` and `== AllocPolicy::NoWriteAllocate`.
abbrev pub is_write_back : WritePolicy → Bool
is_write_back write_back = true
is_write_back write_through = false

abbrev pub is_no_write_allocate : AllocPolicy → Bool
is_no_write_allocate write_allocate = false
is_no_write_allocate no_write_allocate = true

pub record Stats : Type 0 where
  pub accesses : ℕ
  pub hits : ℕ
  pub misses : ℕ
  pub reads : ℕ
  pub writes : ℕ
  pub writebacks : ℕ
  pub compulsory : ℕ
  pub capacity : ℕ
  pub conflict : ℕ

abbrev pub zero_stats : Stats
zero_stats = record {
  accesses = 0;
  hits = 0;
  misses = 0;
  reads = 0;
  writes = 0;
  writebacks = 0;
  compulsory = 0;
  capacity = 0;
  conflict = 0;
}
