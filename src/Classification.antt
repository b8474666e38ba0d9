-- ===== src/Classification.antt =====
-- The specification of the 3-C split of misses (Cache::classify of src/cache.cpp): what the classes
-- are for a history of accesses, whatever the geometry and the policies of the cache are.
pub mod Shadow
pub mod History
pub mod Trace
use cache_hierarchy_simulato.Prelude.{
  ℕ, ◌+◌, Bool, true, false, List, [], ◌∷◌, if◌then◌else◌, contains,
}
use cache_hierarchy_simulato.Word.{incr}
use cache_hierarchy_simulato.RefFaCache.Stack.{touch_stack}

-- A history is the list of the blocks that were accessed, the newest first. The stack holds the
-- blocks that a fully-associative LRU cache of the capacity would hold.
unfoldable pub stack_of : ℕ → List ℕ → List ℕ
stack_of capacity [] = []
stack_of capacity (b ∷ h) = (touch_stack capacity b (stack_of capacity h)).1

-- The number of different blocks of a history.
unfoldable pub distinct : List ℕ → ℕ
distinct [] = 0
distinct (b ∷ h) = if contains b h then distinct h else distinct h + 1

pub data MissClass : Type 0 where
  compulsory capacity conflict : MissClass

-- The class of a miss of a block after a history: the first access is compulsory; a later one is a
-- conflict miss if the fully-associative cache holds the block, and else a capacity miss.
unfoldable pub miss_class : ℕ → List ℕ → ℕ → MissClass
miss_class size h b =
    if contains b h
    then (if (touch_stack size b (stack_of size h)).0 then conflict else capacity)
    else compulsory

-- The three counters.
pub record Tally : Type 0 where
  pub compulsory : ℕ
  pub capacity : ℕ
  pub conflict : ℕ

-- The counters after one more miss of a class.
abbrev pub count_class : MissClass → Tally → Tally
count_class MissClass.compulsory t = record t { compulsory = incr t.compulsory }
count_class MissClass.capacity t = record t { capacity = incr t.capacity }
count_class MissClass.conflict t = record t { conflict = incr t.conflict }
