-- ===== src/Tests/Accesses.antt =====
-- Single accesses of small caches.
use cache_hierarchy_simulato.Prelude.{
  Bool, [], arith, false, if◌then◌else◌, not, refl, true, ℕ, ◌&&◌, ◌||◌, ◌∷◌, ◌≡◌, ◌⊎◌,
}
use cache_hierarchy_simulato.Config.{CacheConfig}
use cache_hierarchy_simulato.Memory.{World, MemoryLevel, Memory}
use cache_hierarchy_simulato.Memory
use cache_hierarchy_simulato.Cache.{Cache, decode, victim_addr, ok, build, construct, set_line}
use cache_hierarchy_simulato.Cache.Construct.{IsWords}
use cache_hierarchy_simulato.Access.{
  access, pick_way, find_way, count_access, classify, install, access_miss, allocate,
  write_back_victim, find_empty,
}
use cache_hierarchy_simulato.Access.Branches.{load, send, goes_around, store}
use cache_hierarchy_simulato.Access.Resident.{resident, same_block, held_at}
use cache_hierarchy_simulato.Access.Residency.{access-residency}
use cache_hierarchy_simulato.Access.Locality.{access-again}
use cache_hierarchy_simulato.Access.Sound.{IsSound, construct-IsSound, access-IsSound}
use cache_hierarchy_simulato.Access.Traffic.{TrafficAgrees, access-TrafficAgrees}
use cache_hierarchy_simulato.Access.Log.{recording, unlogged, IsSent}
use cache_hierarchy_simulato.Access.Stores.{access-store}
use cache_hierarchy_simulato.Access.Modified.{IsModified}
use cache_hierarchy_simulato.Access.Loss.{access-no_loss}
use cache_hierarchy_simulato.Hierarchy.{access_level}
use cache_hierarchy_simulato.Hierarchy.Traffic.{level_counts}
use cache_hierarchy_simulato.Tests.{program, numbers, first, memory, small, below, small-IsSound}

-- The first cache after a store, over the memory.
abbrev warm : Bool × Cache ℕ × World Memory
warm = access numbers Memory.access 16 true small below

access-IsSound_example : IsSound warm.1
access-IsSound_example = access-IsSound numbers Memory.access 16 true small below small-IsSound

warm-IsSound : IsSound warm.1
warm-IsSound = access-IsSound numbers Memory.access 16 true small below small-IsSound

access-residency_example :
    let c = warm.1 in
    let i = (decode c 32).set_index in
    let way = (pick_way numbers c i (send Memory.access (load 32 ∷ []) warm.2).draws).0 in
    resident (access numbers Memory.access 32 false c warm.2).1 16 ≡ (
      if resident c 32 || goes_around false c
      then resident c 16
      else same_block c 32 16 || (resident c 16 && not (held_at c i way 16)))
access-residency_example =
    access-residency numbers Memory.access 32 false warm.1 warm.2 warm-IsSound.shaped
      warm-IsSound.unique 16

start-TrafficAgrees : TrafficAgrees (level_counts ℕ numbers 0) small memory
start-TrafficAgrees = record { fetches = refl; forwards = refl; write_backs = refl; calls = refl }

access-TrafficAgrees_example : TrafficAgrees (level_counts ℕ numbers 0) warm.1 warm.2.level
unfolding access_level
access-TrafficAgrees_example =
    access-TrafficAgrees (level_counts ℕ numbers 0) small below numbers 16 true start-TrafficAgrees

-- Two sets of one way.
abbrev narrow : CacheConfig ℕ
narrow = record first { size_bytes = 16; associativity = 1 }

abbrev direct : Cache ℕ
direct = build narrow 2

narrow-IsWords : IsWords narrow
narrow-IsWords = record { size = omega arith; block = omega arith; ways = omega arith }

direct-built : construct narrow false ≡ ok direct
unfolding program
direct-built = refl

direct-IsSound : IsSound direct
direct-IsSound = construct-IsSound narrow false narrow-IsWords direct-built

-- The cache after a store to 16.
abbrev stored : Bool × Cache ℕ × World Memory
stored = access numbers Memory.access 16 true direct below

stored-IsSound : IsSound stored.1
stored-IsSound = access-IsSound numbers Memory.access 16 true direct below direct-IsSound

stored-IsModified : IsModified stored.1 0 0 1
unfolding program find_way count_access classify install access_miss allocate set_line
    write_back_victim find_empty
stored-IsModified = record { valid = refl; dirty = refl; tagged = refl }

-- The next store to the set takes the frame.
access-no_loss_example :
    let r = access numbers (recording Memory.access) 32 true stored.1 (unlogged stored.2) in
    IsModified r.1 0 0 1 ⊎ IsSent (store (victim_addr stored.1 1 0)) r.2.level.1
access-no_loss_example =
    access-no_loss numbers Memory.access 32 true stored.2 stored-IsSound.shaped stored-IsSound.clean
      stored-IsModified

access-store_example :
    let r = access numbers (recording Memory.access) 16 true direct (unlogged below) in
    let d = decode direct 16 in
    ((way : ℕ) × IsModified r.1 d.set_index way d.tag) ⊎ IsSent (store 16) r.2.level.1
access-store_example = access-store numbers Memory.access 16 direct below direct-IsSound.shaped

small-same_block : same_block small 16 20 ≡ true
unfolding program
small-same_block = refl

small-stays :
    ((access numbers Memory.access 16 true small below).0 || not (goes_around true small)) ≡ true
unfolding program find_way count_access access_miss allocate
small-stays = refl

access-again_example :
    (access numbers Memory.access 20 false warm.1 (record { draws = 0; level = memory })).0 ≡ true
access-again_example =
    access-again numbers Memory.access Memory.access 16 20 true false small below
      (record { draws = 0; level = memory }) small-IsSound.shaped small-IsSound.unique
      small-same_block small-stays
