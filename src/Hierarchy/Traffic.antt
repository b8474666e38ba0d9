-- ===== src/Hierarchy/Traffic.antt =====
-- The counters of neighbouring levels of src/hierarchy.cpp before and after one access.
use cache_hierarchy_simulato.Prelude.{ℕ, zero, suc, ◌≡◌, Bool, arith, if◌then◌else◌}
use cache_hierarchy_simulato.Word.{incr}
use cache_hierarchy_simulato.Memory.{World, Memory}
use cache_hierarchy_simulato.Memory
use cache_hierarchy_simulato.Cache.{Cache, Decoded, set_line}
use cache_hierarchy_simulato.Access
use cache_hierarchy_simulato.Access.Branches.{after_hit, after_miss, after_fill}
use cache_hierarchy_simulato.Access.Transition.{
  Transition, hit, around, fill, missed_cache, start, chosen, parts, access-Transition,
}
use cache_hierarchy_simulato.Access.Traffic.{CountsTraffic, TrafficAgrees, access-TrafficAgrees}
use cache_hierarchy_simulato.Access.Sound.{access-keeps}
use cache_hierarchy_simulato.Hierarchy.{Levels, access_level}

reads-memory :
    (addr : ℕ) (b : Bool) (w : World Memory)
    → (Memory.access addr b w).1.level.reads ≡ (if b then w.level.reads else incr w.level.reads)
unfolding Memory.access
reads-memory addr b w = ground arith

writes-memory :
    (addr : ℕ) (b : Bool) (w : World Memory)
    → (Memory.access addr b w).1.level.writes ≡ (if b then incr w.level.writes else w.level.writes)
unfolding Memory.access
writes-memory addr b w = ground arith

module _ {Double : Type 0} (b : Bool) (d : Decoded) where
  abbrev SameKinds : Cache Double → Cache Double → Type 0
  SameKinds c c' = (c'.stats.reads ≡ c.stats.reads) × (c'.stats.writes ≡ c.stats.writes)

  kinds-after_hit : (way : ℕ) (c : Cache Double) → SameKinds c (after_hit b d way c)
  unfolding after_hit Access.record_hit Access.touch_ref set_line
  kinds-after_hit way c = ground arith

  kinds-after_miss : (c : Cache Double) → SameKinds c (after_miss d c)
  unfolding after_miss Access.classify
  kinds-after_miss c = ground arith

  kinds-after_fill : (way : ℕ) (c : Cache Double) → SameKinds c (after_fill b d way c)
  unfolding after_fill Access.install set_line
  kinds-after_fill way c = ground arith

module _ {Double : Type 0} (rand : ℕ → ℕ) (addr : ℕ) (b : Bool) {c : Cache Double} where
  -- An access of a cache counts one read or one write.
  kinds-Transition :
      {r : Bool} {c' : Cache Double}
      → Transition rand addr b c r c'
      → (c'.stats.reads ≡ (if b then c.stats.reads else incr c.stats.reads))
        × (c'.stats.writes ≡ (if b then incr c.stats.writes else c.stats.writes))
  unfolding Access.count_access
  kinds-Transition (hit way found) =
      ground (arith, kinds-after_hit b (parts rand addr b c) way (start rand addr b c))
  kinds-Transition (around missed out) =
      ground (arith, kinds-after_miss b (parts rand addr b c) (start rand addr b c))
  kinds-Transition (fill draws missed here) = ground (
    arith,
    kinds-after_miss b (parts rand addr b c) (start rand addr b c),
    kinds-after_fill b (parts rand addr b c) (chosen rand addr b c draws)
        (missed_cache rand addr b c),
  )

module _ (Double : Type 0) (rand : ℕ → ℕ) where
  pub kinds-access_level :
      (n addr : ℕ) (b : Bool) (w : World (Levels Double (suc n)))
      → let c = w.level.0 in
        let c' = (access_level Double rand (suc n) addr b w).1.level.0 in
        (c'.stats.reads ≡ (if b then c.stats.reads else incr c.stats.reads))
        × (c'.stats.writes ≡ (if b then incr c.stats.writes else c.stats.writes))
  unfolding access_level
  kinds-access_level n addr b w = kinds-Transition rand addr b (
      access-Transition rand addr b w.level.0 (access_level Double rand n)
        (record { draws = w.draws; level = w.level.1 }))

  pub loads-zero :
      (addr : ℕ) (b : Bool) (w : World Memory)
      → (access_level Double rand zero addr b w).1.level.reads
        ≡ (if b then w.level.reads else incr w.level.reads)
  unfolding access_level
  loads-zero = reads-memory

  pub stores-zero :
      (addr : ℕ) (b : Bool) (w : World Memory)
      → (access_level Double rand zero addr b w).1.level.writes
        ≡ (if b then incr w.level.writes else w.level.writes)
  unfolding access_level
  stores-zero = writes-memory

  -- Every level counts what it is sent: the memory, and a cache by its reads and writes.
  abbrev pub level_counts : (n : ℕ) → CountsTraffic (access_level Double rand n)
  level_counts zero = record {
    loads = λ m. m.reads;
    stores = λ m. m.writes;
    loads-next = loads-zero;
    stores-next = stores-zero;
  }
  level_counts (suc n) = record {
    loads = λ s. s.0.stats.reads;
    stores = λ s. s.0.stats.writes;
    loads-next = λ addr b w. (kinds-access_level n addr b w).0;
    stores-next = λ addr b w. (kinds-access_level n addr b w).1;
  }

  -- Each cache of the chain agrees with the level below it.
  abbrev pub LevelsAgree : (n : ℕ) → Levels Double n → Type 0
  LevelsAgree zero m = Unit
  LevelsAgree (suc n) s = TrafficAgrees (level_counts n) s.0 s.1 × LevelsAgree n s.1

  pub access_level-LevelsAgree :
      (n addr : ℕ) (b : Bool) (w : World (Levels Double n))
      → LevelsAgree n w.level
      → LevelsAgree n (access_level Double rand n addr b w).1.level
  unfolding access_level
  access_level-LevelsAgree zero addr b w h = tt
  access_level-LevelsAgree (suc n) addr b w h =
      let below : World (Levels Double n) = record { draws = w.draws; level = w.level.1 } in
      (
        access-TrafficAgrees (level_counts n) w.level.0 below rand addr b h.0,
        access-keeps rand (access_level Double rand n) (LevelsAgree n) (access_level-LevelsAgree n)
            addr b w.level.0 below h.1,
      )
