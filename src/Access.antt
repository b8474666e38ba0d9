-- ===== src/Access.antt =====
-- src/cache.cpp: Cache::access with classify and pickWay, over any next level. `next` is the
-- virtual call `next_->access`, and `rand` the results of std::rand() in the order of its calls.
pub mod Branches
pub mod Transition
pub mod Ways
pub mod Shape
pub mod Counters
pub mod Search
pub mod Sets
pub mod Resident
pub mod Residency
pub mod Dirty
pub mod Sound
pub mod Traffic
pub mod Log
pub mod Modified
pub mod Loss
pub mod Stores
pub mod Locality
pub mod Calls
pub mod Split
use mathlib.Core.Option
use cache_hierarchy_simulato.Prelude.{
  ℕ, ◌+◌, Bool, true, false, not, ◌&&◌, List, [], ◌∷◌, Option, none, some, ◌==◌, if◌then◌else◌,
  get_or, contains,
}
use cache_hierarchy_simulato.Word.{incr}
use cache_hierarchy_simulato.Config.{is_write_back, is_no_write_allocate}
use cache_hierarchy_simulato.Replacement.{on_access, on_insert, get_victim}
use cache_hierarchy_simulato.RefFaCache.{touch}
use cache_hierarchy_simulato.Memory.{World, MemoryLevel}
use cache_hierarchy_simulato.Cache.{
  CacheLine, empty_line, Cache, Decoded, decode, victim_addr, lines_of, set_line,
}

-- The search of the set: the first way from `w` on that is valid and holds the tag.
unfoldable pub find_way : ℕ → ℕ → List CacheLine → Option ℕ
find_way w tag [] = none
find_way w tag (line ∷ lines) =
    if line.valid && line.tag == tag then some w else find_way (w + 1) tag lines

-- The first loop of pickWay: the first empty frame from `w` on.
unfoldable pub find_empty : ℕ → List CacheLine → Option ℕ
find_empty w [] = none
find_empty w (line ∷ lines) = if not line.valid then some w else find_empty (w + 1) lines

module _ {Double : Type 0} where
  -- `stats_.accesses++; if (isWrite) stats_.writes++; else stats_.reads++;`
  unfoldable pub count_access : Bool → Cache Double → Cache Double
  count_access is_write c =
      let s = c.stats in
      record c {
        stats =
            if is_write
            then record s { accesses = incr s.accesses; writes = incr s.writes }
            else record s { accesses = incr s.accesses; reads = incr s.reads };
      }

  -- `if (refFA_) refFA_->touch(blockAddr);`
  unfoldable pub touch_ref : ℕ → Cache Double → Cache Double
  touch_ref block c = record c { ref_fa = Option.map (λ r. (touch block r).1) c.ref_fa }

  -- Cache::classify
  unfoldable pub classify : ℕ → Cache Double → Cache Double
  classify block c = elim c.ref_fa [
    | none ↦ c
    | some r ↦
        let s = c.stats in
        let (hit, r') = touch block r in
        if contains block c.seen
        then (if hit
            then record c { ref_fa = some r'; stats = record s { conflict = incr s.conflict } }
            else record c { ref_fa = some r'; stats = record s { capacity = incr s.capacity } })
        else record c {
          ref_fa = some r';
          seen = block ∷ c.seen;
          stats = record s { compulsory = incr s.compulsory };
        }
  ]

  -- Cache::pickWay, with the calls of std::rand() afterwards
  unfoldable pub pick_way : (ℕ → ℕ) → Cache Double → ℕ → ℕ → ℕ × ℕ
  pick_way rand c i draws = elim (find_empty 0 (lines_of c i)) [
    | some w ↦ (w, draws)
    | none ↦ get_victim rand c.repl i draws
  ]

  -- The state after a hit, before the store is handled.
  unfoldable pub record_hit : Decoded → ℕ → Cache Double → Cache Double
  record_hit d way c =
      let s = c.stats in
      touch_ref d.block_addr (record c {
        stats = record s { hits = incr s.hits };
        repl = on_access c.repl d.set_index way;
      })

  -- The install of the fetched block in the frame, and `onInsert`.
  unfoldable pub install : Bool → Decoded → ℕ → Cache Double → Cache Double
  install is_write d way c =
      let line : CacheLine = record {
        valid = true;
        dirty = is_write && is_write_back c.cfg.write_policy;
        tag = d.tag;
      } in
      let filled = set_line c d.set_index way line in
      record filled { repl = on_insert c.repl d.set_index way }

  count_writeback : Cache Double → Cache Double
  count_writeback c =
      let s = c.stats in record c { stats = record s { writebacks = incr s.writebacks } }

  module _ {S : Type 0} (rand : ℕ → ℕ) (next : MemoryLevel S) where
    -- The body of the search loop at a matching frame.
    unfoldable pub access_hit :
        ℕ → Bool → Decoded → ℕ → Cache Double → World S → Bool × Cache Double × World S
    access_hit addr is_write d way c w =
        let hit = record_hit d way c in
        if is_write
        then (if is_write_back c.cfg.write_policy
            then (
              true,
              set_line hit d.set_index way
                  (record (get_or (lines_of hit d.set_index) way empty_line) { dirty = true }),
              w,
            )
            else (true, hit, (next addr true w).1))
        else (true, hit, w)

    -- The frame is emptied of a modified line, if it holds one and the policy is write-back.
    unfoldable pub write_back_victim : ℕ → ℕ → Cache Double → World S → Cache Double × World S
    unfolding count_writeback
    write_back_victim i way c w =
        let frame = get_or (lines_of c i) way empty_line in
        if frame.valid && frame.dirty && is_write_back c.cfg.write_policy
        then (count_writeback c, (next (victim_addr c frame.tag i) true w).1)
        else (c, w)

    -- The allocate path of a miss.
    unfoldable pub allocate :
        ℕ → Bool → Decoded → Cache Double → World S → Bool × Cache Double × World S
    allocate addr is_write d c w =
        let fetched = (next addr false w).1 in
        let (way, draws) = pick_way rand c d.set_index fetched.draws in
        let (c', w') = write_back_victim d.set_index way c (record fetched { draws = draws }) in
        let through = is_write && not (is_write_back c.cfg.write_policy) in
        (false, install is_write d way c', if through then (next addr true w').1 else w')

    unfoldable pub access_miss :
        ℕ → Bool → Decoded → Cache Double → World S → Bool × Cache Double × World S
    access_miss addr is_write d c w =
        let s = c.stats in
        let c' = classify d.block_addr (record c { stats = record s { misses = incr s.misses } }) in
        if is_write && is_no_write_allocate c.cfg.alloc_policy
        then (false, c', (next addr true w).1)
        else allocate addr is_write d c' w

    -- Cache::access
    unfoldable pub access : ℕ → Bool → Cache Double → World S → Bool × Cache Double × World S
    access addr is_write c w =
        let counted = count_access is_write c in
        let d = decode counted addr in
        elim (find_way 0 d.tag (lines_of counted d.set_index)) [
          | some way ↦ access_hit addr is_write d way counted w
          | none ↦ access_miss addr is_write d counted w
        ]
