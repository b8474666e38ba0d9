-- ===== src/Access/Stores.antt =====
-- What becomes of a store of the CPU: Cache::access of src/cache.cpp with the write policies.
use cache_hierarchy_simulato.Prelude.{
  ℕ, ◌<◌, ◌≡◌, ◌⊎◌, refl, ap, ◌∙◌, Bool, true, false, List, [], ◌∷◌, ◌++◌, none, some, arith,
  length, inl, inr, Bool-cases, Option-cases, get_or, get_or-set_self,
}
use cache_hierarchy_simulato.Config.{is_write_back}
use cache_hierarchy_simulato.Memory.{World, MemoryLevel}
use cache_hierarchy_simulato.Cache.{
  CacheLine, empty_line, Cache, Decoded, decode, lines_of, set_line,
}
use cache_hierarchy_simulato.Cache.Shape.{IsShaped}
use cache_hierarchy_simulato.Access.Search.{find_way-holds}
use cache_hierarchy_simulato.Access.{find_way, access, count_access, pick_way}
use cache_hierarchy_simulato.Access.Branches.{
  through_requests, Request, load, store, send, goes_around, evict_requests, frame_of, after_hit,
  after_fill, access-hit, access-around, access-fill,
}
use cache_hierarchy_simulato.Access.Sets.{
  lines_of-set_line_self, lines_of-after_hit, lines_of-after_fill, filled_line, missed-lt,
  missed-IsShaped,
}
use cache_hierarchy_simulato.Access.Ways.{find_way-lt}
use cache_hierarchy_simulato.Access.Shape.{pick_way-lt, length-lines_of, set_index-lt}
use cache_hierarchy_simulato.Access.Transition.{start, parts, looked_up, missed_cache}
use cache_hierarchy_simulato.Access.Log.{recording, unlogged, IsSent, IsSent-last, send-logs}
use cache_hierarchy_simulato.Access.Modified.{IsModified}

-- What the search finds is a valid frame with the tag.
found_lem :
    (tag way : ℕ) (lines : List CacheLine)
    → find_way 0 tag lines ≡ some way
    → ((get_or lines way empty_line).valid ≡ true) × ((get_or lines way empty_line).tag ≡ tag)
found_lem tag way lines found =
    let (j, at, inside, match) = find_way-holds 0 tag lines way found in
    let same : way ≡ j = omega arith in rw same (ground arith)

module _ {Double : Type 0} where
  written_frame :
      (c : Cache Double) (i way : ℕ) (line : CacheLine)
      → i < length c.sets
      → way < length (lines_of c i)
      → frame_of (set_line c i way line) i way ≡ line
  written_frame c i way line lt inside =
      ap (λ l. get_or l way empty_line) (lines_of-set_line_self c i way line lt)
      ∙ get_or-set_self (lines_of c i) way line empty_line inside

  -- A store that hits under write-back modifies the frame,
  after_hit-modifies :
      (d : Decoded) (way : ℕ) (c : Cache Double)
      → is_write_back c.cfg.write_policy ≡ true
      → d.set_index < length c.sets
      → find_way 0 d.tag (lines_of c d.set_index) ≡ some way
      → IsModified (after_hit true d way c) d.set_index way d.tag
  after_hit-modifies d way c back lt found =
      let line = record (frame_of c d.set_index way) { dirty = true } in
      let (valid, tag) = found_lem d.tag way (lines_of c d.set_index) found in
      let lines : lines_of (after_hit true d way c) d.set_index
          ≡ lines_of (set_line c d.set_index way line) d.set_index =
        lines_of-after_hit true d way d.set_index c ∙ rw back refl in
      let now =
        ap (λ l. get_or l way empty_line) lines
        ∙ written_frame c d.set_index way line lt
            (omega (arith, find_way-lt 0 d.tag way (lines_of c d.set_index) found)) in
      record {
        valid = ap (λ (l : CacheLine). l.valid) now ∙ valid;
        dirty = ap (λ (l : CacheLine). l.dirty) now;
        tagged = ap (λ (l : CacheLine). l.tag) now ∙ tag;
      }

  -- and so does one that fills it.
  after_fill-modifies :
      (d : Decoded) (way : ℕ) (c : Cache Double)
      → is_write_back c.cfg.write_policy ≡ true
      → d.set_index < length c.sets
      → way < length (lines_of c d.set_index)
      → IsModified (after_fill true d way c) d.set_index way d.tag
  after_fill-modifies d way c back lt inside =
      let now =
        ap (λ l. get_or l way empty_line) (lines_of-after_fill true d way d.set_index c)
        ∙ written_frame c d.set_index way (filled_line true d c) lt inside in
      record {
        valid = ap (λ (l : CacheLine). l.valid) now;
        dirty = ap (λ (l : CacheLine). l.dirty) now ∙ back;
        tagged = ap (λ (l : CacheLine). l.tag) now;
      }

module _ {Double S : Type 0} (next : MemoryLevel S) (addr : ℕ) where
  -- Under write-through the store is sent after any other calls.
  send-sends_store :
      (m : Cache Double) (rs : List Request) (v : World (S × List Request))
      → is_write_back m.cfg.write_policy ≡ false
      → IsSent (store addr) (send (recording next) (rs ++ through_requests addr true m) v).level.1
  send-sends_store m rs v through =
      rw through
        (send-logs next (store addr) (rs ++ store addr ∷ []) v (IsSent-last (store addr) rs))

module _ {Double S : Type 0} (rand : ℕ → ℕ) (next : MemoryLevel S) (addr : ℕ) {c : Cache Double}
    (w : World (S × List Request)) (shaped : IsShaped c) where
  abbrev d : Decoded
  d = parts rand addr true c

  -- The block of the store is modified in a frame of its set, or the store was sent below.
  Stored : Bool × Cache Double × World (S × List Request) → Type 0
  Stored r = ((way : ℕ) × IsModified r.1 d.set_index way d.tag) ⊎ IsSent (store addr) r.2.level.1

  hit-Stored :
      (way : ℕ)
      → looked_up rand addr true c ≡ some way
      → Stored (access rand (recording next) addr true c w)
  unfolding Stored count_access
  hit-Stored way found =
      let c₀ = start rand addr true c in
      let lt : d.set_index < length c₀.sets = rw shaped.rows (set_index-lt rand addr true shaped) in
      rw (access-hit rand (recording next) addr true c w way found)
        (elim (Bool-cases (is_write_back c₀.cfg.write_policy)) [
          | inl back ↦ inl (way, after_hit-modifies d way c₀ back lt found)
          | inr through ↦ inr (send-sends_store next addr c₀ [] w through)
        ])

  fill-Stored :
      looked_up rand addr true c ≡ none
      → goes_around true (start rand addr true c) ≡ false
      → Stored (access rand (recording next) addr true c w)
  unfolding Stored
  fill-Stored out here =
      let m = missed_cache rand addr true c in
      let shaped' = missed-IsShaped rand addr true shaped in
      let lt = missed-lt rand addr true shaped in
      let rows : d.set_index < length m.sets = rw shaped'.rows lt in
      let fetched = send (recording next) (load addr ∷ []) w in
      let pick = pick_way rand m d.set_index fetched.draws in
      let inside : pick.0 < length (lines_of m d.set_index) =
        rw (length-lines_of shaped' d.set_index lt)
          (pick_way-lt shaped' rand d.set_index fetched.draws lt) in
      rw (access-fill rand (recording next) addr true c w out here)
        (elim (Bool-cases (is_write_back m.cfg.write_policy)) [
          | inl back ↦ inl (pick.0, after_fill-modifies d pick.0 m back rows inside)
          | inr through ↦ inr (
              send-sends_store next addr m (evict_requests d pick.0 m)
                (record fetched { draws = pick.1 }) through)
        ])

  access-Stored : Stored (access rand (recording next) addr true c w)
  unfolding Stored
  access-Stored = elim (Option-cases (looked_up rand addr true c)) [
    | inr (way, found) ↦ hit-Stored way found
    | inl out ↦ elim (Bool-cases (goes_around true (start rand addr true c))) [
      | inl past ↦
          rw (access-around rand (recording next) addr true c w out past)
            (inr (send-logs next (store addr) (store addr ∷ []) w (inl refl)))
      | inr here ↦ fill-Stored out here
    ]
  ]

-- After a store of the CPU to a cache of a valid shape, a frame of the set of its address holds the
-- block and is modified, or the access has sent a store to the address to the level below.
pub access-store :
    {Double S : Type 0} (rand : ℕ → ℕ) (next : MemoryLevel S) (addr : ℕ) (c : Cache Double)
    (w : World S)
    → IsShaped c
    → let r = access rand (recording next) addr true c (unlogged w) in
      let d = decode c addr in
      ((way : ℕ) × IsModified r.1 d.set_index way d.tag) ⊎ IsSent (store addr) r.2.level.1
unfolding Stored count_access decode
access-store rand next addr c w shaped = access-Stored rand next addr (unlogged w) shaped
