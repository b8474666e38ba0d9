-- ===== src/Access/Loss.antt =====
-- No access of a cache loses a modified block: the log of the calls of the level below.
use mathlib.Core.Path.{subst}
use cache_hierarchy_simulato.Prelude.{
  ℕ, ◌<◌, ◌≡◌, ◌⊎◌, refl, ap, Bool, false, List, [], ◌∷◌, none, some, arith, length, inl, inr,
  Bool-cases, Option-cases, get_or,
}
use cache_hierarchy_simulato.Memory.{World, MemoryLevel}
use cache_hierarchy_simulato.Cache.{empty_line, Cache, Decoded, victim_addr, lines_of}
use cache_hierarchy_simulato.Cache.Shape.{IsShaped}
use cache_hierarchy_simulato.Access.{access, count_access, pick_way}
use cache_hierarchy_simulato.Access.Branches.{
  Request, load, store, send, goes_around, evict_requests, access-hit, access-around, access-fill,
}
use cache_hierarchy_simulato.Access.Dirty.{after_miss-HasCleanFrames, HasCleanFrames}
use cache_hierarchy_simulato.Access.Sets.{lines_of-after_miss, missed-lt, missed-IsShaped}
use cache_hierarchy_simulato.Access.Ways.{find_way-lt}
use cache_hierarchy_simulato.Access.Shape.{
  pick_way-lt, length-lines_of, set_index-lt, after_miss-SameFrames,
}
use cache_hierarchy_simulato.Access.Transition.{start, parts, looked_up, missed_cache}
use cache_hierarchy_simulato.Access.Log.{recording, unlogged, IsSent, IsSent-append, send-logs}
use cache_hierarchy_simulato.Access.Modified.{
  IsModified, IsModified-same, after_hit-IsModified, after_fill-IsModified,
}

module _ {Double S : Type 0} (rand : ℕ → ℕ) (next : MemoryLevel S) (addr : ℕ) (b : Bool)
    {c : Cache Double} (w : World (S × List Request)) (shaped : IsShaped c)
    (clean : HasCleanFrames c) {i j tag : ℕ} (m : IsModified c i j tag) where
  abbrev d : Decoded
  d = parts rand addr b c

  Kept : Bool × Cache Double × World (S × List Request) → Type 0
  Kept r = IsModified r.1 i j tag ⊎ IsSent (store (victim_addr c tag i)) r.2.level.1

  started : IsModified (start rand addr b c) i j tag
  unfolding count_access
  started = IsModified-same refl m

  start-lt : d.set_index < length (start rand addr b c).sets
  unfolding count_access
  start-lt = rw shaped.rows (set_index-lt rand addr b shaped)

  hit-Kept :
      (way : ℕ)
      → looked_up rand addr b c ≡ some way
      → Kept (access rand (recording next) addr b c w)
  unfolding Kept
  hit-Kept way found =
      let inside = find_way-lt 0 d.tag way (lines_of (start rand addr b c) d.set_index) found in
      rw (access-hit rand (recording next) addr b c w way found)
        (inl (after_hit-IsModified b d way (start rand addr b c) start-lt (omega arith) started))

  missed : IsModified (missed_cache rand addr b c) i j tag
  missed =
      IsModified-same
        (ap (λ l. get_or l j empty_line) (lines_of-after_miss d i (start rand addr b c))) started

  same_address : victim_addr (missed_cache rand addr b c) tag i ≡ victim_addr c tag i
  unfolding victim_addr count_access
  same_address =
      let same = after_miss-SameFrames d (start rand addr b c) in
      rw (same.index_bits, same.offset_bits) refl

  clean_miss : HasCleanFrames (missed_cache rand addr b c)
  unfolding count_access
  clean_miss = after_miss-HasCleanFrames d (start rand addr b c) clean

  fill-Kept :
      looked_up rand addr b c ≡ none
      → goes_around b (start rand addr b c) ≡ false
      → Kept (access rand (recording next) addr b c w)
  unfolding Kept
  fill-Kept out here =
      let c₁ = missed_cache rand addr b c in
      let shaped₁ = missed-IsShaped rand addr b shaped in
      let lt = missed-lt rand addr b shaped in
      let lt₁ : d.set_index < length c₁.sets = rw shaped₁.rows lt in
      let fetched = send (recording next) (load addr ∷ []) w in
      let way = (pick_way rand c₁ d.set_index fetched.draws).0 in
      let inside : way < length (lines_of c₁ d.set_index) =
        rw (length-lines_of shaped₁ d.set_index lt)
          (pick_way-lt shaped₁ rand d.set_index fetched.draws lt) in
      rw (access-fill rand (recording next) addr b c w out here)
        (elim (after_fill-IsModified b d way c₁ lt₁ inside clean_miss missed) [
          | inl kept ↦ inl kept
          | inr sent ↦
              let q = store (victim_addr c tag i) in
              let sent' =
                subst (λ a. IsSent (store a) (evict_requests d way c₁)) same_address sent in
              inr (send-logs next q _ _ (IsSent-append q (evict_requests d way c₁) _ sent'))
        ])

  access-Kept : Kept (access rand (recording next) addr b c w)
  unfolding Kept
  access-Kept = elim (Option-cases (looked_up rand addr b c)) [
    | inr (way, found) ↦ hit-Kept way found
    | inl out ↦ elim (Bool-cases (goes_around b (start rand addr b c))) [
      | inl past ↦ rw (access-around rand (recording next) addr b c w out past) (inl missed)
      | inr here ↦ fill-Kept out here
    ]
  ]

-- Every modified block of a cache of a valid shape, whose dirty frames are valid and only there
-- under write-back, is, after an access, still modified in its frame, or the access has sent a
-- store to the address that victim_addr gives it to the level below.
pub access-no_loss :
    {Double S : Type 0} (rand : ℕ → ℕ) (next : MemoryLevel S) (addr : ℕ) (b : Bool)
    {c : Cache Double} (w : World S)
    → IsShaped c
    → HasCleanFrames c
    → {i j tag : ℕ} → IsModified c i j tag
    → let r = access rand (recording next) addr b c (unlogged w) in
      IsModified r.1 i j tag ⊎ IsSent (store (victim_addr c tag i)) r.2.level.1
unfolding Kept
access-no_loss rand next addr b w shaped clean m =
    access-Kept rand next addr b (unlogged w) shaped clean m
