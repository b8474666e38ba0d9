-- ===== src/Access/Transition.antt =====
-- The states that one access of a cache can lead to, as a relation. Which way a fill takes depends
-- on the number of calls of std::rand() so far; nothing else of the world below matters.
use cache_hierarchy_simulato.Prelude.{
  ℕ, Bool, true, false, Option, none, some, ◌≡◌, inl, inr, [], ◌∷◌, Bool-cases, Option-cases,
}
use cache_hierarchy_simulato.Memory.{World, MemoryLevel}
use cache_hierarchy_simulato.Cache.{Cache, Decoded, decode, lines_of}
use cache_hierarchy_simulato.Access.{find_way, count_access, pick_way, access}
use cache_hierarchy_simulato.Access.Branches.{
  load, send, goes_around, after_hit, after_miss, after_fill, access-hit, access-around,
  access-fill,
}

module _ {Double : Type 0} (rand : ℕ → ℕ) (addr : ℕ) (is_write : Bool) (c : Cache Double) where
  abbrev pub start : Cache Double
  start = count_access is_write c

  abbrev pub parts : Decoded
  parts = decode start addr

  abbrev pub looked_up : Option ℕ
  looked_up = find_way 0 parts.tag (lines_of start parts.set_index)

  -- The cache in which a miss goes on.
  abbrev pub missed_cache : Cache Double
  missed_cache = after_miss parts start

  abbrev pub chosen : ℕ → ℕ
  chosen draws = (pick_way rand missed_cache parts.set_index draws).0

  -- The result of the access and the cache after it.
  pub data Transition : Bool → Cache Double → Type 0 where
    hit : (way : ℕ) → looked_up ≡ some way → Transition true (after_hit is_write parts way start)
    around :
        looked_up ≡ none
        → goes_around is_write start ≡ true
        → Transition false (after_miss parts start)
    fill :
        (draws : ℕ)
        → looked_up ≡ none
        → goes_around is_write start ≡ false
        → Transition false (after_fill is_write parts (chosen draws) missed_cache)

  module _ {S : Type 0} (next : MemoryLevel S) (w : World S) where
    pub access-Transition : let r = access rand next addr is_write c w in Transition r.0 r.1
    access-Transition = elim (Option-cases looked_up) [
      | inr (way, found) ↦ rw (access-hit rand next addr is_write c w way found) (hit way found)
      | inl missed ↦ elim (Bool-cases (goes_around is_write start)) [
        | inl out ↦ rw (access-around rand next addr is_write c w missed out) (around missed out)
        | inr here ↦
            rw (access-fill rand next addr is_write c w missed here)
              (fill (send next (load addr ∷ []) w).draws missed here)
      ]
    ]
