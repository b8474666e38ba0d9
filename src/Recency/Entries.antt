-- ===== src/Recency/Entries.antt =====
-- The entries of a set: the search, and what a use of a frame changes.
use mathlib.Core.Option.{none-ne-some}
use native.Mathlib.Decide.{ℕ_discrete}
use cache_hierarchy_simulato.Prelude.{
  ℕ, zero, suc, ◌+◌, ◌<◌, ◌≡◌, refl, ap, sym, ◌∙◌, true, false, ◌&&◌, List, [], ◌∷◌, Option, none,
  some, ◌==◌, if◌then◌else◌, arith, length, inl, inr, Bool-cases, is_some, get_or, set,
}
use cache_hierarchy_simulato.Cache.{CacheLine, empty_line}
use cache_hierarchy_simulato.RefFaCache.{Stamps, find, refresh}
use cache_hierarchy_simulato.RefFaCache.Maps.{IsUnique}
use cache_hierarchy_simulato.Access.{find_way}
use cache_hierarchy_simulato.Access.Search.{holds, find_way-holds}
use cache_hierarchy_simulato.Recency.{entries}

-- A tag has an entry exactly if the search of the set finds it.
pub find-entries :
    (w tag : ℕ) (ls : List CacheLine) (ts : List ℕ)
    → length ls ≡ length ts
    → is_some (find tag (entries ls ts)) ≡ is_some (find_way w tag ls)
unfolding find find_way entries
find-entries w tag [] ts h = refl
find-entries w tag (l ∷ ls) [] h = absurd (omega arith)
find-entries w tag (l ∷ ls) (t ∷ ts) h =
    ground (arith, find-entries (w + 1) tag ls ts (omega arith))

-- Where the search ends, the frame before does not hold the tag, and the first one does.
find_way-head :
    (w tag : ℕ) (l : CacheLine) (ls : List CacheLine)
    → find_way w tag (l ∷ ls) ≡ some w
    → holds tag l ≡ true
unfolding find_way
find_way-head w tag l ls e = elim (Bool-cases (holds tag l)) [
  | inl here ↦ here
  | inr there ↦
      let (j, at, _, _) = find_way-holds (w + 1) tag ls w (ground arith) in absurd (omega arith)
]

find_way-tail :
    (w tag i : ℕ) (l : CacheLine) (ls : List CacheLine)
    → find_way w tag (l ∷ ls) ≡ some (w + suc i)
    → (holds tag l ≡ false) × (find_way (w + 1) tag ls ≡ some (w + 1 + i))
unfolding find_way
find_way-tail w tag i l ls e = (ground arith, ground arith)

-- A use of the frame that holds a tag refreshes its entry; the dirty bit does not show.
pub entries-hit :
    (w tag i now : ℕ) (line : CacheLine) (ls : List CacheLine) (ts : List ℕ)
    → length ls ≡ length ts
    → find_way w tag ls ≡ some (w + i)
    → line.valid ≡ (get_or ls i empty_line).valid
    → line.tag ≡ (get_or ls i empty_line).tag
    → entries (set ls i line) (set ts i now) ≡ refresh tag now (entries ls ts)
unfolding find_way entries refresh
entries-hit w tag i now line [] ts h e v t = cc
entries-hit w tag i now line (l ∷ ls) [] h e v t = absurd (omega arith)
entries-hit w tag zero now line (l ∷ ls) (s ∷ ts) h e v t =
    let here = find_way-head w tag l ls (e ∙ ap some (omega arith)) in ground arith
entries-hit w tag (suc i) now line (l ∷ ls) (s ∷ ts) h e v t =
    let (other, rest) = find_way-tail w tag i l ls e in
    let ih = entries-hit (w + 1) tag i now line ls ts (omega arith) rest v t in
    elim (Bool-cases l.valid) [
      | inl valid ↦ rw (valid, ih) (ground arith)
      | inr empty ↦ rw (empty, ih) refl
    ]

-- The entry that a frame adds, and the one that it held.
abbrev entry_of : CacheLine → ℕ → ℕ → Option ℕ
entry_of l t x = if l.valid && x == l.tag then some t else none

pub entries-cons :
    (x : ℕ) (l : CacheLine) (ls : List CacheLine) (t : ℕ) (ts : List ℕ)
    → find x (entries (l ∷ ls) (t ∷ ts))
      ≡ (if l.valid && x == l.tag then some t else find x (entries ls ts))
unfolding entries find
entries-cons x l ls t ts = ground arith

-- A tag with an entry is not a tag without.
find-ne : (x y t : ℕ) (m : Stamps) → find x m ≡ some t → find y m ≡ none → (x == y) ≡ false
find-ne x y t m h fresh = elim (ℕ_discrete x y) [
  | yes same ↦ absurd (none-ne-some t (sym fresh ∙ ap (λ k. find k m) (sym same) ∙ h))
  | no other ↦ ground arith
]

-- What the uniqueness of the entries says of the first frame and of the others.
pub IsUnique-tail :
    (l : CacheLine) (ls : List CacheLine) (t : ℕ) (ts : List ℕ)
    → IsUnique (entries (l ∷ ls) (t ∷ ts))
    → (l.valid ≡ true → find l.tag (entries ls ts) ≡ none) × IsUnique (entries ls ts)
unfolding entries
IsUnique-tail l ls t ts u = elim (Bool-cases l.valid) [
  | inl valid ↦ let u' = rw valid at u in (λ v. u'.0, u'.1)
  | inr empty ↦ let u' = rw empty at u in (λ v. absurd (cc), u')
]

pub fresh-tail :
    (x : ℕ) (l : CacheLine) (ls : List CacheLine) (t : ℕ) (ts : List ℕ)
    → find x (entries (l ∷ ls) (t ∷ ts)) ≡ none
    → ((l.valid && x == l.tag) ≡ false) × (find x (entries ls ts) ≡ none)
fresh-tail x l ls t ts h =
    let h' = sym (entries-cons x l ls t ts) ∙ h in (ground arith, ground arith)

-- The stamp of a valid frame is the stamp of its tag.
pub find-entries_at :
    (i : ℕ) (ls : List CacheLine) (ts : List ℕ)
    → length ls ≡ length ts
    → i < length ls
    → IsUnique (entries ls ts)
    → (get_or ls i empty_line).valid ≡ true
    → find (get_or ls i empty_line).tag (entries ls ts) ≡ some (get_or ts i 0)
unfolding entries
find-entries_at i [] ts h lt u v = absurd (omega arith)
find-entries_at i (l ∷ ls) [] h lt u v = absurd (omega arith)
find-entries_at zero (l ∷ ls) (t ∷ ts) h lt u v = entries-cons l.tag l ls t ts ∙ ground arith
find-entries_at (suc i) (l ∷ ls) (t ∷ ts) h lt u v =
    let (out, u') = IsUnique-tail l ls t ts u in
    let tag = (get_or ls i empty_line).tag in
    let rest = find-entries_at i ls ts (omega arith) (omega arith) u' v in
    entries-cons tag l ls t ts ∙ elim (Bool-cases l.valid) [
      | inl valid ↦
          let other = find-ne tag l.tag (get_or ts i 0) (entries ls ts) rest (out valid) in
          rw (valid, other) rest
      | inr empty ↦ rw empty rest
    ]

-- No other valid frame holds the tag of the first one.
pub other-old :
    (x i : ℕ) (l : CacheLine) (ls : List CacheLine) (t : ℕ) (ts : List ℕ)
    → length ls ≡ length ts
    → i < length ls
    → IsUnique (entries (l ∷ ls) (t ∷ ts))
    → (l.valid && x == l.tag) ≡ true
    → ((get_or ls i empty_line).valid && x == (get_or ls i empty_line).tag) ≡ false
other-old x i l ls t ts h lt u here = elim (Bool-cases (get_or ls i empty_line).valid) [
  | inl valid ↦
      let (out, u') = IsUnique-tail l ls t ts u in
      let old = get_or ls i empty_line in
      let entry = find-entries_at i ls ts h lt u' valid in
      let other =
        find-ne old.tag l.tag (get_or ts i 0) (entries ls ts) entry (out (ground arith)) in
      ground arith
  | inr empty ↦ rw empty refl
]
