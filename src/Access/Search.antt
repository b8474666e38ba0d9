-- ===== src/Access/Search.antt =====
-- The search of one set, before and after a frame is written.
use native.Mathlib.Decide.{ℕ_discrete}
use cache_hierarchy_simulato.Prelude.{
  ℕ, zero, suc, ◌+◌, ◌<◌, ◌≡◌, ◌≢◌, refl, ap, sym, ◌∙◌, Bool, true, false, ◌&&◌, List, [], ◌∷◌,
  none, some, arith, length, inl, inr, Bool-cases, ◌==◌, get_or, set, Option-cases, get_or-set_ne,
  get_or-set_self, length-set,
}
use cache_hierarchy_simulato.Cache.{CacheLine, empty_line}
use cache_hierarchy_simulato.Access.{find_way}

-- The test of the loop: the frame is valid and holds the tag.
abbrev pub holds : ℕ → CacheLine → Bool
holds tag line = line.valid && line.tag == tag

-- The tags of the valid frames of a set differ: a search from the frame's own tag ends at it.
abbrev pub IsUnique : ℕ → List CacheLine → Type 0
IsUnique w lines =
    (j : ℕ)
    → j < length lines
    → (get_or lines j empty_line).valid ≡ true
    → find_way w (get_or lines j empty_line).tag lines ≡ some (w + j)

-- What the search finds holds the tag.
pub find_way-holds :
    (w tag : ℕ) (lines : List CacheLine) (way : ℕ)
    → find_way w tag lines ≡ some way
    → (j : ℕ) × (way ≡ w + j) × (j < length lines) × (holds tag (get_or lines j empty_line) ≡ true)
unfolding find_way
find_way-holds w tag [] way e = absurd (cc)
find_way-holds w tag (l ∷ ls) way e = elim (Bool-cases (holds tag l)) [
  | inl here ↦ (0, ground arith, omega arith, here)
  | inr there ↦
      let (j, at, inside, match) = find_way-holds (w + 1) tag ls way (ground arith) in
      (suc j, omega arith, omega arith, match)
]

-- If the search fails, no frame holds the tag.
pub find_way-none :
    (w tag : ℕ) (lines : List CacheLine) (j : ℕ)
    → find_way w tag lines ≡ none
    → j < length lines
    → holds tag (get_or lines j empty_line) ≡ false
unfolding find_way
find_way-none w tag [] j e h = absurd (omega arith)
find_way-none w tag (l ∷ ls) zero e h = ground arith
find_way-none w tag (l ∷ ls) (suc j) e h =
    find_way-none (w + 1) tag ls j (ground arith) (omega arith)

module _ (line : CacheLine) where
  -- A write of a frame for a tag that was not there makes the search of the tag end at the frame.
  pub find_way-set_fresh :
      (w : ℕ) (lines : List CacheLine) (i : ℕ)
      → i < length lines
      → find_way w line.tag lines ≡ none
      → line.valid ≡ true
      → find_way w line.tag (set lines i line) ≡ some (w + i)
  unfolding find_way
  find_way-set_fresh w [] i h e v = absurd (omega arith)
  find_way-set_fresh w (l ∷ ls) zero h e v = ground arith
  find_way-set_fresh w (l ∷ ls) (suc i) h e v =
      let rest = find_way-set_fresh (w + 1) ls i (omega arith) in ground arith

  set_lost-absurd :
      (w tag : ℕ) (lines : List CacheLine) (i j : ℕ)
      → i < length lines
      → find_way w tag lines ≡ some (w + i)
      → IsUnique w lines
      → holds tag line ≡ false
      → j < length lines
      → ¬ (holds tag (get_or (set lines i line) j empty_line) ≡ true)
  set_lost-absurd w tag lines i j h e u v inside match = elim (ℕ_discrete i j) [
    | yes same ↦ ground (arith, get_or-set_self lines i line empty_line h)
    | no other ↦
        let old = get_or-set_ne lines i j line empty_line other in
        let back = u j inside in
        ground (arith, get_or-set_ne lines i j line empty_line other, u j inside)
  ]

  -- It hides the tag that the frame held, if no other frame held it.
  pub find_way-set_lost :
      (w tag : ℕ) (lines : List CacheLine) (i : ℕ)
      → i < length lines
      → find_way w tag lines ≡ some (w + i)
      → IsUnique w lines
      → holds tag line ≡ false
      → find_way w tag (set lines i line) ≡ none
  unfolding find_way
  find_way-set_lost w tag lines i h e u v =
      elim (Option-cases (find_way w tag (set lines i line))) [
        | inl gone ↦ gone
        | inr (way, found) ↦
            let (j, at, inside, match) = find_way-holds w tag (set lines i line) way found in
            absurd (set_lost-absurd w tag lines i j h e u v (rw length-set at inside) match)
      ]

  -- It changes no other search.
  pub find_way-set_kept :
      (w tag : ℕ) (lines : List CacheLine) (i : ℕ)
      → find_way w tag lines ≢ some (w + i)
      → holds tag line ≡ false
      → find_way w tag (set lines i line) ≡ find_way w tag lines
  unfolding find_way
  find_way-set_kept w tag [] i e v = refl
  find_way-set_kept w tag (l ∷ ls) zero e v = ground arith
  find_way-set_kept w tag (l ∷ ls) (suc i) e v =
      let rest = find_way-set_kept (w + 1) tag ls i in
      elim (Bool-cases (holds tag l)) [
        | inl here ↦ rw here refl
        | inr there ↦
            let other : find_way (w + 1) tag ls ≢ some (w + 1 + i) = λ q. e (ground arith) in
            rw (rest other v) refl
      ]

  -- A frame that keeps its valid bit and its tag changes no search.
  pub find_way-set_same :
      (w tag : ℕ) (lines : List CacheLine) (i : ℕ)
      → line.valid ≡ (get_or lines i empty_line).valid
      → line.tag ≡ (get_or lines i empty_line).tag
      → find_way w tag (set lines i line) ≡ find_way w tag lines
  unfolding find_way
  find_way-set_same w tag [] i v t = refl
  find_way-set_same w tag (l ∷ ls) zero v t = ground arith
  find_way-set_same w tag (l ∷ ls) (suc i) v t = rw (find_way-set_same (w + 1) tag ls i v t) refl

  pub IsUnique-set_fresh :
      (w : ℕ) (lines : List CacheLine) (i : ℕ)
      → i < length lines
      → find_way w line.tag lines ≡ none
      → line.valid ≡ true
      → IsUnique w lines
      → IsUnique w (set lines i line)
  IsUnique-set_fresh w lines i h e v u j inside valid = elim (ℕ_discrete i j) [
    | yes same ↦
        let mine : get_or (set lines i line) j empty_line ≡ line =
          ap (λ (k : ℕ). get_or (set lines i line) k empty_line) (sym same)
          ∙ get_or-set_self lines i line empty_line h in
        rw (mine, ← same) (find_way-set_fresh w lines i h e v)
    | no other ↦
        let old = get_or-set_ne lines i j line empty_line other in
        let back = u j (rw length-set at inside) (rw old at valid) in
        let kept =
          find_way-set_kept w (get_or lines j empty_line).tag lines i (ground arith)
            (ground arith) in
        rw old (kept ∙ back)
  ]

  set_same-fields :
      (lines : List CacheLine) (i j : ℕ)
      → line.valid ≡ (get_or lines i empty_line).valid
      → line.tag ≡ (get_or lines i empty_line).tag
      → j < length lines
      → ((get_or (set lines i line) j empty_line).tag ≡ (get_or lines j empty_line).tag)
        × ((get_or (set lines i line) j empty_line).valid ≡ (get_or lines j empty_line).valid)
  set_same-fields [] i j v t h = absurd (omega arith)
  set_same-fields (l ∷ ls) zero zero v t h = (t, v)
  set_same-fields (l ∷ ls) zero (suc j) v t h = (refl, refl)
  set_same-fields (l ∷ ls) (suc i) zero v t h = (refl, refl)
  set_same-fields (l ∷ ls) (suc i) (suc j) v t h = set_same-fields ls i j v t (omega arith)

  pub IsUnique-set_same :
      (w : ℕ) (lines : List CacheLine) (i : ℕ)
      → line.valid ≡ (get_or lines i empty_line).valid
      → line.tag ≡ (get_or lines i empty_line).tag
      → IsUnique w lines
      → IsUnique w (set lines i line)
  IsUnique-set_same w lines i v t u j inside valid =
      let (tags, valids) = set_same-fields lines i j v t (rw length-set at inside) in
      rw (tags, find_way-set_same w (get_or lines j empty_line).tag lines i v t)
        (u j (rw length-set at inside) (rw valids at valid))
