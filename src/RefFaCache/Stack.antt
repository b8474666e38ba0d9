-- ===== src/RefFaCache/Stack.antt =====
-- RefFACache::touch against its specification: a stack of blocks, the newest first.
use mathlib.Core.Option.{none-ne-some}
use native.Mathlib.Decide.{ℕ_discrete}
use cache_hierarchy_simulato.Prelude.{
  ℕ, suc, ◌≡◌, refl, ap, sym, ◌∙◌, Bool, true, false, List, [], ◌∷◌, none, ◌==◌, if◌then◌else◌, leb,
  arith, length, is_some, contains,
}
use cache_hierarchy_simulato.RefFaCache.{Stamps, RefFaCache, find, erase}
use cache_hierarchy_simulato.RefFaCache.Maps.{IsUnique, IsRanked}
use cache_hierarchy_simulato.RefFaCache.Victim.{IsEntry, last_entry, last_entry-IsEntry}

-- The specification: a touched block moves to the top, and a new one pushes the bottom block out
-- of a full stack.
unfoldable pub remove : ℕ → List ℕ → List ℕ
remove b [] = []
remove b (x ∷ xs) = if b == x then xs else x ∷ remove b xs

unfoldable pub drop_last : List ℕ → List ℕ
drop_last [] = []
drop_last (x ∷ []) = []
drop_last (x ∷ y ∷ xs) = x ∷ drop_last (y ∷ xs)

unfoldable pub touch_stack : ℕ → ℕ → List ℕ → Bool × List ℕ
touch_stack capacity b l =
    if contains b l
    then (true, b ∷ remove b l)
    else (false, b ∷ (if leb capacity (length l) then drop_last l else l))

abbrev pub blocks : Stamps → List ℕ
blocks [] = []
blocks (e ∷ m) = e.0 ∷ blocks m

pub contains-blocks : (b : ℕ) (m : Stamps) → contains b (blocks m) ≡ is_some (find b m)
unfolding find
contains-blocks b [] = refl
contains-blocks b (e ∷ m) = ground (arith, contains-blocks b m)

pub remove-blocks : (b : ℕ) (m : Stamps) → remove b (blocks m) ≡ blocks (erase b m)
unfolding remove erase
remove-blocks b [] = refl
remove-blocks b (e ∷ m) = ground (arith, remove-blocks b m)

pub length-blocks : (m : Stamps) → length (blocks m) ≡ length m
length-blocks [] = refl
length-blocks (e ∷ m) = ap suc (length-blocks m)

-- A block with an entry is not one without.
key_ne : (x e : ℕ × ℕ) (m : Stamps) → IsEntry m x → find e.0 m ≡ none → (x.0 == e.0) ≡ false
key_ne x e m h fresh = elim (ℕ_discrete x.0 e.0) [
  | yes same ↦ absurd (none-ne-some x.1 (sym fresh ∙ ap (λ k. find k m) (sym same) ∙ h))
  | no other ↦ ground arith
]

pub drop_last-blocks :
    (e : ℕ × ℕ) (m : Stamps)
    → IsUnique (e ∷ m)
    → drop_last (blocks (e ∷ m)) ≡ blocks (erase (last_entry e m).0 (e ∷ m))
unfolding drop_last erase last_entry
drop_last-blocks e [] u = ground arith
drop_last-blocks e (e' ∷ m) u =
    let l = last_entry e' m in
    let other : (l.0 == e.0) ≡ false = key_ne l e (e' ∷ m) (last_entry-IsEntry e' m u.1) u.0 in
    rw (erase, other) (ap (λ t. e.0 ∷ t) (drop_last-blocks e' m u.1))

-- The map holds the entries of a ranked list in any order, and their blocks are the stack.
pub record Models (r : RefFaCache) (l : List ℕ) : Type 0 where
  pub ranks : Stamps
  pub stack : l ≡ blocks ranks
  pub unique : IsUnique r.last_used
  pub unique_ranks : IsUnique ranks
  pub ranked : IsRanked (suc r.clock) ranks
  pub same : (x : ℕ) → find x r.last_used ≡ find x ranks
  pub size : length r.last_used ≡ length ranks
