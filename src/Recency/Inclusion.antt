-- ===== src/Recency/Inclusion.antt =====
-- The stack of a smaller LRU set is the top of the stack of a larger one.
use cache_hierarchy_simulato.Prelude.{
  ℕ, zero, suc, ◌≤◌, ◌≡◌, refl, ap, sym, ◌∙◌, true, false, List, [], ◌∷◌, ◌==◌, if◌then◌else◌, leb,
  contains, arith, length, inl, inr, Bool-cases,
}
use cache_hierarchy_simulato.RefFaCache.Stack.{remove, drop_last, touch_stack}

-- The first entries of a stack.
abbrev pub top : ℕ → List ℕ → List ℕ
top zero l = []
top (suc n) [] = []
top (suc n) (x ∷ xs) = x ∷ top n xs

contains-top : (b n : ℕ) (l : List ℕ) → contains b (top n l) ≡ true → contains b l ≡ true
contains-top b zero l h = absurd (cc)
contains-top b (suc n) [] h = h
contains-top b (suc n) (x ∷ xs) h = ground (arith, contains-top b n xs)

length-top_le : (n : ℕ) (l : List ℕ) → length (top n l) ≤ length l
length-top_le zero l = omega arith
length-top_le (suc n) [] = omega arith
length-top_le (suc n) (x ∷ xs) = omega (arith, length-top_le n xs)

-- A block of the top is taken out of it.
remove-top :
    (b n : ℕ) (l : List ℕ)
    → contains b (top (suc n) l) ≡ true
    → remove b (top (suc n) l) ≡ top n (remove b l)
unfolding remove
remove-top b n [] h = absurd (cc)
remove-top b zero (x ∷ xs) h = let here : (b == x) ≡ true = ground arith in rw here refl
remove-top b (suc n) (x ∷ xs) h = elim (Bool-cases (b == x)) [
  | inl here ↦ rw here refl
  | inr there ↦ rw there (ap (λ l. x ∷ l) (remove-top b n xs (ground arith)))
]

-- A block below the top is taken out without a change of the top.
remove-below :
    (b n : ℕ) (l : List ℕ) → contains b (top (suc n) l) ≡ false → top n (remove b l) ≡ top n l
unfolding remove
remove-below b zero l h = refl
remove-below b (suc n) [] h = refl
remove-below b (suc n) (x ∷ xs) h =
    let other : (b == x) ≡ false = ground arith in
    rw other (ap (λ l. x ∷ l) (remove-below b n xs (ground arith)))

drop_last-below : (n : ℕ) (l : List ℕ) → suc n ≤ length l → top n (drop_last l) ≡ top n l
unfolding drop_last
drop_last-below n [] h = absurd (omega arith)
drop_last-below zero l h = refl
drop_last-below (suc n) (x ∷ []) h = absurd (omega arith)
drop_last-below (suc n) (x ∷ y ∷ xs) h = ap (λ l. x ∷ l) (drop_last-below n (y ∷ xs) (omega arith))

-- The room that a new block finds.
abbrev kept : ℕ → List ℕ → List ℕ
kept capacity l = if leb capacity (length l) then drop_last l else l

drop_last-top : (n : ℕ) (l : List ℕ) → suc n ≤ length l → drop_last (top (suc n) l) ≡ top n l
unfolding drop_last
drop_last-top n [] h = absurd (omega arith)
drop_last-top zero (x ∷ xs) h = refl
drop_last-top (suc n) (x ∷ []) h = absurd (omega arith)
drop_last-top (suc n) (x ∷ y ∷ xs) h = ap (λ l. x ∷ l) (drop_last-top n (y ∷ xs) (omega arith))

length-top : (n : ℕ) (l : List ℕ) → n ≤ length l → length (top n l) ≡ n
length-top zero l h = refl
length-top (suc n) [] h = absurd (omega arith)
length-top (suc n) (x ∷ xs) h = ap suc (length-top n xs (omega arith))

top-all : (n : ℕ) (l : List ℕ) → length l ≤ n → top n l ≡ l
top-all zero [] h = refl
top-all zero (x ∷ xs) h = absurd (omega arith)
top-all (suc n) [] h = refl
top-all (suc n) (x ∷ xs) h = ap (λ l. x ∷ l) (top-all n xs (omega arith))

kept-top : (n : ℕ) (l : List ℕ) → kept (suc n) (top (suc n) l) ≡ top n l
kept-top n l = elim (Bool-cases (leb (suc n) (length l))) [
  | inl full ↦
      let enough : suc n ≤ length l = ground arith in
      let test : leb (suc n) (length (top (suc n) l)) ≡ true =
        ground (arith, length-top (suc n) l enough) in
      rw test (drop_last-top n l enough)
  | inr space ↦
      let few : length l ≤ n = ground arith in
      let test : leb (suc n) (length (top (suc n) l)) ≡ false =
        ground (arith, length-top_le (suc n) l) in
      rw test (top-all (suc n) l (omega arith) ∙ sym (top-all n l few))
]

top-kept : (n m : ℕ) (l : List ℕ) → suc n ≤ m → top n (kept m l) ≡ top n l
top-kept n m l h = elim (Bool-cases (leb m (length l))) [
  | inl full ↦ rw full (drop_last-below n l (ground arith))
  | inr space ↦ rw space refl
]

-- A hit of a smaller stack is a hit of a larger one, and the smaller one stays its top.
pub touch_stack-top :
    (n m b : ℕ) (l : List ℕ)
    → suc n ≤ m
    → ((touch_stack (suc n) b (top (suc n) l)).0 ≡ true → (touch_stack m b l).0 ≡ true)
      × ((touch_stack (suc n) b (top (suc n) l)).1 ≡ top (suc n) (touch_stack m b l).1)
unfolding touch_stack
touch_stack-top n m b l h = elim (Bool-cases (contains b (top (suc n) l))) [
  | inl high ↦
      let inside = contains-top b (suc n) l high in
      rw (high, inside) (λ e. refl, ap (λ t. b ∷ t) (remove-top b n l high))
  | inr low ↦ elim (Bool-cases (contains b l)) [
    | inl inside ↦
        rw (low, inside) (λ e. refl, ap (λ t. b ∷ t) (kept-top n l ∙ sym (remove-below b n l low)))
    | inr out ↦ rw (low, out) (λ e. e, ap (λ t. b ∷ t) (kept-top n l ∙ sym (top-kept n m l h)))
  ]
]
