-- ===== src/Recency/Distance.antt =====
-- The stack of an LRU set by the distance of a block: the number of different blocks that were used
-- since the block was.
use cache_hierarchy_simulato.Prelude.{
  ℕ, zero, suc, ◌+◌, ◌<◌, ◌≡◌, refl, ap, sym, ◌∙◌, true, false, List, [], ◌∷◌, ◌++◌, ◌==◌, leb,
  contains, arith, length, inl, inr, Bool-cases,
}
use cache_hierarchy_simulato.RefFaCache.Stack.{remove, touch_stack}
use cache_hierarchy_simulato.Classification.{stack_of, distinct}
use cache_hierarchy_simulato.Recency.Inclusion.{top, touch_stack-top}

-- The different entries of a history, the last used one first.
by_use : List ℕ → List ℕ
by_use [] = []
by_use (b ∷ h) = b ∷ remove b (by_use h)

remove-missing : (b : ℕ) (l : List ℕ) → contains b l ≡ false → remove b l ≡ l
unfolding remove
remove-missing b [] h = refl
remove-missing b (x ∷ xs) h =
    let other : (b == x) ≡ false = ground arith in
    rw other (ap (λ l. x ∷ l) (remove-missing b xs (ground arith)))

-- A stack with room for one more block loses none.
touch_stack-room : (m b : ℕ) (l : List ℕ) → length l < m → (touch_stack m b l).1 ≡ b ∷ remove b l
unfolding touch_stack
touch_stack-room m b l room = elim (Bool-cases (contains b l)) [
  | inl inside ↦ rw inside refl
  | inr out ↦
      let space : leb m (length l) ≡ false = ground arith in
      rw (out, space) (ap (λ t. b ∷ t) (sym (remove-missing b l out)))
]

-- The stack of a set of some ways is the top of the entries by use.
stack_of-top : (w : ℕ) (h : List ℕ) → stack_of (suc w) h ≡ top (suc w) (by_use h)
unfolding stack_of by_use
stack_of-top w [] = refl
stack_of-top w (b ∷ h) =
    let l = by_use h in
    let m = suc (suc w + length l) in
    ap (λ t. (touch_stack (suc w) b t).1) (stack_of-top w h)
    ∙ (touch_stack-top w m b l (omega arith)).1
    ∙ ap (λ t. top (suc w) t) (touch_stack-room m b l (omega arith))

remove-append :
    (b t : ℕ) (p q : List ℕ)
    → (b == t) ≡ false
    → (r : List ℕ) × (remove b (p ++ t ∷ q) ≡ remove b p ++ t ∷ r)
unfolding remove
remove-append b t [] q other = (remove b q, rw other refl)
remove-append b t (x ∷ p) q other = elim (Bool-cases (b == x)) [
  | inl here ↦ (q, rw here refl)
  | inr there ↦ let (r, e) = remove-append b t p q other in (r, rw there (ap (λ l. x ∷ l) e))
]

-- A block stands below those that were used after it.
by_use-append :
    (t : ℕ) (mid before : List ℕ)
    → contains t mid ≡ false
    → (r : List ℕ) × (by_use (mid ++ t ∷ before) ≡ by_use mid ++ t ∷ r)
unfolding by_use
by_use-append t [] before h = (remove t (by_use before), refl)
by_use-append t (b ∷ mid) before h =
    let (r, e) = by_use-append t mid before (ground arith) in
    let (r', e') = remove-append b t (by_use mid) r (ground arith) in
    (r', ap (λ l. b ∷ l) (ap (remove b) e ∙ e'))

contains-remove_ne :
    (x b : ℕ) (l : List ℕ) → (x == b) ≡ false → contains x (remove b l) ≡ contains x l
unfolding remove
contains-remove_ne x b [] h = refl
contains-remove_ne x b (y ∷ l) h = ground (arith, contains-remove_ne x b l h)

contains-by_use : (x : ℕ) (h : List ℕ) → contains x (by_use h) ≡ contains x h
unfolding by_use
contains-by_use x [] = refl
contains-by_use x (b ∷ h) = elim (Bool-cases (x == b)) [
  | inl here ↦ rw here refl
  | inr other ↦ rw other (contains-remove_ne x b (by_use h) other ∙ contains-by_use x h)
]

length-remove : (b : ℕ) (l : List ℕ) → contains b l ≡ true → suc (length (remove b l)) ≡ length l
unfolding remove
length-remove b [] h = absurd (cc)
length-remove b (x ∷ l) h = ground (arith, length-remove b l)

length-by_use : (h : List ℕ) → length (by_use h) ≡ distinct h
unfolding by_use distinct
length-by_use [] = refl
length-by_use (b ∷ h) = elim (Bool-cases (contains b h)) [
  | inl again ↦
      rw again (length-remove b (by_use h) (contains-by_use b h ∙ again) ∙ length-by_use h)
  | inr new ↦
      let same = remove-missing b (by_use h) (contains-by_use b h ∙ new) in
      rw (new, same) (omega (arith, length-by_use h))
]

contains-top_append :
    (w t : ℕ) (p r : List ℕ)
    → contains t p ≡ false
    → contains t (top (suc w) (p ++ t ∷ r)) ≡ leb (length p) w
contains-top_append w t [] r h = ground arith
contains-top_append zero t (x ∷ p) r h = ground arith
contains-top_append (suc w) t (x ∷ p) r h = ground (arith, contains-top_append w t p r)

-- A block that was used before, and not since, is in the stack exactly if fewer different blocks
-- than the set has ways were used since.
pub contains-stack_of :
    (w t : ℕ) (mid before : List ℕ)
    → contains t mid ≡ false
    → contains t (stack_of (suc w) (mid ++ t ∷ before)) ≡ leb (distinct mid) w
contains-stack_of w t mid before h =
    let (r, e) = by_use-append t mid before h in
    rw (stack_of-top w (mid ++ t ∷ before), e)
      (contains-top_append w t (by_use mid) r (contains-by_use t mid ∙ h)
        ∙ ap (λ n. leb n w) (length-by_use mid))
