-- ===== src/Tracegen/Loops.antt =====
-- The length and the range of what a loop emits.
use native.Mathlib.Nat.{div-add-mod}
use cache_hierarchy_simulato.Prelude.{
  ℕ, zero, suc, ◌+◌, ◌*◌, ◌/◌, ◌≤◌, ◌<◌, ◌≡◌, refl, ap, ◌∙◌, List, [], ◌∷◌, ◌++◌, All, arith,
  length,
}
use cache_hierarchy_simulato.Tracegen.{Emitted, for_loop, seqscan, randscan}

module _ {ℓ} {A : Type ℓ} where
  pub length-append : (xs ys : List A) → length (xs ++ ys) ≡ length xs + length ys
  length-append [] ys = omega arith
  length-append (x ∷ xs) ys = ap suc (length-append xs ys) ∙ omega arith

  All-append {κ} : (P : A → Type κ) (xs ys : List A) → All P xs → All P ys → All P (xs ++ ys)
  All-append P [] ys p q = q
  All-append P (x ∷ xs) ys p q = (p.0, All-append P xs ys p.1 q)

  pub length-for_loop :
      (first count size : ℕ) (body : ℕ → List A)
      → ((i : ℕ) → length (body i) ≡ size)
      → length (for_loop first count body) ≡ count * size
  unfolding for_loop
  length-for_loop first zero size body h = omega arith
  length-for_loop first (suc count) size body h =
      length-append (body first) (for_loop (suc first) count body)
      ∙ omega (arith, h first, length-for_loop (suc first) count size body h)

  pub All-for_loop {κ} :
      (P : A → Type κ) (first count : ℕ) (body : ℕ → List A)
      → ((i : ℕ) → first ≤ i → i < first + count → All P (body i))
      → All P (for_loop first count body)
  unfolding for_loop
  All-for_loop P first zero body h = tt
  All-for_loop P first (suc count) body h =
      All-append P (body first) (for_loop (suc first) count body)
        (h first (omega arith) (omega arith))
        (All-for_loop P (suc first) count body (λ i low high. h i (omega arith) (omega arith)))

-- The address lies in an array of `size` bytes at `base`.
abbrev pub IsInside : ℕ → ℕ → ℕ → Type 0
IsInside base size addr = (base ≤ addr) × (addr + 8 ≤ base + size)

-- A load of 8 bytes from an array of `bytes` bytes.
abbrev pub IsArrayLoad : ℕ → ℕ → Emitted → Type 0
IsArrayLoad base bytes e = (e.op ≡ b'L') × (e.size ≡ 8) × IsInside base bytes e.addr

element-IsInside : (base bytes i : ℕ) → i < bytes / 8 → IsInside base bytes (base + 8 * i)
element-IsInside base bytes i h = (omega arith, omega (arith, div-add-mod bytes 8))

-- seqscan makes as many loads as its passes over the array have elements, all within its bounds.
pub seqscan-loads :
    (base bytes passes : ℕ)
    → (length (seqscan base bytes passes) ≡ passes * (bytes / 8 * 1))
      × All (IsArrayLoad base bytes) (seqscan base bytes passes)
unfolding seqscan
seqscan-loads base bytes passes = (
  length-for_loop 0 passes _ _ (λ pass. length-for_loop 0 (bytes / 8) 1 _ (λ i. refl)),
  All-for_loop _ 0 passes _ (λ pass low high.
      All-for_loop _ 0 (bytes / 8) _
        (λ i low' h. ((refl, refl, element-IsInside base bytes i (omega arith)), tt))),
)

-- If the distribution draws indices of the array, randscan makes `count` loads within its bounds.
pub randscan-loads :
    (pick : ℕ → ℕ) (base bytes count : ℕ)
    → ((i : ℕ) → pick i < bytes / 8)
    → (length (randscan pick base count) ≡ count * 1)
      × All (IsArrayLoad base bytes) (randscan pick base count)
unfolding randscan
randscan-loads pick base bytes count drawn = (
  length-for_loop 0 count 1 _ (λ i. refl),
  All-for_loop _ 0 count _
      (λ i low h. ((refl, refl, element-IsInside base bytes (pick i) (drawn i)), tt)),
)
