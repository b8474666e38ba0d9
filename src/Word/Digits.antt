-- ===== src/Word/Digits.antt =====
-- The machine's `&` and `|` by their lowest binary digit.
use Prim.Native.Nat.{min, max, digits, bitwise, bit_and-bitwise, bit_or-bitwise}
use cache_hierarchy_simulato.Prelude.{
  ℕ, zero, suc, ◌+◌, ◌-◌, ◌*◌, ◌/◌, ◌%◌, ◌≤◌, ◌≡◌, refl, ◌∙◌, bit_and, bit_or, arith,
}

-- More digits than the first number has change nothing.
digits_spare :
    (z : ℕ → ℕ) (f : ℕ → ℕ → ℕ) (k a : ℕ)
    → a ≤ k
    → (b : ℕ) → digits z f (suc k) a b ≡ digits z f k a b
digits_spare z f k zero h b = elim k as (λ n. digits z f (suc n) 0 b ≡ digits z f n 0 b) [
  | zero ↦ refl
  | suc n ↦ refl
]
digits_spare z f zero (suc a) h b = absurd (omega arith)
digits_spare z f (suc k) (suc a) h b =
    omega (arith, digits_spare z f k (suc a / 2) (omega arith) (b / 2))

digits_enough :
    (z : ℕ → ℕ) (f : ℕ → ℕ → ℕ) (d k m a : ℕ)
    → a ≤ k
    → k + d ≡ m
    → (b : ℕ) → digits z f m a b ≡ digits z f k a b
digits_enough z f zero k m a h e b = let m-eq-k : m ≡ k = omega arith in rw m-eq-k
digits_enough z f (suc d) k zero a h e b = absurd (omega arith)
digits_enough z f (suc d) k (suc m) a h e b =
    digits_spare z f m a (omega arith) b ∙ digits_enough z f d k m a h (omega arith) b

halve_digits :
    (z : ℕ → ℕ) (f : ℕ → ℕ → ℕ) (a b : ℕ)
    → bitwise z f (suc a) b ≡ bitwise z f (suc a / 2) (b / 2) * 2 + f (suc a % 2) (b % 2)
halve_digits z f a b =
    let half = suc a / 2 in
    omega (arith, digits_enough z f (a - half) half a half (omega arith) (omega arith) (b / 2))

-- One digit of `&`.
pub bit_and-halves : (a b : ℕ) → bit_and a b ≡ bit_and (a / 2) (b / 2) * 2 + min (a % 2) (b % 2)
bit_and-halves zero b = simp bit_and-bitwise (omega arith)
bit_and-halves (suc a) b = simp bit_and-bitwise (halve_digits (λ _. 0) min a b)

-- One digit of `|`.
pub bit_or-halves : (a b : ℕ) → bit_or a b ≡ bit_or (a / 2) (b / 2) * 2 + max (a % 2) (b % 2)
bit_or-halves zero b = simp bit_or-bitwise (omega arith)
bit_or-halves (suc a) b = simp bit_or-bitwise (halve_digits (λ y. y) max a b)
