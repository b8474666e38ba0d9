-- ===== src/Word/Masks.antt =====
-- Masks and fields: `& (2^k - 1)`, `|` of disjoint fields, and the test `(x & (x - 1)) == 0`.
use native.Mathlib.Nat.{
  pow-suc, one-le-pow, mul_assoc, mul-suc, mul-le-mul_left, add-zero, add-suc, pow-le-pow_right,
  div-add-mod, mod-lt, mul-add-mod_self_left, mod-eq_of_lt, mod_self,
}
use native.Mathlib.Decide.{ℕ_discrete, dec_lt}
use cache_hierarchy_simulato.Prelude.{
  ℕ, zero, suc, ◌+◌, ◌-◌, ◌*◌, ◌/◌, ◌%◌, ◌^◌, ◌≤◌, ◌<◌, ◌≡◌, refl, sym, ap, ◌∙◌, bit_and, bit_or,
  arith,
}
use cache_hierarchy_simulato.Word.{u64_mod, sub64}
use cache_hierarchy_simulato.Word.Digits.{bit_and-halves, bit_or-halves}

-- Each law goes from a number to its half, so it recurs on a bound.
bit_and-zero : (n a : ℕ) → a ≤ n → bit_and a 0 ≡ 0
bit_and-zero n zero h = refl
bit_and-zero zero (suc a) h = absurd (omega arith)
bit_and-zero (suc n) (suc a) h =
    omega (arith, bit_and-halves (suc a) 0, bit_and-zero n (suc a / 2) (omega arith))

bit_or-zero : (n a : ℕ) → a ≤ n → bit_or a 0 ≡ a
bit_or-zero n zero h = refl
bit_or-zero zero (suc a) h = absurd (omega arith)
bit_or-zero (suc n) (suc a) h =
    omega (arith, bit_or-halves (suc a) 0, bit_or-zero n (suc a / 2) (omega arith))

bit_and_self : (n a : ℕ) → a ≤ n → bit_and a a ≡ a
bit_and_self n zero h = refl
bit_and_self zero (suc a) h = absurd (omega arith)
bit_and_self (suc n) (suc a) h =
    omega (arith, bit_and-halves (suc a) (suc a), bit_and_self n (suc a / 2) (omega arith))

pub pow-pos : (k : ℕ) → 1 ≤ 2 ^ k
pow-pos k = one-le-pow k 2 (omega arith)

-- A remainder by 2m has the remainder of the half by m above the lowest digit.
double_mod : (a m : ℕ) → 1 ≤ m → a % (m * 2) ≡ (a / 2) % m * 2 + a % 2
double_mod a m h =
    let s = a / 2 % m in
    let split : a ≡ (m * 2) * (a / 2 / m) + (s * 2 + a % 2) =
      omega (arith, div-add-mod (a / 2) m) in
    let small : s * 2 + a % 2 < m * 2 = omega (arith, mod-lt (a / 2) h) in
    ap (λ (t : ℕ). t % (m * 2)) split
    ∙ mul-add-mod_self_left (m * 2) (a / 2 / m) (s * 2 + a % 2)
    ∙ mod-eq_of_lt small

pub pow_mono : (i j : ℕ) → i ≤ j → 2 ^ i ≤ 2 ^ j
pow_mono i j h = pow-le-pow_right (omega arith) h

pub pow-add : (i j : ℕ) → 2 ^ (i + j) ≡ 2 ^ i * 2 ^ j
pow-add i zero = rw add-zero (omega arith)
pow-add i (suc j) = rw (add-suc, pow-suc 2 (i + j), pow-suc 2 j, pow-add i j) (omega arith)

-- A multiple of 2^o that wraps is a multiple of 2^o again, so at least 2^o unless it is 0.
pub pow-le-wrapped :
    (b o a : ℕ) → o ≤ 64 → b ≡ 2 ^ o → 0 < (b * a) % u64_mod → b ≤ (b * a) % u64_mod
pow-le-wrapped b o a h power p =
    let t = 2 ^ (64 - o) * (b * a / u64_mod) in
    let whole : o + (64 - o) ≡ 64 = omega arith in
    let modulus : b * 2 ^ (64 - o) ≡ u64_mod =
      ap (λ (k : ℕ). k * 2 ^ (64 - o)) power
      ∙ sym (pow-add o (64 - o))
      ∙ ap (λ (k : ℕ). 2 ^ k) whole in
    let divided : b * t + b * a % u64_mod ≡ b * a = omega (
      arith,
      div-add-mod (b * a) u64_mod,
      mul_assoc b (2 ^ (64 - o)) (b * a / u64_mod),
      ap (λ (m : ℕ). m * (b * a / u64_mod)) modulus,
    ) in
    elim (dec_lt t a) [
      | yes more ↦ omega (arith, divided, mul-le-mul_left b more, mul-suc b t)
      | no less ↦
          let bound : a ≤ t = omega arith in
          absurd (omega (arith, divided, mul-le-mul_left b bound))
    ]

-- `& (2^k - 1)` keeps the k lowest digits.
pub bit_and-mask : (k a : ℕ) → bit_and a (2 ^ k - 1) ≡ a % 2 ^ k
bit_and-mask zero a = omega (arith, bit_and-zero a a (omega arith))
bit_and-mask (suc k) a =
    let pos = pow-pos k in
    let mask : (2 ^ k * 2 - 1) / 2 ≡ 2 ^ k - 1 = omega arith in
    let low : (2 ^ k * 2 - 1) % 2 ≡ 1 = omega arith in
    rw (pow-suc 2 k, bit_and-halves a (2 ^ k * 2 - 1), mask, low, double_mod a (2 ^ k) pos)
      (omega (arith, bit_and-mask k (a / 2)))

-- `|` of a number shifted past a field and a number that fits it is their sum.
pub bit_or-fields : (k q r : ℕ) → r < 2 ^ k → bit_or (q * 2 ^ k) r ≡ q * 2 ^ k + r
bit_or-fields zero q r h =
    let none_left : r ≡ 0 = omega arith in
    rw none_left (bit_or-zero (q * 1) (q * 1) (omega arith) ∙ omega arith)
bit_or-fields (suc k) q r h =
    let double : q * 2 ^ suc k ≡ q * 2 ^ k * 2 =
      omega (arith, ap (λ (t : ℕ). q * t) (pow-suc 2 k)) in
    let half : q * 2 ^ k * 2 / 2 ≡ q * 2 ^ k = omega arith in
    rw (double, bit_or-halves (q * 2 ^ k * 2) r, half)
      (omega (arith, bit_or-fields k q (r / 2) (omega (arith, pow-suc 2 k))))

-- A positive number that shares no digit with its predecessor is a power of two.
pub pow2-of-test : (n x : ℕ) → x ≤ n → 0 < x → bit_and x (x - 1) ≡ 0 → (k : ℕ) × (x ≡ 2 ^ k)
pow2-of-test zero x h p e = absurd (omega arith)
pow2-of-test (suc n) x h p e = elim (ℕ_discrete (x % 2) 0) [
  | yes even ↦
      let low : (x - 1) / 2 ≡ x / 2 - 1 = omega arith in
      let upper : bit_and (x / 2) ((x - 1) / 2) ≡ 0 = omega (arith, bit_and-halves x (x - 1)) in
      let (k, half) = pow2-of-test n (x / 2) (omega arith) (omega arith) (rw low at upper) in
      (suc k, omega (arith, pow-suc 2 k))
  | no odd ↦
      let low : (x - 1) / 2 ≡ x / 2 = omega arith in
      let upper : bit_and (x / 2) ((x - 1) / 2) ≡ 0 = omega (arith, bit_and-halves x (x - 1)) in
      let same : bit_and (x / 2) (x / 2) ≡ 0 = rw low at upper in
      (0, omega (arith, bit_and_self (x / 2) (x / 2) (omega arith)))
]

-- A power of two passes the test.
pub test-of-pow2 : (k : ℕ) → bit_and (2 ^ k) (2 ^ k - 1) ≡ 0
test-of-pow2 k = bit_and-mask k (2 ^ k) ∙ mod_self (2 ^ k)

-- The mask `2^k - 1` as the machine computes it.
pub mask_word : (k x : ℕ) → k < 64 → x ≡ 2 ^ k → sub64 x 1 ≡ 2 ^ k - 1
mask_word k x h e =
    let pos : 1 ≤ x = omega (arith, pow-pos k) in
    let small : x < u64_mod = omega (arith, pow_mono k 63 (omega arith)) in omega arith
