-- ===== src/Geometry/Log2.antt =====
-- What isPow2 accepts, and what log2u computes.
use native.Mathlib.Nat.{pow-suc}
use native.Mathlib.Decide.{dec_lt}
use cache_hierarchy_simulato.Prelude.{
  ℕ, zero, suc, ◌+◌, ◌-◌, ◌/◌, ◌%◌, ◌^◌, ◌≤◌, ◌<◌, ◌≡◌, true, bit_and, arith, ltb, inl, inr,
  Bool-cases, ◌↔◌,
}
use cache_hierarchy_simulato.Word.{u64_mod}
use cache_hierarchy_simulato.Word.Masks.{pow_mono, pow-pos, pow2-of-test, test-of-pow2}
use cache_hierarchy_simulato.Geometry.{log2u_loop, log2u, is_pow2}

log2u_loop_lem :
    (f x r : ℕ)
    → 0 < x
    → x < 2 ^ f
    → (d : ℕ) × (log2u_loop f x r ≡ r + d) × (2 ^ d ≤ x) × (x < 2 ^ suc d)
unfolding log2u_loop
log2u_loop_lem zero x r p h = absurd (omega arith)
log2u_loop_lem (suc f) x r p h = elim (Bool-cases (ltb 1 x)) [
  | inl more ↦
      let big : 1 < x = ground arith in
      let (d, e, lo, hi) =
        log2u_loop_lem f (x / 2) (r + 1) (omega arith) (omega (arith, pow-suc 2 f)) in
      (
        suc d,
        rw (more, e) (omega arith),
        omega (arith, pow-suc 2 d),
        omega (arith, pow-suc 2 (suc d)),
      )
  | inr done ↦
      let small : x ≤ 1 = ground arith in (0, rw done (omega arith), omega arith, omega arith)
]

-- log2u brackets every 64-bit number between neighbouring powers of two.
pub log2u_bounds : (x : ℕ) → 0 < x → x < u64_mod → (2 ^ log2u x ≤ x) × (x < 2 ^ suc (log2u x))
unfolding log2u
log2u_bounds x p h =
    let (d, e, lo, hi) = log2u_loop_lem 64 x 0 p h in
    let same : log2u_loop 64 x 0 ≡ d = omega arith in rw same (lo, hi)

-- Only one exponent brackets a number so.
bracket_unique : (x a b : ℕ) → 2 ^ a ≤ x → x < 2 ^ suc a → 2 ^ b ≤ x → x < 2 ^ suc b → a ≡ b
bracket_unique x a b al ah bl bh = elim (dec_lt a b) [
  | yes below ↦ absurd (omega (arith, pow_mono (suc a) b below))
  | no above ↦ elim (dec_lt b a) [
    | yes over ↦ absurd (omega (arith, pow_mono (suc b) a over))
    | no under ↦ omega arith
  ]
]

pub log2u-pow : (k : ℕ) → k < 64 → log2u (2 ^ k) ≡ k
log2u-pow k h =
    let wide : 2 ^ k < u64_mod = omega (arith, pow_mono (suc k) 64 h, pow-suc 2 k, pow-pos k) in
    let (lo, hi) = log2u_bounds (2 ^ k) (pow-pos k) wide in
    bracket_unique (2 ^ k) (log2u (2 ^ k)) k lo hi (omega arith)
      (omega (arith, pow-suc 2 k, pow-pos k))

pub log2u-lt : (x : ℕ) → 0 < x → x < u64_mod → log2u x < 64
log2u-lt x p h = elim (dec_lt (log2u x) 64) [
  | yes fits ↦ fits
  | no wide ↦
      let high : 64 ≤ log2u x = omega arith in
      absurd (omega (arith, (log2u_bounds x p h).0, pow_mono 64 (log2u x) high))
]

-- The test of isPow2, with the wrap-around of `x - 1` gone.
is_pow2-test : (x : ℕ) → x < u64_mod → (is_pow2 x ≡ true) ↔ ((0 < x) × (bit_and x (x - 1) ≡ 0))
unfolding is_pow2
is_pow2-test zero h = ground arith
is_pow2-test (suc n) h =
    let pred : (suc n + u64_mod - 1) % u64_mod ≡ suc n - 1 = omega arith in rw pred (ground arith)

-- isPow2 accepts a 64-bit number exactly if it is 2 to the power that log2u computes.
pub is_pow2_iff : (x : ℕ) → x < u64_mod → (is_pow2 x ≡ true) ↔ (x ≡ 2 ^ log2u x)
is_pow2_iff x h = (accepted, passes)
  where
    accepted : is_pow2 x ≡ true → x ≡ 2 ^ log2u x
    accepted e =
        let (pos, test) = (is_pow2-test x h).0 e in
        let (k, power) = pow2-of-test x x (omega arith) pos test in
        let (lo, hi) = log2u_bounds x pos h in
        let same : log2u x ≡ k =
          bracket_unique x (log2u x) k lo hi (omega arith) (omega (arith, pow-suc 2 k)) in
        rw same power

    passes : x ≡ 2 ^ log2u x → is_pow2 x ≡ true
    passes e =
        (is_pow2-test x h).1 (omega (arith, pow-pos (log2u x)), rw e (test-of-pow2 (log2u x)))

pub exponent-lt : (k : ℕ) → 2 ^ k < u64_mod → k < 64
exponent-lt k h = elim (dec_lt k 64) [
  | yes fits ↦ fits
  | no wide ↦ let high : 64 ≤ k = omega arith in absurd (omega (arith, pow_mono 64 k high))
]

pub is_pow2-pow : (k x : ℕ) → x < u64_mod → x ≡ 2 ^ k → is_pow2 x ≡ true
is_pow2-pow k x h e =
    let same : log2u (2 ^ k) ≡ k = log2u-pow k (exponent-lt k (omega arith)) in
    (is_pow2_iff x h).1 (rw (e, same))
