-- ===== src/Trace/Format/Digits.antt =====
-- print_number against std::stoull.
use native.Mathlib.Nat.{div-add-mod', mod-lt, mul-le-mul_left, pow-suc}
use cache_hierarchy_simulato.Prelude.{
  ℕ, zero, suc, ◌+◌, ◌*◌, ◌/◌, ◌%◌, ◌^◌, ◌≤◌, ◌<◌, ◌≡◌, refl, true, false, [], ◌∷◌, some, ltb, ◌==◌,
  All, arith, length, inl, inr, Bool-cases, ap, ◌∙◌,
}
use cache_hierarchy_simulato.Word.{u64_mod}
use cache_hierarchy_simulato.Text.{
  Text, drop_space, digit_value, starts_digit, digits_from, sign, drop_prefix, stoull,
}
use cache_hierarchy_simulato.Trace.Format.{digit_char, print_loop, print_number}

abbrev pub AreDigits : ℕ → Text → Type 0
AreDigits base t = All (λ c. digit_value c < base) t

digit_value-digit_char : (d : ℕ) → d < 16 → digit_value (digit_char d) ≡ d
unfolding digit_char
digit_value-digit_char d h = ground arith

digits_from-nil : (b n : ℕ) → digits_from b n [] ≡ n
unfolding digits_from
digits_from-nil b n = refl

halves_lem : (f b n : ℕ) → 2 ≤ b → n < 2 ^ suc f → n / b < 2 ^ f
halves_lem f b n two h = omega (arith, div-add-mod' n b, mul-le-mul_left (n / b) two, pow-suc 2 f)

digits_from-cons :
    (b acc c : ℕ) (cs : Text)
    → digit_value c < b
    → digits_from b acc (c ∷ cs) ≡ digits_from b (acc * b + digit_value c) cs
unfolding digits_from
digits_from-cons b acc c cs h = let yes : ltb (digit_value c) b ≡ true = ground arith in rw yes refl

digits_from-print_loop :
    (f b n : ℕ) (tail : Text)
    → 2 ≤ b
    → b ≤ 16
    → n < 2 ^ f
    → digits_from b 0 (print_loop f b n tail) ≡ digits_from b n tail
unfolding print_loop
digits_from-print_loop zero b n tail two small h =
    let none_left : n ≡ 0 = omega arith in rw none_left refl
digits_from-print_loop (suc f) b n tail two small h = elim (Bool-cases (ltb n b)) [
  | inl last ↦
      let lt : n < b = ground arith in
      let value = digit_value-digit_char n (omega arith) in
      let sum : 0 * b + n ≡ n = omega arith in
      rw (last, digits_from-cons b 0 (digit_char n) tail (omega arith), value, sum) refl
  | inr more ↦
      let lt : n % b < b = mod-lt n (omega arith) in
      let ih =
        digits_from-print_loop f b (n / b) (digit_char (n % b) ∷ tail) two small
          (halves_lem f b n two h) in
      let value = digit_value-digit_char (n % b) (omega arith) in
      rw
        (
          more,
          ih,
          digits_from-cons b (n / b) (digit_char (n % b)) tail (omega arith),
          value,
          div-add-mod' n b,
        )
        refl
]

print_loop-AreDigits :
    (f b n : ℕ) (tail : Text)
    → 2 ≤ b
    → b ≤ 16
    → AreDigits b tail
    → AreDigits b (print_loop f b n tail)
unfolding print_loop
print_loop-AreDigits zero b n tail two small h = h
print_loop-AreDigits (suc f) b n tail two small h = elim (Bool-cases (ltb n b)) [
  | inl last ↦
      let lt : n < b = ground arith in
      rw last (omega (arith, digit_value-digit_char n (omega arith)), h)
  | inr more ↦
      let lt : n % b < b = mod-lt n (omega arith) in
      rw more (
        print_loop-AreDigits f b (n / b) _ two small
          (omega (arith, digit_value-digit_char (n % b) (omega arith)), h))
]

print_loop-length : (f b n : ℕ) (tail : Text) → length tail ≤ length (print_loop f b n tail)
unfolding print_loop
print_loop-length zero b n tail = omega arith
print_loop-length (suc f) b n tail =
    ground (arith, print_loop-length f b (n / b) (digit_char (n % b) ∷ tail))

-- A digit is no space, sign or prefix.
digit-range :
    (c : ℕ)
    → digit_value c < 16
    → (b'0' ≤ c) × (c ≤ b'f') × ((c == b'x') ≡ false) × ((c == b'X') ≡ false)
digit-range c h = ground arith

drop_space-digits : (t : Text) → AreDigits 16 t → drop_space t ≡ t
unfolding drop_space
drop_space-digits [] h = refl
drop_space-digits (c ∷ cs) h = let range = digit-range c h.0 in ground arith

sign-digits : (t : Text) → AreDigits 16 t → sign t ≡ (false, t)
sign-digits [] h = refl
sign-digits (c ∷ cs) h = let range = digit-range c h.0 in ground arith

drop_prefix-digits : (b : ℕ) (t : Text) → AreDigits 16 t → drop_prefix b t ≡ t
drop_prefix-digits b [] h = refl
drop_prefix-digits b (c ∷ []) h = refl
drop_prefix-digits b (c ∷ x ∷ cs) h = let range = digit-range x h.1.0 in ground arith

starts_digit-digits : (b : ℕ) (t : Text) → 0 < length t → AreDigits b t → starts_digit b t ≡ true
starts_digit-digits b [] some_digit h = absurd (omega arith)
starts_digit-digits b (c ∷ cs) some_digit h = ground arith

pub AreDigits-le : (b : ℕ) (t : Text) → b ≤ 16 → AreDigits b t → AreDigits 16 t
AreDigits-le b [] small h = tt
AreDigits-le b (c ∷ cs) small h = (omega arith, AreDigits-le b cs small h.1)

stoull-digits :
    (b : ℕ) (t : Text)
    → b ≤ 16
    → 0 < length t
    → AreDigits b t
    → digits_from b 0 t < u64_mod
    → stoull b t ≡ some (digits_from b 0 t)
unfolding stoull
stoull-digits b t small some_digit h word =
    let wide = AreDigits-le b t small h in
    let fits : ltb (digits_from b 0 t) u64_mod ≡ true = ground arith in
    rw
      (
        drop_space-digits t wide,
        sign-digits t wide,
        drop_prefix-digits b t wide,
        starts_digit-digits b t some_digit h,
        fits,
      )
      refl

module _ (b n : ℕ) (two : 2 ≤ b) (small : b ≤ 16) where
  pub print_number-AreDigits : AreDigits b (print_number b n)
  unfolding print_number
  print_number-AreDigits = print_loop-AreDigits 64 b n [] two small tt

  pub print_number-length : 0 < length (print_number b n)
  unfolding print_number print_loop
  print_number-length = ground (arith, print_loop-length 63 b (n / b) (digit_char (n % b) ∷ []))

  -- What is printed in a base up to 16 is read as the same number.
  pub stoull-print_number : n < u64_mod → stoull b (print_number b n) ≡ some n
  unfolding print_number
  stoull-print_number h =
      let value : digits_from b 0 (print_loop 64 b n []) ≡ n =
        digits_from-print_loop 64 b n [] two small h ∙ digits_from-nil b n in
      stoull-digits b (print_loop 64 b n []) small print_number-length print_number-AreDigits
        (omega arith)
      ∙ ap some value
