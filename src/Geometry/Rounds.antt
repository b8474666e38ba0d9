-- ===== src/Geometry/Rounds.antt =====
-- The loop of log2u ends: its 64 rounds of fuel are enough for every 64-bit number.
use native.Mathlib.Nat.{pow-suc}
use cache_hierarchy_simulato.Prelude.{
  ℕ, zero, suc, ◌+◌, ◌-◌, ◌/◌, ◌^◌, ◌≤◌, ◌<◌, ◌≡◌, refl, ap, ◌∙◌, arith, ltb, false, inl, inr,
  Bool-cases,
}
use cache_hierarchy_simulato.Word.{u64_mod}
use cache_hierarchy_simulato.Word.Masks.{pow_mono}
use cache_hierarchy_simulato.Geometry.{log2u_loop, log2u}

-- One round more changes nothing where the number has no more bits than there are rounds.
log2u_loop-stable : (f x r : ℕ) → x < 2 ^ f → log2u_loop (suc f) x r ≡ log2u_loop f x r
unfolding log2u_loop
log2u_loop-stable zero x r h = let small : ltb 1 x ≡ false = ground arith in rw small refl
log2u_loop-stable (suc f) x r h =
    let ih = log2u_loop-stable f (x / 2) (r + 1) (omega (arith, pow-suc 2 f)) in
    elim (Bool-cases (ltb 1 x)) [ inl more ↦ rw more ih | inr done ↦ rw done refl ]

log2u_loop-more : (f k x r : ℕ) → x < 2 ^ f → log2u_loop (f + k) x r ≡ log2u_loop f x r
log2u_loop-more f zero x r h = ap (λ g. log2u_loop g x r) (omega arith)
log2u_loop-more f (suc k) x r h =
    ap (λ g. log2u_loop g x r) (omega arith)
    ∙ log2u_loop-stable (f + k) x r (omega (arith, pow_mono f (f + k) (omega arith)))
    ∙ log2u_loop-more f k x r h

-- The loop of log2u ends on every 64-bit number within 64 rounds: any larger number of rounds gives
-- the same result.
pub log2u_loop-rounds : (fuel x : ℕ) → 64 ≤ fuel → x < u64_mod → log2u_loop fuel x 0 ≡ log2u x
unfolding log2u
log2u_loop-rounds fuel x enough word =
    ap (λ g. log2u_loop g x 0) (omega arith) ∙ log2u_loop-more 64 (fuel - 64) x 0 word
