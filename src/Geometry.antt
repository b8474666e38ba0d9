-- ===== src/Geometry.antt =====
-- src/cache.cpp, the two helpers of the address arithmetic: log2u and isPow2.
pub mod Log2
pub mod Rounds
use cache_hierarchy_simulato.Prelude.{
  ℕ, zero, suc, ◌+◌, ◌-◌, Bool, not, ◌&&◌, bit_and, ltb, ◌==◌, if◌then◌else◌,
}
use cache_hierarchy_simulato.Word.{shr, sub64}

-- `while (x > 1) { x >>= 1; ++r; }`; a 64-bit number is at most 1 after 63 rounds.
pub log2u_loop : ℕ → ℕ → ℕ → ℕ
log2u_loop zero x r = r
log2u_loop (suc fuel) x r =
    let rest = log2u_loop fuel (shr x 1) (r + 1) in if ltb 1 x then rest else r

unfoldable pub log2u : ℕ → ℕ
unfolding log2u_loop
log2u x = log2u_loop 64 x 0

unfoldable pub is_pow2 : ℕ → Bool
is_pow2 x = not (x == 0) && bit_and x (sub64 x 1) == 0
