-- ===== src/Word.antt =====
-- The unsigned 64-bit integers of the source (uint64_t, and size_t on the same platforms).
pub mod Digits
pub mod Masks
use cache_hierarchy_simulato.Prelude.{ℕ, ◌+◌, ◌-◌, ◌*◌, ◌/◌, ◌%◌, ◌^◌, ◌<◌, arith}

abbrev pub u64_mod : ℕ
u64_mod = 2 ^ 64

-- Reduction of a result to 64 bits.
abbrev pub u64 : ℕ → ℕ
u64 n = n % u64_mod

-- ++x
abbrev pub incr : ℕ → ℕ
incr n = u64 (n + 1)

-- x - y of two words; `-` on ℕ stops at 0, so the modulus is added first
abbrev pub sub64 : ℕ → ℕ → ℕ
sub64 a b = u64 (a + u64_mod - b)

-- x << k and x >> k
abbrev pub shl : ℕ → ℕ → ℕ
shl x k = u64 (x * 2 ^ k)

abbrev pub shr : ℕ → ℕ → ℕ
shr x k = x / 2 ^ k
