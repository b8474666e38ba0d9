-- ===== src/Report/Stream.antt =====
-- The state of an output stream that src/hierarchy.cpp and src/cache.cpp set and that the numbers
-- printed after it depend on.
use cache_hierarchy_simulato.Prelude.{ℕ, Bool, true, false, if◌then◌else◌}

-- std::hex or std::dec, std::fixed or neither, and the precision.
pub record StreamFormat : Type 0 where
  pub hex : Bool
  pub fixed : Bool
  pub precision : ℕ

-- A new stream.
abbrev pub initial : StreamFormat
initial = record { hex = false; fixed = false; precision = 6 }

abbrev pub radix : StreamFormat → ℕ
radix f = if f.hex then 16 else 10

-- `std::hex` and `std::dec`
abbrev pub set_hex : StreamFormat → StreamFormat
set_hex f = record f { hex = true }

abbrev pub set_dec : StreamFormat → StreamFormat
set_dec f = record f { hex = false }

-- `std::fixed << std::setprecision(2)`
abbrev pub set_fixed : StreamFormat → StreamFormat
set_fixed f = record f { fixed = true; precision = 2 }

-- `os.flags(f)` with the flags of the first format: the precision is none of them.
abbrev pub restore_flags : StreamFormat → StreamFormat → StreamFormat
restore_flags saved f = record f { hex = saved.hex; fixed = saved.fixed }
