-- ===== src/Trace/Format.antt =====
-- scripts/tracegen.cpp, emit: the line of a record.
pub mod Digits
pub mod RoundTrip
use cache_hierarchy_simulato.Prelude.{
  ℕ, zero, suc, ◌+◌, ◌/◌, ◌%◌, ◌^◌, ◌<◌, ◌≡◌, refl, Bool, List, [], ◌∷◌, ◌++◌, Option, none, some,
  ltb, ◌==◌, if◌then◌else◌,
}
use cache_hierarchy_simulato.Text.{Text}

unfoldable pub digit_char : ℕ → ℕ
digit_char d = if ltb d 10 then b'0' + d else 87 + d

-- The digits of a number before `tail`; a 64-bit number has at most 64 in any base.
unfoldable pub print_loop : ℕ → ℕ → ℕ → Text → Text
unfolding digit_char
print_loop zero base n tail = tail
print_loop (suc fuel) base n tail =
    let rest = print_loop fuel base (n / base) (digit_char (n % base) ∷ tail) in
    if ltb n base then digit_char n ∷ tail else rest

-- `%llx` in base 16, `%u` in base 10
unfoldable pub print_number : ℕ → ℕ → Text
print_number base n = print_loop 64 base n []

-- The text of printf(" %c %llx,%u\n", op, address, size) up to the end of the line.
unfoldable pub emit : ℕ → ℕ → ℕ → Text
unfolding print_number
emit op addr size = 32 ∷ op ∷ 32 ∷ (print_number 16 addr ++ (b',' ∷ print_number 10 size))
