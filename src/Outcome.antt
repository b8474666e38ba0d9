-- ===== src/Outcome.antt =====
-- How src/main.cpp ends before it returns 0.
use Prim.Native.String.{String}
use cache_hierarchy_simulato.Prelude.{ℕ, Bool, true, false, Option, none, some}
use cache_hierarchy_simulato.Console.{Printed, bad_value}

-- An exit code with what is written, an exception that nothing catches, or a division by zero.
pub data Outcome {ℓ} (A : Type ℓ) : Type ℓ where
  go : A → Outcome A
  exit : ℕ → Printed → Outcome A
  uncaught crash : Outcome A

infixl 5 ◌>>=◌ ◌>>◌
abbrev pub ◌>>=◌ {ℓ κ} : {A : Type ℓ} {B : Type κ} → Outcome A → (A → Outcome B) → Outcome B
go a >>= f = f a
exit n p >>= f = exit n p
uncaught >>= f = uncaught
crash >>= f = crash

abbrev pub ◌>>◌ {ℓ} : {B : Type ℓ} → Outcome (Unit {0}) → Outcome B → Outcome B
m >> k = m >>= λ _. k

-- `if (test) { std::cerr << …; return code; }`
abbrev pub exit_if : Bool → ℕ → Printed → Outcome (Unit {0})
exit_if true code p = exit code p
exit_if false code p = go tt

-- A value from std::stoull or std::stod, whose exceptions main does not catch.
abbrev pub number {ℓ} : {A : Type ℓ} → Option A → Outcome A
number none = uncaught
number (some a) = go a

-- The value of an option from a parser, whose failure `badValue` reports with the valid values.
abbrev pub choice {ℓ} : {A : Type ℓ} → String → String → String → Option A → Outcome A
choice flag got valid none = exit 2 (bad_value flag got valid)
choice flag got valid (some a) = go a
