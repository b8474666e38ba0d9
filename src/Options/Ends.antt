-- ===== src/Options/Ends.antt =====
-- How the parts of src/main.cpp that read the options may end.
use Prim.Native.String.{String}
use cache_hierarchy_simulato.Prelude.{
  ℕ, ◌<◌, ◌≡◌, refl, ◌⊎◌, ◌++◌, Bool, true, false, [], Option, none, some, if◌then◌else◌, arith,
  inl, inr, Option-cases,
}
use cache_hierarchy_simulato.Word.{u64_mod}
use cache_hierarchy_simulato.Text.{Text, codes, stoull}
use cache_hierarchy_simulato.Console.{
  Printed, usage, needs_value, bad_value, unknown_option, required, l2_required,
}
use cache_hierarchy_simulato.Outcome.{
  Outcome, go, exit, uncaught, crash, ◌>>=◌, ◌>>◌, exit_if, number, choice,
}

-- An error message.
abbrev pub IsError : Text → Type 0
IsError t = (rest : Text) × (t ≡ codes "error: " ++ rest)

-- What main does before it simulates: `--help` returns 0 and prints the usage; an error returns 2,
-- prints its message, and may print the usage.
abbrev pub IsRefusal : String → ℕ → Printed → Type 0
IsRefusal prog n p =
    ((n ≡ 0) × (p.out ≡ usage prog) × (p.err ≡ []))
    ⊎ ((n ≡ 2) × IsError p.err × ((p.out ≡ []) ⊎ (p.out ≡ usage prog)))

-- An outcome that ends main in this way, or whose value has the property.
abbrev pub Ends {ℓ} : {A : Type ℓ} → String → (A → Type 0) → Outcome A → Type 0
Ends prog P (go a) = P a
Ends prog P (exit n p) = IsRefusal prog n p
Ends prog P uncaught = Unit
Ends prog P crash = Unit

pub record EndsIn {ℓ} {A : Type ℓ} (prog : String) (P : A → Type 0) (m : Outcome A) : Type 0 where
  pub ends : Ends prog P m

pub bind-EndsIn {ℓ κ} :
    {prog : String} {A : Type ℓ} {B : Type κ} {P : A → Type 0} {Q : B → Type 0} {m : Outcome A}
    {f : A → Outcome B}
    → EndsIn prog P m
    → ((a : A) → P a → EndsIn prog Q (f a))
    → EndsIn prog Q (m >>= f)
bind-EndsIn {m = go a} h k = k a h.ends
bind-EndsIn {m = exit n p} h k = record { ends = h.ends }
bind-EndsIn {m = uncaught} h k = record { ends = tt }
bind-EndsIn {m = crash} h k = record { ends = tt }

pub if-EndsIn {ℓ} :
    {prog : String} {A : Type ℓ} {P : A → Type 0} (b : Bool) {m n : Outcome A}
    → EndsIn prog P m
    → EndsIn prog P n
    → EndsIn prog P (if b then m else n)
if-EndsIn true h k = h
if-EndsIn false h k = k

pub go-EndsIn {ℓ} :
    {prog : String} {A : Type ℓ} {P : A → Type 0} {a : A} → P a → EndsIn prog P (go a)
go-EndsIn h = record { ends = h }

-- `--help`
pub help-EndsIn {ℓ} :
    {A : Type ℓ} {P : A → Type 0} (prog : String)
    → EndsIn prog P (exit 0 (record { out = usage prog; err = [] }))
help-EndsIn prog = record { ends = inl (refl, refl, refl) }

-- An error.
pub error-EndsIn {ℓ} :
    {prog : String} {A : Type ℓ} {P : A → Type 0} {p : Printed}
    → IsError p.err
    → (p.out ≡ []) ⊎ (p.out ≡ usage prog)
    → EndsIn prog P (exit 2 p)
error-EndsIn message shown = record { ends = inr (refl, message, shown) }

pub exit_if-EndsIn {ℓ} :
    {prog : String} {A : Type ℓ} {P : A → Type 0} (b : Bool) {p : Printed} {m : Outcome A}
    → EndsIn {A = Unit {0}} prog (λ a. Unit {0}) (exit 2 p)
    → EndsIn prog P m
    → EndsIn prog P (exit_if b 2 p >> m)
exit_if-EndsIn true r h = record { ends = r.ends }
exit_if-EndsIn false r h = h

-- The messages of main before it opens the trace.
pub needs_value-EndsIn {ℓ} :
    {prog : String} {A : Type ℓ} {P : A → Type 0} (flag : String)
    → EndsIn prog P (exit 2 (needs_value flag))
unfolding needs_value
needs_value-EndsIn flag = error-EndsIn (_, refl) (inl refl)

pub unknown_option-EndsIn {ℓ} :
    {A : Type ℓ} {P : A → Type 0} (prog arg : String)
    → EndsIn prog P (exit 2 (unknown_option prog arg))
unfolding unknown_option
unknown_option-EndsIn prog arg = error-EndsIn (_, refl) (inr refl)

pub required-EndsIn {ℓ} :
    {A : Type ℓ} {P : A → Type 0} (prog : String) → EndsIn prog P (exit 2 (required prog))
unfolding required
required-EndsIn prog = error-EndsIn (_, refl) (inr refl)

pub l2_required-EndsIn {ℓ} :
    {A : Type ℓ} {P : A → Type 0} (prog : String) → EndsIn prog P (exit 2 l2_required)
unfolding l2_required
l2_required-EndsIn prog = error-EndsIn (_, refl) (inl refl)

pub stoull-lt : (b : ℕ) (t : Text) (n : ℕ) → stoull b t ≡ some n → n < u64_mod
unfolding stoull
stoull-lt b t n h = ground arith

pub number-EndsIn :
    {prog : String} (b : ℕ) (t : Text) → EndsIn prog (λ n. n < u64_mod) (number (stoull b t))
number-EndsIn b t = elim (Option-cases (stoull b t)) [
  | inl e ↦ rw e (record { ends = tt })
  | inr (n, e) ↦ rw e (record { ends = stoull-lt b t n e })
]

pub some-EndsIn {ℓ} :
    {prog : String} {A : Type ℓ} (o : Option A) → EndsIn prog (λ a. Unit {0}) (number o)
some-EndsIn none = record { ends = tt }
some-EndsIn (some a) = record { ends = tt }

pub choice-EndsIn {ℓ} :
    {prog : String} {A : Type ℓ} (flag got valid : String) (o : Option A)
    → EndsIn prog (λ a. Unit {0}) (choice flag got valid o)
unfolding bad_value
choice-EndsIn flag got valid none = error-EndsIn (_, refl) (inl refl)
choice-EndsIn flag got valid (some a) = record { ends = tt }
