-- ===== src/Program/Ends.antt =====
-- Where a result or an exit code of a part of main comes from.
use Prim.Native.String.{String}
use mathlib.Core.Path.{subst}
use cache_hierarchy_simulato.Prelude.{inl, inr, ℕ, ◌≡◌, ◌≢◌, ◌⊎◌, refl, sym, ap, []}
use cache_hierarchy_simulato.Console.{Printed, bad_geometry}
use cache_hierarchy_simulato.Outcome.{Outcome, go, exit, uncaught, crash, ◌>>=◌}
use cache_hierarchy_simulato.Cache.{
  Result, ok, failed, Failure, division_by_zero, no_next_level, zero_dimension, block_not_pow2,
  size_not_multiple, sets_not_pow2, no_cache_level,
}
use cache_hierarchy_simulato.Options.Ends.{IsRefusal, EndsIn, error-EndsIn, go-EndsIn}
use cache_hierarchy_simulato.Program.{construction}

abbrev code_of {ℓ} : {A : Type ℓ} → Outcome A → ℕ
code_of (exit n p) = n
code_of _ = 0

abbrev printed_of {ℓ} : {A : Type ℓ} → Outcome A → Printed
printed_of (exit n p) = p
printed_of _ = record { out = []; err = [] }

-- An exit code came from the first part, which refuses, or from the rest.
pub bind-exit {ℓ κ} :
    {prog : String} {A : Type ℓ} {B : Type κ} {P : A → Type 0} {n : ℕ} {p : Printed} (m : Outcome A)
    (f : A → Outcome B)
    → EndsIn prog P m
    → m >>= f ≡ exit n p
    → IsRefusal prog n p ⊎ ((a : A) × (m ≡ go a) × P a × (f a ≡ exit n p))
bind-exit (go a) f h e = inr (a, refl, h.ends, e)
bind-exit {prog} {B} (exit n p) f h e =
    inl (subst (λ (o : Outcome B). IsRefusal prog (code_of o) (printed_of o)) e h.ends)
bind-exit uncaught f h e = cc
bind-exit crash f h e = cc

-- A result came through both parts.
pub bind-go {ℓ κ} :
    {prog : String} {A : Type ℓ} {B : Type κ} {P : A → Type 0} {b : B} (m : Outcome A)
    (f : A → Outcome B)
    → EndsIn prog P m
    → m >>= f ≡ go b
    → (a : A) × (m ≡ go a) × P a × (f a ≡ go b)
bind-go (go a) f h e = (a, refl, h.ends, e)
bind-go (exit n p) f h e = cc
bind-go uncaught f h e = cc
bind-go crash f h e = cc

pub exit-injective {ℓ} :
    {A : Type ℓ} {n m : ℕ} {p q : Printed}
    → ◌≡◌ {A = Outcome A} (exit n p) (exit m q)
    → (m ≡ n) × (q ≡ p)
exit-injective e = (sym (ap code_of e), sym (ap printed_of e))

pub go-injective {ℓ} : {A : Type ℓ} {a b : A} → ◌≡◌ {A = Outcome A} (go a) (go b) → a ≡ b
go-injective e = cc

pub go-not_exit {ℓ} : {A : Type ℓ} {a : A} {n : ℕ} {p : Printed} → exit n p ≢ go a
go-not_exit e = cc

pub exit-IsRefusal {ℓ} :
    {prog : String} {A : Type ℓ} {P : A → Type 0} {n : ℕ} {p : Printed} {m : Outcome A}
    → EndsIn prog P m
    → m ≡ exit n p
    → IsRefusal prog n p
exit-IsRefusal {prog} {P} h e = (subst (λ o. EndsIn prog P o) e h).ends

pub go-value {ℓ} :
    {prog : String} {A : Type ℓ} {P : A → Type 0} {a : A} {m : Outcome A}
    → EndsIn prog P m
    → m ≡ go a
    → P a
go-value {prog} {P} h e = (subst (λ o. EndsIn prog P o) e h).ends

bad_geometry-EndsIn :
    {prog : String} {A : Type 0} {P : A → Type 0} (f : Failure)
    → EndsIn prog P (exit 2 (bad_geometry f))
unfolding bad_geometry
bad_geometry-EndsIn f = error-EndsIn (_, refl) (inl refl)

pub construction-EndsIn :
    {prog : String} {A : Type 0} (m : Result A) → EndsIn prog (λ a. m ≡ ok a) (construction m)
construction-EndsIn (ok a) = go-EndsIn refl
construction-EndsIn (failed division_by_zero) = record { ends = tt }
construction-EndsIn (failed no_next_level) = bad_geometry-EndsIn no_next_level
construction-EndsIn (failed zero_dimension) = bad_geometry-EndsIn zero_dimension
construction-EndsIn (failed block_not_pow2) = bad_geometry-EndsIn block_not_pow2
construction-EndsIn (failed size_not_multiple) = bad_geometry-EndsIn size_not_multiple
construction-EndsIn (failed sets_not_pow2) = bad_geometry-EndsIn sets_not_pow2
construction-EndsIn (failed no_cache_level) = bad_geometry-EndsIn no_cache_level
