-- ===== src/Report/Json/Scan.antt =====
-- A reader of JSON text that follows the quotes and the brackets, and the parts that keep its state.
use Prim.Native.String.{String}
use native.Mathlib.Nat.{mod-lt}
use cache_hierarchy_simulato.Prelude.{
  ◌≤◌, ℕ, zero, suc, ◌+◌, ◌/◌, ◌%◌, ◌<◌, ◌≡◌, refl, ap, sym, ◌∙◌, Bool, true, false, not, ◌||◌,
  List, [], ◌∷◌, ◌++◌, Option, none, some, inl, inr, All, ◌==◌, ltb, if◌then◌else◌, arith,
  Bool-cases,
}
use cache_hierarchy_simulato.Text.{Text, codes}
use cache_hierarchy_simulato.Trace.Format.{digit_char, print_loop, print_number}
use cache_hierarchy_simulato.Report.Stream.{StreamFormat, radix}
use cache_hierarchy_simulato.Report.{labelled, field}
use cache_hierarchy_simulato.Report.Json.{json_escape, quoted}

-- Where a reader of the text stands: outside of the strings, in a string, or after a backslash.
pub data Mode : Type 0 where
  outside inside escaped : Mode

-- The mode, and the brackets that are open, the innermost first. A closing bracket stands two places
-- after its opening one in ASCII.
abbrev pub State : Type 0
State = Mode × List ℕ

abbrev close : ℕ → List ℕ → Option State
close c [] = none
close c (x ∷ depth) = if c == x + 2 then some (outside, depth) else none

unfoldable pub read_char : ℕ → State → Option State
read_char c (outside, depth) =
    if c == b'"'
    then some (inside, depth)
    else (if c == b'{' || c == b'['
        then some (outside, c ∷ depth)
        else (if c == b'}' || c == b']' then close c depth else some (outside, depth)))
read_char c (inside, depth) =
    some (if c == b'"' then outside else (if c == b'\\' then escaped else inside), depth)
read_char c (escaped, depth) = some (inside, depth)

abbrev and_then : Option State → (State → Option State) → Option State
and_then none f = none
and_then (some s) f = f s

-- The state after a text, if no closing bracket is wrong.
unfoldable pub scan : Text → State → Option State
scan [] s = some s
scan (c ∷ cs) s = and_then (read_char c s) (scan cs)

and_then_assoc :
    (o : Option State) (f g : State → Option State)
    → and_then (and_then o f) g ≡ and_then o (λ s. and_then (f s) g)
and_then_assoc none f g = refl
and_then_assoc (some s) f g = refl

and_then_same :
    (o : Option State) (f g : State → Option State)
    → ((s : State) → f s ≡ g s)
    → and_then o f ≡ and_then o g
and_then_same none f g h = refl
and_then_same (some s) f g h = h s

scan-append : (a b : Text) (s : State) → scan (a ++ b) s ≡ and_then (scan a s) (scan b)
unfolding scan
scan-append [] b s = refl
scan-append (c ∷ cs) b s =
    and_then_same (read_char c s) _ _ (λ s'. scan-append cs b s')
    ∙ sym (and_then_assoc (read_char c s) (scan cs) (scan b))

-- The text leads from one state to the other.
pub record Leads (t : Text) (s s' : State) : Type 0 where
  pub scanned : scan t s ≡ some s'

infixl 5 ◌▹◌
pub ◌▹◌ : {a b : Text} {s s' s'' : State} → Leads a s s' → Leads b s' s'' → Leads (a ++ b) s s''
◌▹◌ {a} {b} {s} p q = record {
  scanned = scan-append a b s ∙ ap (λ o. and_then o (scan b)) p.scanned ∙ q.scanned;
}

-- A text that can stand outside of strings without a change.
pub record Keeps (t : Text) : Type 0 where
  pub keep : (depth : List ℕ) → Leads t (outside, depth) (outside, depth)

-- Neither quote nor bracket.
abbrev pub is_plain : ℕ → Bool
is_plain c = not (c == b'"' || ((c == b'{' || c == b'[') || (c == b'}' || c == b']')))

plain-scan :
    (t : Text) (depth : List ℕ)
    → All (λ c. is_plain c ≡ true) t
    → scan t (outside, depth) ≡ some (outside, depth)
unfolding scan read_char
plain-scan [] depth h = refl
plain-scan (c ∷ cs) depth h = let rest = plain-scan cs depth h.1 in ground (arith, rest, h.0)

pub plain-Keeps : {t : Text} → All (λ c. is_plain c ≡ true) t → Keeps t
plain-Keeps {t} h = record { keep = λ depth. record { scanned = plain-scan t depth h } }

-- Neither quote nor backslash.
abbrev pub is_literal : ℕ → Bool
is_literal c = not (c == b'"' || c == b'\\')

pub literal-scan :
    (t : Text) (depth : List ℕ)
    → All (λ c. is_literal c ≡ true) t
    → scan t (inside, depth) ≡ some (inside, depth)
unfolding scan read_char
literal-scan [] depth h = refl
literal-scan (c ∷ cs) depth h = let rest = literal-scan cs depth h.1 in ground (arith, rest, h.0)

pub escaped-scan :
    (t : Text) (depth : List ℕ) → scan (json_escape t) (inside, depth) ≡ some (inside, depth)
unfolding scan read_char json_escape
escaped-scan [] depth = refl
escaped-scan (c ∷ cs) depth =
    let rest = escaped-scan cs depth in
    elim (Bool-cases (c == b'\\' || c == b'"')) [
      | inl special ↦ rw special rest
      | inr plain ↦ ground (arith, rest, plain)
    ]

-- The digits of a number are plain.
digit-plain : (d : ℕ) → d < 16 → is_plain (digit_char d) ≡ true
unfolding digit_char
digit-plain d h = ground arith

All-if :
    (P : ℕ → Type 0) (b : Bool) (x y : Text)
    → (b ≡ true → All P x)
    → All P y
    → All P (if b then x else y)
All-if P true x y h k = h refl
All-if P false x y h k = k

print-plain :
    (fuel base n : ℕ) (tail : Text)
    → 0 < base
    → base ≤ 16
    → All (λ c. is_plain c ≡ true) tail
    → All (λ c. is_plain c ≡ true) (print_loop fuel base n tail)
unfolding print_loop
print-plain zero base n tail some_base small h = h
print-plain (suc fuel) base n tail some_base small h =
    let below : n % base < base = mod-lt n some_base in
    let digit = digit-plain (n % base) (omega arith) in
    let rest =
      print-plain fuel base (n / base) (digit_char (n % base) ∷ tail) some_base small (digit, h) in
    All-if (λ c. is_plain c ≡ true) (ltb n base) _ _ (λ last. (digit-plain n (ground arith), h))
      rest

number-Keeps : (f : StreamFormat) (n : ℕ) → Keeps (print_number (radix f) n)
unfolding print_number
number-Keeps f n = elim (Bool-cases f.hex) [
  | inl e ↦ rw e (plain-Keeps (print-plain 64 16 n [] (omega arith) (omega arith) tt))
  | inr e ↦ rw e (plain-Keeps (print-plain 64 10 n [] (omega arith) (omega arith) tt))
]

-- A label before a text or before a string in quotes.
pub labelled-Leads :
    (label : String) (t : Text) {s s' s'' : State}
    → scan (codes label) s ≡ some s'
    → Leads t s' s''
    → Leads (labelled label t) s s''
unfolding labelled
labelled-Leads label t p q = record { scanned = p } ▹ q

pub field-Leads :
    (f : StreamFormat) (label : String) (n : ℕ) {s : State} {depth : List ℕ}
    → scan (codes label) s ≡ some (outside, depth)
    → Leads (field f label n) s (outside, depth)
field-Leads f label n {s} {depth} p = labelled-Leads label _ p ((number-Keeps f n).keep depth)

pub quoted-Leads :
    (label : String) (t : Text) {s : State} {depth : List ℕ}
    → scan (codes label) s ≡ some (outside, depth)
    → scan t (inside, depth) ≡ some (inside, depth)
    → Leads (quoted label t) s (outside, depth)
unfolding quoted scan read_char
quoted-Leads label t {s} {depth} p q = labelled-Leads label _ p (record {
  scanned = scan-append t (b'"' ∷ []) (inside, depth) ∙ ap (λ o. and_then o (scan (b'"' ∷ []))) q;
})
