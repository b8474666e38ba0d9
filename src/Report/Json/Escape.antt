-- ===== src/Report/Json/Escape.antt =====
-- What jsonEscape writes between quotes, read as a JSON string.
use cache_hierarchy_simulato.Prelude.{
  ℕ, ◌≤◌, ◌≡◌, refl, ap, ◌∙◌, Bool, true, false, [], ◌∷◌, ◌++◌, Option, none, some, inl, inr, All,
  ◌==◌, ◌||◌, ltb, if◌then◌else◌, arith, Bool-cases,
}
use mathlib.Core.Option
use mathlib.Core.List.{append_assoc}
use cache_hierarchy_simulato.Text.{Text, codes}
use cache_hierarchy_simulato.Hierarchy.{CacheHierarchy}
use cache_hierarchy_simulato.Report.Stream.{StreamFormat}
use cache_hierarchy_simulato.Report.{Double, labelled}
use cache_hierarchy_simulato.Report.Json.{json_escape, quoted, report_json}

-- A JSON string after its first quote (RFC 8259): its bytes up to the quote that ends it, and the
-- text after that quote. A backslash stands before a quote or a backslash; the other escapes are not
-- read, and a control character is refused.
unfoldable pub read_string : (escaped : Bool) → Text → Option (Text × Text)
read_string escaped [] = none
read_string true (c ∷ cs) =
    let rest = Option.map (λ (p : Text × Text). (c ∷ p.0, p.1)) (read_string false cs) in
    if c == b'"' || c == b'\\' then rest else none
read_string false (c ∷ cs) =
    let plain = Option.map (λ (p : Text × Text). (c ∷ p.0, p.1)) (read_string false cs) in
    let escaped = read_string true cs in
    if c == b'"'
    then some ([], cs)
    else (if c == b'\\' then escaped else (if ltb c 32 then none else plain))

-- The text after a prefix.
unfoldable pub after_prefix : Text → Text → Option Text
after_prefix [] t = some t
after_prefix (p ∷ ps) [] = none
after_prefix (p ∷ ps) (c ∷ cs) = let rest = after_prefix ps cs in if p == c then rest else none

-- The string that stands for the key "trace" at the start of a JSON object.
unfoldable pub trace_of : Text → Option Text
trace_of t = elim (after_prefix (codes "{\"trace\":\"") t) [
  | none ↦ none
  | some body ↦ Option.map (λ (p : Text × Text). p.0) (read_string false body)
]

-- A text without control characters is read back from what jsonEscape makes of it, up to the quote
-- that follows, and the rest is left.
pub read_string-json_escape :
    (t rest : Text)
    → All (λ c. 32 ≤ c) t
    → read_string false (json_escape t ++ (b'"' ∷ rest)) ≡ some (t, rest)
unfolding read_string json_escape
read_string-json_escape [] rest h = refl
read_string-json_escape (c ∷ cs) rest h =
    let ih = read_string-json_escape cs rest h.1 in
    elim (Bool-cases (c == b'\\' || c == b'"')) [
      | inl special ↦ ground (arith, ih, special)
      | inr plain ↦ ground (arith, ih, plain)
    ]

module _ {W : Type 0} (d : Double W) (show : StreamFormat → W → Text) where
  -- The report in JSON names the path of the trace: read as a string, the value of its first key is
  -- the path, if that has no control character.
  pub trace_of-report_json :
      (f : StreamFormat) {n : ℕ} (path : Text) (h : CacheHierarchy W n)
      → All (λ c. 32 ≤ c) path
      → trace_of (report_json d show f path h).0 ≡ some path
  unfolding trace_of report_json after_prefix quoted labelled
  trace_of-report_json f path h printable =
      ap (λ t. Option.map (λ (p : Text × Text). p.0) (read_string false t))
        (append_assoc (json_escape path) (b'"' ∷ []) _)
      ∙ ap (Option.map (λ (p : Text × Text). p.0)) (read_string-json_escape path _ printable)
