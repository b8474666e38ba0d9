-- ===== src/Trace/Stream.antt =====
-- The whole trace: the loop over TraceReader::next against the records of the lines.
use cache_hierarchy_simulato.Prelude.{
  ℕ, zero, suc, ◌<◌, ◌≡◌, ◌⊎◌, refl, ap, List, [], ◌∷◌, none, some, arith, length, inl, inr,
  Option-cases,
}
use cache_hierarchy_simulato.Text.{Text}
use cache_hierarchy_simulato.Trace.{Access}
use cache_hierarchy_simulato.Trace.Reader.{parse_line, next, read_all}

-- The records of the lines that hold one, in order.
unfoldable pub records : List Text → List Access
records [] = []
records (line ∷ lines) = elim (parse_line line) [
  | none ↦ records lines
  | some a ↦ a ∷ records lines
]

-- A call of next finds the first record, and the lines after it are left.
next_lem :
    (lines : List Text)
    → ((next lines ≡ none) × (records lines ≡ []))
      ⊎ ((a : Access) × (rest : List Text) × (next lines ≡ some (a, rest))
          × (records lines ≡ a ∷ records rest)
          × (length rest < length lines))
unfolding next records
next_lem [] = inl (refl, refl)
next_lem (line ∷ lines) = elim (Option-cases (parse_line line)) [
  | inl skipped ↦
      rw (next, records, skipped)
        (elim (next_lem lines) [
          | inl (e, f) ↦ inl (e, f)
          | inr (a, rest, e, f, lt) ↦ inr (a, rest, e, f, omega arith)
        ])
  | inr (a, found) ↦ rw (next, records, found) (inr (a, lines, refl, refl, omega arith))
]

-- The loop of main that reads until next returns false hands on the record of every line that
-- holds one, in order, and more rounds than lines are enough.
pub read_all-records :
    (fuel : ℕ) (lines : List Text) → length lines < fuel → read_all fuel lines ≡ records lines
unfolding read_all
read_all-records zero lines h = absurd (omega arith)
read_all-records (suc fuel) lines h = elim (next_lem lines) [
  | inl (e, f) ↦ rw (read_all, e, f) refl
  | inr (a, rest, e, f, lt) ↦
      rw (read_all, e, f) (ap (λ found. a ∷ found) (read_all-records fuel rest (omega arith)))
]
