-- ===== src/Program/Output.antt =====
-- What main of src/main.cpp prints of a simulation: the verbose log, and one of the two reports.
use mathlib.Core.Path.{ap₂}
use cache_hierarchy_simulato.Prelude.{
  ℕ, ◌≡◌, refl, ap, sym, ◌∙◌, Bool, true, false, List, [], ◌∷◌, ◌++◌, if◌then◌else◌,
}
use cache_hierarchy_simulato.Text.{Text, codes}
use cache_hierarchy_simulato.Trace.{Op, read, write, modify, instr}
use cache_hierarchy_simulato.Trace
use cache_hierarchy_simulato.Hierarchy.{Echo, CacheHierarchy, run}
use cache_hierarchy_simulato.Hierarchy.Log.{SameState, run-SameState, run-quiet}
use cache_hierarchy_simulato.Report.Stream.{StreamFormat, initial, set_dec}
use cache_hierarchy_simulato.Report.{Double, report_all, echo_line, compute_amat}
use cache_hierarchy_simulato.Report.Json.{report_json}

-- The lines of the log, and the stream after them.
unfoldable pub log_text : StreamFormat → List Echo → Text × StreamFormat
log_text f [] = ([], f)
log_text f (e ∷ es) =
    let (line, g) = echo_line f e in let (rest, k) = log_text g es in (line ++ rest, k)

-- The last line of the output.
abbrev pub closing : (json : Bool) → Text
closing json = if json then [] else codes "invariants: OK\n"

module _ {W : Type 0} (d : Double W) (show : StreamFormat → W → Text) where
  -- The report after the trace, on a stream of the format that the log leaves.
  unfoldable pub report_text :
      StreamFormat → (json : Bool) → Text → {n : ℕ} → CacheHierarchy W n → Text
  report_text f json path h =
      if json then (report_json d show f path h).0 else (report_all d show f h).0

  -- The whole output of a run on a trace, where the checks of the invariants pass.
  unfoldable pub output :
      (rand : ℕ → ℕ) (verbose json : Bool)
      → Text
      → List Trace.Access
      → {n : ℕ} → CacheHierarchy W n
      → Text
  output rand verbose json path trace h =
      let (h', log) = run W rand verbose trace h in
      let (text, f) = log_text initial log in text ++ (report_text f json path h' ++ closing json)

module _ {W : Type 0} (d : Double W) (show : StreamFormat → W → Text) (rand : ℕ → ℕ) where
  report_text-SameState :
      (f : StreamFormat) (json : Bool) (path : Text) {n : ℕ} {h h' : CacheHierarchy W n}
      → SameState rand h h'
      → report_text d show f json path h ≡ report_text d show f json path h'
  unfolding report_text report_json report_all compute_amat
  report_text-SameState f json path {n} s =
      ap₂
        (λ w m.
          report_text d show f json path {n = n} (record { world = w; mem_time = m; fed = 0 }))
        s.world s.mem_time

  -- Every line of the log leaves the stream of a decimal format as it is.
  log_text-format : (f : StreamFormat) (es : List Echo) → f.hex ≡ false → (log_text f es).1 ≡ f
  unfolding log_text echo_line
  log_text-format f [] h = refl
  log_text-format f (e ∷ es) h =
      log_text-format (set_dec f) es refl ∙ ap (λ b. record f { hex = b }) (sym h)

  -- With --verbose the program prints its log, and then exactly what it prints without: the log
  -- changes neither the counters nor the calls of std::rand() nor the format in which the stream
  -- prints the report.
  pub output-verbose :
      (json : Bool) (path : Text) (trace : List Trace.Access) {n : ℕ} (h : CacheHierarchy W n)
      → output d show rand true json path trace h
        ≡ (log_text initial (run W rand true trace h).1).0
          ++ output d show rand false json path trace h
  unfolding output log_text
  output-verbose json path trace h =
      let same =
        run-SameState rand true false trace {h = h} {h' = h}
          (record { world = refl; mem_time = refl }) in
      let es = (run W rand true trace h).1 in
      let h' = (run W rand false trace h).0 in
      ap (λ t. (log_text initial es).0 ++ t)
        (ap (λ f. report_text d show f json path (run W rand true trace h).0 ++ closing json)
            (log_text-format initial es refl)
          ∙ ap (λ t. t ++ closing json) (report_text-SameState initial json path same)
          ∙ ap
              (λ quiet.
                let (text, f) = log_text initial quiet in
                text ++ (report_text d show f json path h' ++ closing json))
              (sym (run-quiet rand trace h)))
