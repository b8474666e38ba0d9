-- ===== src/Program/Exits.antt =====
-- The ways in which main ends, and what it writes then.
use Prim.Native.String.{String}
use mathlib.Core.Path.{subst}
use cache_hierarchy_simulato.Prelude.{
  Option-cases, inl, inr, ℕ, suc, ◌≡◌, ◌⊎◌, ◌↔◌, refl, sym, ap, ◌∙◌, List, [], none, some, length,
  All, arith,
}
use cache_hierarchy_simulato.Config.{CacheConfig}
use cache_hierarchy_simulato.Text.{Text, codes}
use cache_hierarchy_simulato.Console.{Printed, cannot_open}
use cache_hierarchy_simulato.Outcome.{Outcome, go, exit, ◌>>=◌}
use cache_hierarchy_simulato.Cache.{ok}
use cache_hierarchy_simulato.Cache.Construct.{IsWords}
use cache_hierarchy_simulato.Trace.Reader.{split_lines, read_all}
use cache_hierarchy_simulato.Trace.Stream.{records, read_all-records}
use cache_hierarchy_simulato.Hierarchy.{CacheHierarchy, construct_hierarchy}
use cache_hierarchy_simulato.Hierarchy.Invariant.{check_hierarchy-run}
use cache_hierarchy_simulato.Options.{Options, parse_args, configure}
use cache_hierarchy_simulato.Options.Ends.{IsRefusal, EndsIn, bind-EndsIn, go-EndsIn}
use cache_hierarchy_simulato.Options.Words.{WordOptions, parse_args-EndsIn, configure-EndsIn}
use cache_hierarchy_simulato.Program.{Host, construction, opened, defaults, simulate, main}
use cache_hierarchy_simulato.Program.Output.{output}
use cache_hierarchy_simulato.Program.Ends.{
  bind-exit, bind-go, exit-injective, go-injective, go-not_exit, exit-IsRefusal, go-value,
  construction-EndsIn,
}

module _ {W : Type 0} (host : Host W) (prog : String) where
  -- What a run prints where main returns 0.
  abbrev pub run_output : Options W → Text → {n : ℕ} → CacheHierarchy W n → Printed
  run_output o text h = record {
    out =
        output host.double host.show host.rand o.verbose o.json (codes o.trace_path)
          (records (split_lines text)) h;
    err = [];
  }

  -- The simulation of a constructed hierarchy finds no violated invariant.
  simulate-output :
      (cfgs : List (CacheConfig W)) (o : Options W) (text : Text) (p : (n : ℕ) × CacheHierarchy W n)
      → All IsWords cfgs
      → construct_hierarchy W cfgs o.mem_time 0 ≡ ok p
      → simulate host o text p ≡ go (run_output o text p.1)
  unfolding simulate output
  simulate-output cfgs o text p words built =
      let lines = split_lines text in
      let trace = read_all (suc (length lines)) lines in
      rw
        (
          check_hierarchy-run W host.rand cfgs o.mem_time 0 {p = p} o.verbose trace words built,
          read_all-records (suc (length lines)) lines (omega arith),
        )
        refl

  parsed-EndsIn :
      (args : List String)
      → EndsIn prog WordOptions (parse_args host.stod prog none (defaults host) args)
  parsed-EndsIn args =
      parse_args-EndsIn prog host.stod none (defaults host) args
        ((omega arith, omega arith, omega arith), (omega arith, omega arith, omega arith))

  -- The options and the configurations that main has when it opens the trace.
  abbrev pub Accepted : List String → Options W → List (CacheConfig W) → Type 0
  Accepted args o cfgs =
      (parse_args host.stod prog none (defaults host) args ≡ go o) × (configure prog o ≡ go cfgs)

  -- What main does with the text of the trace.
  abbrev simulation : Options W → List (CacheConfig W) → Text → Outcome Printed
  simulation o cfgs text =
      construction (construct_hierarchy W cfgs o.mem_time 0) >>= simulate host o text

  simulation-EndsIn :
      (cfgs : List (CacheConfig W)) (o : Options W) (text : Text)
      → All IsWords cfgs
      → EndsIn prog (λ r. Unit {0}) (simulation o cfgs text)
  simulation-EndsIn cfgs o text words =
      bind-EndsIn (construction-EndsIn (construct_hierarchy W cfgs o.mem_time 0))
        (λ p built. rw (simulate-output cfgs o text p words built) (go-EndsIn tt))

  -- An exit code of main is that of `--help`, which prints the usage on std::cout only; or 2, with an
  -- error message on std::cerr and nothing but perhaps the usage on std::cout; or 1, which says that
  -- the trace of accepted options cannot be opened. In particular, whatever the arguments, the file
  -- and std::rand() are, main never reports a violated invariant.
  pub main-exit :
      (args : List String) (n : ℕ) (p : Printed)
      → main host prog args ≡ exit n p
      → IsRefusal prog n p
        ⊎ ((o : Options W) × (cfgs : List (CacheConfig W)) × Accepted args o cfgs
            × (host.open_file o.trace_path ≡ none)
            × (n ≡ 1)
            × (p ≡ cannot_open o.trace_path))
  unfolding main
  main-exit args n p e = elim (bind-exit _ _ (parsed-EndsIn args) e) [
    | inl refused ↦ inl refused
    | inr (o, parsed, words, rest) ↦ elim (bind-exit _ _ (configure-EndsIn prog o words) rest) [
      | inl refused ↦ inl refused
      | inr (cfgs, configured, level_words, rest') ↦
          elim (Option-cases (host.open_file o.trace_path)) [
            | inl missing ↦
                let (code, shown) = exit-injective (
                  subst (λ t. (opened o.trace_path t >>= simulation o cfgs) ≡ exit n p) missing
                    rest') in
                inr (o, cfgs, (parsed, configured), missing, code, shown)
            | inr (text, found) ↦ inl (
                exit-IsRefusal (simulation-EndsIn cfgs o text level_words) (
                  subst (λ t. (opened o.trace_path t >>= simulation o cfgs) ≡ exit n p) found
                    rest'))
          ]
    ]
  ]

  -- main returns 1 only if it accepts the options and the trace file cannot be opened.
  pub main-exit_one :
      (args : List String) (p : Printed)
      → main host prog args ≡ exit 1 p
      → (o : Options W) × (cfgs : List (CacheConfig W)) × Accepted args o cfgs
        × (host.open_file o.trace_path ≡ none)
  main-exit_one args p e = elim (main-exit args 1 p e) [
    | inl (inl (code, shown, quiet)) ↦ absurd (omega arith)
    | inl (inr (code, message, shown)) ↦ absurd (omega arith)
    | inr (o, cfgs, accepted, missing, code, shown) ↦ (o, cfgs, accepted, missing)
  ]

  -- The options are accepted, the trace can be opened, and the hierarchy is constructed.
  abbrev pub Simulates :
      List String → Options W → List (CacheConfig W) → Text → (n : ℕ) × CacheHierarchy W n → Type 0
  Simulates args o cfgs text h =
      Accepted args o cfgs
      × (host.open_file o.trace_path ≡ some text)
      × (construct_hierarchy W cfgs o.mem_time 0 ≡ ok h)

  main-go_inv :
      (args : List String) (p : Printed)
      → main host prog args ≡ go p
      → (o : Options W) × (cfgs : List (CacheConfig W)) × (text : Text) × (h : (n : ℕ)
          × CacheHierarchy W n)
        × Simulates args o cfgs text h
        × (p ≡ run_output o text h.1)
  unfolding main
  main-go_inv args p e =
      let (o, parsed, words, rest) = bind-go _ _ (parsed-EndsIn args) e in
      let (cfgs, configured, level_words, rest') =
        bind-go _ _ (configure-EndsIn prog o words) rest in
      elim (Option-cases (host.open_file o.trace_path)) [
        | inl missing ↦ absurd (
            go-not_exit
              (subst (λ t. (opened o.trace_path t >>= simulation o cfgs) ≡ go p) missing rest'))
        | inr (text, found) ↦
            let (h, _, built, shown) =
              bind-go {prog = prog} (construction (construct_hierarchy W cfgs o.mem_time 0))
                (simulate host o text)
                (construction-EndsIn (construct_hierarchy W cfgs o.mem_time 0))
                (subst (λ t. (opened o.trace_path t >>= simulation o cfgs) ≡ go p) found rest') in
            (
              o,
              cfgs,
              text,
              h,
              ((parsed, configured), found, built),
              go-injective (sym shown ∙ simulate-output cfgs o text h level_words built),
            )
      ]

  main-go_of :
      (args : List String) (o : Options W) (cfgs : List (CacheConfig W)) (text : Text)
      (h : (n : ℕ) × CacheHierarchy W n)
      → Simulates args o cfgs text h
      → main host prog args ≡ go (run_output o text h.1)
  unfolding main
  main-go_of args o cfgs text h (accepted, found, built) =
      let words = go-value (parsed-EndsIn args) accepted.0 in
      let level_words = go-value (configure-EndsIn prog o words) accepted.1 in
      rw (accepted.0, accepted.1, found, built) (simulate-output cfgs o text h level_words built)

  -- main returns 0 after a simulation exactly if it accepts the options, the trace can be opened and
  -- the hierarchy is constructed. Then std::cerr is empty, and std::cout has the log and the report of
  -- the run on the records of the lines of the file, with the note on the invariants after a report
  -- that is not JSON.
  pub main-go :
      (args : List String) (p : Printed)
      → (main host prog args ≡ go p) ↔ (
          (o : Options W) × (cfgs : List (CacheConfig W)) × (text : Text) × (h : (n : ℕ)
            × CacheHierarchy W n)
          × Simulates args o cfgs text h
          × (p ≡ run_output o text h.1))
  main-go args p = (
    main-go_inv args p,
    λ (o, cfgs, text, h, simulates, shown).
        main-go_of args o cfgs text h simulates ∙ ap (λ (q : Printed). go q) (sym shown),
  )
