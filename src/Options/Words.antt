-- ===== src/Options/Words.antt =====
-- The numbers in the options of src/main.cpp.
use native.Mathlib.Nat.{div-le_self}
use Prim.Native.String.{String}
use cache_hierarchy_simulato.Prelude.{
  ◌<◌, Bool, true, false, ◌||◌, List, [], ◌∷◌, Option, none, some, ◌==◌, if◌then◌else◌, arith, All,
  Bool-cases, inl, inr,
}
use cache_hierarchy_simulato.Word.{u64_mod}
use cache_hierarchy_simulato.Config.{CacheConfig}
use cache_hierarchy_simulato.Cache.Construct.{IsWords}
use cache_hierarchy_simulato.Text.{Text, codes}
use cache_hierarchy_simulato.Options.{
  is, Options, takes_value, set_flag, set_value, set_l2, set_times, parse_args, parse_repl,
  parse_write, parse_alloc, resolve_assoc, with_assoc, configure,
}
use cache_hierarchy_simulato.Options.Ends.{
  EndsIn, bind-EndsIn, bind-EndsIn, bind-EndsIn, bind-EndsIn, bind-EndsIn, if-EndsIn, go-EndsIn,
  help-EndsIn, exit_if-EndsIn, needs_value-EndsIn, unknown_option-EndsIn, required-EndsIn,
  l2_required-EndsIn, number-EndsIn, some-EndsIn, choice-EndsIn,
}

module _ {Double : Type 0} where
  abbrev pub HasWords : CacheConfig Double → Type 0
  HasWords cfg =
      (cfg.size_bytes < u64_mod) × (cfg.block_size < u64_mod) × (cfg.associativity < u64_mod)

  abbrev pub WordOptions : Options Double → Type 0
  WordOptions o = HasWords o.l1 × HasWords o.l2

  -- An option with a value leaves 64-bit numbers.
  module _ (prog : String) (stod : Text → Option Double) (flag v : String) (o : Options Double)
      (h : WordOptions o) where
    set_times-EndsIn : EndsIn prog WordOptions (set_times stod flag v o)
    unfolding set_times
    set_times-EndsIn =
        if-EndsIn (is flag "--l1-hit")
          (bind-EndsIn (some-EndsIn (stod (codes v))) (λ x _. go-EndsIn h))
          (if-EndsIn (is flag "--l2-hit")
            (bind-EndsIn (some-EndsIn (stod (codes v))) (λ x _. go-EndsIn h))
            (if-EndsIn (is flag "--mem-time")
              (bind-EndsIn (some-EndsIn (stod (codes v))) (λ x _. go-EndsIn h))
              (if-EndsIn (is flag "--addr-bits")
                (bind-EndsIn (number-EndsIn 10 (codes v)) (λ x _. go-EndsIn h)) (go-EndsIn h))))

    set_l2-EndsIn : EndsIn prog WordOptions (set_l2 stod flag v o)
    unfolding set_l2
    set_l2-EndsIn =
        if-EndsIn (is flag "--l2-size")
          (bind-EndsIn (number-EndsIn 10 (codes v)) (λ n lt. go-EndsIn (h.0, (lt, h.1.1, h.1.2))))
          (if-EndsIn (is flag "--l2-block")
            (bind-EndsIn (number-EndsIn 10 (codes v)) (λ n lt. go-EndsIn (h.0, (h.1.0, lt, h.1.2))))
            (if-EndsIn (is flag "--l2-assoc") (go-EndsIn h) (
              if-EndsIn (is flag "--l2-repl")
                (bind-EndsIn (choice-EndsIn flag v "lru, fifo or random" (parse_repl v))
                  (λ x _. go-EndsIn h))
                (if-EndsIn (is flag "--l2-write")
                  (bind-EndsIn (choice-EndsIn flag v "back or through" (parse_write v))
                    (λ x _. go-EndsIn h))
                  (if-EndsIn (is flag "--l2-alloc")
                    (bind-EndsIn (choice-EndsIn flag v "allocate or no-allocate" (parse_alloc v))
                      (λ x _. go-EndsIn h))
                    (set_times-EndsIn))))))

    set_value-EndsIn : EndsIn prog WordOptions (set_value stod flag v o)
    unfolding set_value
    set_value-EndsIn = if-EndsIn (is flag "--trace") (go-EndsIn h) (
        if-EndsIn (is flag "--l1-size")
          (bind-EndsIn (number-EndsIn 10 (codes v)) (λ n lt. go-EndsIn ((lt, h.0.1, h.0.2), h.1)))
          (if-EndsIn (is flag "--l1-block")
            (bind-EndsIn (number-EndsIn 10 (codes v)) (λ n lt. go-EndsIn ((h.0.0, lt, h.0.2), h.1)))
            (if-EndsIn (is flag "--l1-assoc") (go-EndsIn h) (
              if-EndsIn (is flag "--l1-repl")
                (bind-EndsIn (choice-EndsIn flag v "lru, fifo or random" (parse_repl v))
                  (λ x _. go-EndsIn h))
                (if-EndsIn (is flag "--l1-write")
                  (bind-EndsIn (choice-EndsIn flag v "back or through" (parse_write v))
                    (λ x _. go-EndsIn h))
                  (if-EndsIn (is flag "--l1-alloc")
                    (bind-EndsIn (choice-EndsIn flag v "allocate or no-allocate" (parse_alloc v))
                      (λ x _. go-EndsIn h))
                    (set_l2-EndsIn)))))))

  set_flag-EndsIn :
      (prog flag : String) (o : Options Double)
      → WordOptions o
      → EndsIn prog WordOptions (set_flag prog flag o)
  unfolding set_flag
  set_flag-EndsIn prog flag o h = if-EndsIn (is flag "--classify-3c") (go-EndsIn h) (
      if-EndsIn (is flag "--json") (go-EndsIn h) (
        if-EndsIn (is flag "--verbose") (go-EndsIn h) (
          if-EndsIn (is flag "--help" || is flag "-h") (help-EndsIn prog)
            (unknown_option-EndsIn prog flag))))

  -- The loop over the arguments keeps the numbers of both configurations below 2^64.
  pub parse_args-EndsIn :
      (prog : String) (stod : Text → Option Double) (waiting : Option String) (o : Options Double)
      (args : List String)
      → WordOptions o
      → EndsIn prog WordOptions (parse_args stod prog waiting o args)
  unfolding parse_args
  parse_args-EndsIn prog stod none o [] h = go-EndsIn h
  parse_args-EndsIn prog stod (some flag) o [] h = needs_value-EndsIn flag
  parse_args-EndsIn prog stod (some flag) o (v ∷ args) h =
      bind-EndsIn (set_value-EndsIn prog stod flag v o h)
        (λ o' h'. parse_args-EndsIn prog stod none o' args h')
  parse_args-EndsIn prog stod none o (arg ∷ args) h = elim (Bool-cases (takes_value arg)) [
    | inl value ↦ rw (parse_args, value) (parse_args-EndsIn prog stod (some arg) o args h)
    | inr flag ↦
        rw (parse_args, flag)
          (bind-EndsIn (set_flag-EndsIn prog arg o h)
            (λ o' h'. parse_args-EndsIn prog stod none o' args h'))
  ]

  resolve_assoc-EndsIn :
      {prog : String} (s : String) (cfg : CacheConfig Double)
      → HasWords cfg
      → EndsIn prog (λ n. n < u64_mod) (resolve_assoc s cfg)
  unfolding resolve_assoc
  resolve_assoc-EndsIn s cfg h =
      if-EndsIn (is s "full")
        (if-EndsIn (cfg.block_size == 0) (record { ends = tt })
          (go-EndsIn (omega (arith, div-le_self cfg.size_bytes cfg.block_size))))
        (number-EndsIn 10 (codes s))

  with_assoc-EndsIn :
      {prog : String} (s : String) (cfg : CacheConfig Double)
      → HasWords cfg
      → EndsIn prog HasWords (with_assoc s cfg)
  unfolding with_assoc
  with_assoc-EndsIn s cfg h =
      if-EndsIn (is s "") (go-EndsIn h)
        (bind-EndsIn (resolve_assoc-EndsIn s cfg h) (λ n lt. go-EndsIn (h.0, h.1, lt)))

  pub HasWords-IsWords : (cfg : CacheConfig Double) → HasWords cfg → IsWords cfg
  HasWords-IsWords cfg h = record { size = h.0; block = h.1; ways = h.2 }

  levels-IsWords :
      (second : Bool) (l1 l2 : CacheConfig Double)
      → HasWords l1
      → HasWords l2
      → All IsWords (if second then l1 ∷ l2 ∷ [] else l1 ∷ [])
  levels-IsWords true l1 l2 h k = (HasWords-IsWords l1 h, (HasWords-IsWords l2 k, tt))
  levels-IsWords false l1 l2 h k = (HasWords-IsWords l1 h, tt)

  -- The configurations that main builds hold 64-bit numbers.
  pub configure-EndsIn :
      (prog : String) (o : Options Double)
      → WordOptions o
      → EndsIn prog (All IsWords) (configure prog o)
  unfolding configure
  configure-EndsIn prog o h = exit_if-EndsIn _ (required-EndsIn prog) (
      exit_if-EndsIn _ (l2_required-EndsIn prog) (
        bind-EndsIn (with_assoc-EndsIn o.l1_assoc o.l1 h.0) (λ l1 w1.
          bind-EndsIn (with_assoc-EndsIn o.l2_assoc o.l2 h.1)
            (λ l2 w2. go-EndsIn (levels-IsWords o.have_l2_size l1 l2 w1 w2)))))
