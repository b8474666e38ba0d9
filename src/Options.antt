-- ===== src/Options.antt =====
-- src/main.cpp: the options of the command line, and what main does with them. `stod` is the
-- parser of floating-point numbers, and the three defaults are its constants.
pub mod Ends
pub mod Words
use Prim.Native.String.{String, compare}
use text.Mathlib.Text.{is_eq}
use cache_hierarchy_simulato.Prelude.{
  ℕ, zero, suc, ◌+◌, ◌/◌, Bool, true, false, not, ◌&&◌, ◌||◌, List, [], ◌∷◌, Option, none, some,
  ◌==◌, if◌then◌else◌, length,
}
use cache_hierarchy_simulato.Config.{
  ReplacementType, lru, fifo, random, WritePolicy, write_back, write_through, AllocPolicy,
  write_allocate, no_write_allocate, CacheConfig,
}
use cache_hierarchy_simulato.Text.{Text, codes, stoull}
use cache_hierarchy_simulato.Console.{usage, needs_value, unknown_option, required, l2_required}
use cache_hierarchy_simulato.Outcome.{
  Outcome, go, exit, uncaught, crash, ◌>>=◌, ◌>>◌, exit_if, number, choice,
}

abbrev pub is : String → String → Bool
is a b = is_eq (compare a b)

unfoldable pub parse_repl : String → Option ReplacementType
parse_repl v =
    if is v "lru"
    then some lru
    else (if is v "fifo" then some fifo else (if is v "random" then some random else none))

unfoldable pub parse_write : String → Option WritePolicy
parse_write v =
    if is v "back" then some write_back else (if is v "through" then some write_through else none)

unfoldable pub parse_alloc : String → Option AllocPolicy
parse_alloc v =
    if is v "allocate"
    then some write_allocate
    else (if is v "no-allocate" then some no_write_allocate else none)

-- The variables of main that the loop over the arguments sets.
pub record Options (Double : Type 0) : Type 0 where
  pub trace_path : String
  pub l1 : CacheConfig Double
  pub l2 : CacheConfig Double
  pub l1_assoc : String
  pub l2_assoc : String
  pub mem_time : Double
  pub have_l1_size : Bool
  pub have_l1_block : Bool
  pub have_l2_size : Bool
  pub have_l2_block : Bool
  pub any_l2 : Bool
  pub verbose : Bool
  pub json : Bool

-- The options that `needVal` asks a value for.
abbrev pub takes_value : String → Bool
takes_value flag =
    is flag "--trace"
    || is flag "--l1-size"
    || is flag "--l1-block"
    || is flag "--l1-assoc"
    || is flag "--l1-repl"
    || is flag "--l1-write"
    || is flag "--l1-alloc"
    || is flag "--l2-size"
    || is flag "--l2-block"
    || (is flag "--l2-assoc"
        || is flag "--l2-repl"
        || is flag "--l2-write"
        || is flag "--l2-alloc"
        || is flag "--l1-hit"
        || is flag "--l2-hit"
        || is flag "--mem-time"
        || is flag "--addr-bits")

module _ {Double : Type 0} where
  -- `resolveAssoc`; a block size of 0 is a division by zero.
  unfoldable pub resolve_assoc : String → CacheConfig Double → Outcome ℕ
  resolve_assoc s cfg =
      if is s "full"
      then (if cfg.block_size == 0 then crash else go (cfg.size_bytes / cfg.block_size))
      else number (stoull 10 (codes s))

  -- `if (!assocStr.empty()) cfg.associativity = resolveAssoc(assocStr, cfg);`
  unfoldable pub with_assoc : String → CacheConfig Double → Outcome (CacheConfig Double)
  unfolding resolve_assoc
  with_assoc s cfg =
      if is s "" then go cfg else do n ← resolve_assoc s cfg; go (record cfg { associativity = n })

  -- The checks after the loop, and the list of configurations.
  unfoldable pub configure : String → Options Double → Outcome (List (CacheConfig Double))
  unfolding with_assoc
  configure prog o = do
    exit_if (is o.trace_path "" || not o.have_l1_size || not o.have_l1_block) 2 (required prog)
    exit_if (o.any_l2 && (not o.have_l2_size || not o.have_l2_block)) 2 l2_required
    l1 ← with_assoc o.l1_assoc o.l1
    l2 ← with_assoc o.l2_assoc o.l2
    go (if o.have_l2_size then l1 ∷ l2 ∷ [] else l1 ∷ [])

  -- An option without a value; `--help` returns 0, and an unknown one 2.
  unfoldable pub set_flag : String → String → Options Double → Outcome (Options Double)
  set_flag prog flag o =
      if is flag "--classify-3c"
      then go (record o {
        l1 = record o.l1 { classify_3c = true };
        l2 = record o.l2 { classify_3c = true };
      })
      else (if is flag "--json"
          then go (record o { json = true })
          else (if is flag "--verbose"
              then go (record o { verbose = true })
              else (if is flag "--help" || is flag "-h"
                  then exit 0 (record { out = usage prog; err = [] })
                  else exit 2 (unknown_option prog flag))))

  module _ (stod : Text → Option Double) where
    -- The branches of the options that take the value `v`: the hit times, the time of the memory and
    -- the address width;
    unfoldable pub set_times : String → String → Options Double → Outcome (Options Double)
    set_times flag v o =
        if is flag "--l1-hit"
        then (do x ← number (stod (codes v)); go (record o { l1 = record o.l1 { hit_time = x } }))
        else (if is flag "--l2-hit"
            then (do
              x ← number (stod (codes v))
              go (record o { l2 = record o.l2 { hit_time = x }; any_l2 = true }))
            else (if is flag "--mem-time"
                then (do x ← number (stod (codes v)); go (record o { mem_time = x }))
                else (if is flag "--addr-bits"
                    then (do
                      n ← number (stoull 10 (codes v))
                      go (record o {
                        l1 = record o.l1 { addr_width = n };
                        l2 = record o.l2 { addr_width = n };
                      }))
                    else (go o))))

    -- before them those of L2;
    unfoldable pub set_l2 : String → String → Options Double → Outcome (Options Double)
    unfolding parse_repl parse_write parse_alloc
    set_l2 flag v o =
        if is flag "--l2-size"
        then (do
          n ← number (stoull 10 (codes v))
          go (record o { l2 = record o.l2 { size_bytes = n }; have_l2_size = true; any_l2 = true }))
        else (if is flag "--l2-block"
            then (do
              n ← number (stoull 10 (codes v))
              go (record o {
                l2 = record o.l2 { block_size = n };
                have_l2_block = true;
                any_l2 = true;
              }))
            else (if is flag "--l2-assoc"
                then (go (record o { l2_assoc = v; any_l2 = true }))
                else (if is flag "--l2-repl"
                    then (do
                      x ← choice flag v "lru, fifo or random" (parse_repl v)
                      go (record o { l2 = record o.l2 { replacement = x }; any_l2 = true }))
                    else (if is flag "--l2-write"
                        then (do
                          x ← choice flag v "back or through" (parse_write v)
                          go (record o { l2 = record o.l2 { write_policy = x }; any_l2 = true }))
                        else (if is flag "--l2-alloc"
                            then (do
                              x ← choice flag v "allocate or no-allocate" (parse_alloc v)
                              go (record o {
                                l2 = record o.l2 { alloc_policy = x };
                                any_l2 = true;
                              }))
                            else (set_times flag v o))))))

    -- and first the trace and L1.
    unfoldable pub set_value : String → String → Options Double → Outcome (Options Double)
    unfolding parse_repl parse_write parse_alloc set_l2 set_times
    set_value flag v o =
        if is flag "--trace"
        then (go (record o { trace_path = v }))
        else (if is flag "--l1-size"
            then (do
              n ← number (stoull 10 (codes v))
              go (record o { l1 = record o.l1 { size_bytes = n }; have_l1_size = true }))
            else (if is flag "--l1-block"
                then (do
                  n ← number (stoull 10 (codes v))
                  go (record o { l1 = record o.l1 { block_size = n }; have_l1_block = true }))
                else (if is flag "--l1-assoc"
                    then (go (record o { l1_assoc = v }))
                    else (if is flag "--l1-repl"
                        then (do
                          x ← choice flag v "lru, fifo or random" (parse_repl v)
                          go (record o { l1 = record o.l1 { replacement = x } }))
                        else (if is flag "--l1-write"
                            then (do
                              x ← choice flag v "back or through" (parse_write v)
                              go (record o { l1 = record o.l1 { write_policy = x } }))
                            else (if is flag "--l1-alloc"
                                then (do
                                  x ← choice flag v "allocate or no-allocate" (parse_alloc v)
                                  go (record o { l1 = record o.l1 { alloc_policy = x } }))
                                else (set_l2 flag v o)))))))

    -- The loop over the arguments. `waiting` is the option whose value comes next, and a missing
    -- value ends the program with 2. `prog` is argv[0].
    unfoldable pub parse_args :
        String → Option String → Options Double → List String → Outcome (Options Double)
    parse_args prog none o [] = go o
    parse_args prog (some flag) o [] = exit 2 (needs_value flag)
    parse_args prog (some flag) o (v ∷ args) = do
      o' ← set_value flag v o
      parse_args prog none o' args
    parse_args prog none o (arg ∷ args) = elim (takes_value arg) [
      | true ↦ parse_args prog (some arg) o args
      | false ↦ do o' ← set_flag prog arg o; parse_args prog none o' args
    ]
