-- ===== src/Tests/Commands.antt =====
-- main at concrete arguments.
use cache_hierarchy_simulato.Prelude.{List, [], ◌∷◌, none, some, refl, ℕ, ◌≡◌, ◌⊎◌, ◌↔◌, true}
use cache_hierarchy_simulato.Config.{CacheConfig, fifo}
use Prim.Native.String.{String}
use cache_hierarchy_simulato.Text.{Text, codes, stoull}
use cache_hierarchy_simulato.Cache.{build}
use cache_hierarchy_simulato.Console.{cannot_open}
use cache_hierarchy_simulato.Outcome.{go, exit, uncaught, crash}
use cache_hierarchy_simulato.Hierarchy.{CacheHierarchy}
use cache_hierarchy_simulato.Options.{Options, parse_args, set_value, set_flag, configure}
use cache_hierarchy_simulato.Options.Ends.{IsRefusal}
use cache_hierarchy_simulato.Program.{Host, defaults, default_config, main}
use cache_hierarchy_simulato.Program.Exits.{Accepted, Simulates, run_output, main-exit, main-go}
use cache_hierarchy_simulato.Tests.{program, numbers}
use cache_hierarchy_simulato.Tests.Reports.{rounded}

-- One file, doubles that are numbers, and no std::stod.
abbrev text : Text
text = codes " L 10,4\n S 18,8\n"

abbrev host : Host ℕ
host = record {
  stod = λ t. none;
  one = 1;
  ten = 10;
  hundred = 100;
  double = rounded;
  show = λ f x. x ∷ [];
  rand = numbers;
  open_file = λ path. none;
}

abbrev reader : Host ℕ
reader = record host { open_file = λ path. some text }

abbrev args : List String
args = "--trace" ∷ "t" ∷ "--l1-size" ∷ "32" ∷ "--l1-block" ∷ "8" ∷ "--l1-repl" ∷ "fifo" ∷ []

no_trace : main host "cachesim" args ≡ exit 1 (cannot_open "t")
unfolding main parse_args set_value set_flag configure stoull
no_trace = refl

-- A value that is no number ends main with an exception.
no_size : main host "cachesim" ("--l1-size" ∷ "abc" ∷ []) ≡ uncaught
unfolding main parse_args set_value set_flag configure stoull
no_size = refl

-- The options `--l1-block 0 --l1-assoc full` end it with a division by zero.
no_block :
    main host "cachesim"
      ("--trace" ∷ "t" ∷ "--l1-size" ∷ "32" ∷ "--l1-block" ∷ "0" ∷ "--l1-assoc" ∷ "full" ∷ [])
    ≡ crash
unfolding main parse_args set_value set_flag configure stoull
no_block = refl

main-exit_example :
    IsRefusal "cachesim" 1 (cannot_open "t")
    ⊎ ((o : Options ℕ) × (cfgs : List (CacheConfig ℕ)) × Accepted host "cachesim" args o cfgs
        × (host.open_file o.trace_path ≡ none)
        × ◌≡◌ {A = ℕ} 1 1
        × (cannot_open "t" ≡ cannot_open o.trace_path))
main-exit_example = main-exit host "cachesim" args 1 (cannot_open "t") no_trace

-- The options of `args`, and the hierarchy of its one cache.
abbrev level : CacheConfig ℕ
level = record (default_config {W = ℕ} "L1" 1) {
  size_bytes = 32;
  block_size = 8;
  replacement = fifo;
}

abbrev options : Options ℕ
options = record (defaults reader) {
  trace_path = "t";
  l1 = level;
  have_l1_size = true;
  have_l1_block = true;
}

abbrev single : (n : ℕ) × CacheHierarchy ℕ n
single = (
  0,
  record {
    world = record { draws = 0; level = (build level 4, record { reads = 0; writes = 0 }) };
    mem_time = 100;
    fed = 0;
  },
)

args-Simulates : Simulates reader "cachesim" args options (level ∷ []) text single
unfolding program main parse_args set_value set_flag configure stoull
args-Simulates = ((refl, refl), refl, refl)

main-go_example :
    (main reader "cachesim" args ≡ go (run_output reader "cachesim" options text single.1)) ↔ (
      (o : Options ℕ) × (cfgs : List (CacheConfig ℕ)) × (t : Text) × (h : (n : ℕ) × CacheHierarchy ℕ
          n)
      × Simulates reader "cachesim" args o cfgs t h
      × (run_output reader "cachesim" options text single.1 ≡ run_output reader "cachesim" o t h.1))
main-go_example =
    main-go reader "cachesim" args (run_output reader "cachesim" options text single.1)

args-ran : main reader "cachesim" args ≡ go (run_output reader "cachesim" options text single.1)
args-ran =
    (main-go reader "cachesim" args (run_output reader "cachesim" options text single.1)).1
      (options, level ∷ [], text, single, args-Simulates, refl)
