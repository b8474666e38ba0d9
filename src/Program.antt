-- ===== src/Program.antt =====
-- src/main.cpp: main as a whole, with its exit codes and what it writes on its two streams.
pub mod Ends
pub mod Exits
pub mod Output
use Prim.Native.String.{String}
use cache_hierarchy_simulato.Prelude.{
  ℕ, suc, Bool, true, false, List, [], ◌∷◌, ◌++◌, Option, none, some, if◌then◌else◌, length,
}
use cache_hierarchy_simulato.Config.{lru, write_back, write_allocate, CacheConfig}
use cache_hierarchy_simulato.Text.{Text, codes}
use cache_hierarchy_simulato.Console.{Printed, cannot_open, bad_geometry, violated}
use cache_hierarchy_simulato.Outcome.{Outcome, go, exit, crash, ◌>>=◌}
use cache_hierarchy_simulato.Cache.{Result, ok, failed, Failure, division_by_zero}
use cache_hierarchy_simulato.Check.Messages.{print_levels}
use cache_hierarchy_simulato.Trace.Reader.{split_lines, read_all}
use cache_hierarchy_simulato.Hierarchy.{CacheHierarchy, construct_hierarchy, run, check_hierarchy}
use cache_hierarchy_simulato.Options.{Options, parse_args, configure}
use cache_hierarchy_simulato.Report.Stream.{StreamFormat, initial}
use cache_hierarchy_simulato.Report.{Double}
use cache_hierarchy_simulato.Program.Output.{log_text, report_text, closing}

-- The exceptions of the constructor end main with 2; a division by zero is no exception.
abbrev pub construction {ℓ} : {A : Type ℓ} → Result A → Outcome A
construction (ok a) = go a
construction (failed division_by_zero) = crash
construction (failed f) = exit 2 (bad_geometry f)

abbrev pub opened : String → Option Text → Outcome Text
opened path none = exit 1 (cannot_open path)
opened path (some text) = go text

-- A CacheConfig as main makes it before it reads the options.
abbrev pub default_config : {W : Type 0} → String → W → CacheConfig W
default_config name hit_time = record {
  name = name;
  size_bytes = 0;
  block_size = 0;
  associativity = 1;
  replacement = lru;
  write_policy = write_back;
  alloc_policy = write_allocate;
  hit_time = hit_time;
  addr_width = 64;
  classify_3c = false;
}

-- What main uses of its surroundings: std::stod, the constants 1.0, 10.0 and 100.0, the operations
-- and the printing of a double, std::rand() and the file system.
pub record Host (W : Type 0) : Type 0 where
  pub stod : Text → Option W
  pub one : W
  pub ten : W
  pub hundred : W
  pub double : Double W
  pub show : StreamFormat → W → Text
  pub rand : ℕ → ℕ
  pub open_file : String → Option Text

module _ {W : Type 0} (host : Host W) where
  abbrev pub defaults : Options W
  defaults = record {
    trace_path = "";
    l1 = default_config "L1" host.one;
    l2 = default_config "L2" host.ten;
    l1_assoc = "";
    l2_assoc = "";
    mem_time = host.hundred;
    have_l1_size = false;
    have_l1_block = false;
    have_l2_size = false;
    have_l2_block = false;
    any_l2 = false;
    verbose = false;
    json = false;
  }

  -- The simulation of a whole trace, the report, and the test at the end of main. The result is what
  -- is written where main returns 0.
  unfoldable pub simulate : Options W → Text → (n : ℕ) × CacheHierarchy W n → Outcome Printed
  simulate o file p =
      let lines = split_lines file in
      let trace = read_all (suc (length lines)) lines in
      let (h, log) = run W host.rand o.verbose trace p.1 in
      let path = codes o.trace_path in
      let (text, f) = log_text initial log in
      let report = report_text host.double host.show f o.json path h in
      if check_hierarchy W h
      then go (record { out = text ++ (report ++ closing o.json); err = [] })
      else exit 1 (record {
        out = text ++ report;
        err = print_levels W (suc p.0) h.world.level ++ violated;
      })

  -- main, with argv[0] and the arguments after it; it returns 0 where the outcome is `go`.
  unfoldable pub main : String → List String → Outcome Printed
  unfolding simulate
  main prog args = do
    o ← parse_args host.stod prog none defaults args
    cfgs ← configure prog o
    text ← opened o.trace_path (host.open_file o.trace_path)
    p ← construction (construct_hierarchy W cfgs o.mem_time 0)
    simulate o text p
