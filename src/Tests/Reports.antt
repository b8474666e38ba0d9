-- ===== src/Tests/Reports.antt =====
-- The reports of a small hierarchy.
use native.Mathlib.Nat.{mul-le-mul_right, div-le_of_le-mul}
use cache_hierarchy_simulato.Prelude.{
  ℕ, ◌+◌, ◌*◌, ◌/◌, ◌≤◌, leb, arith, ◌≡◌, refl, true, false, some, [], ◌++◌, All,
}
use cache_hierarchy_simulato.Config.{zero_stats}
use cache_hierarchy_simulato.Cache.{build}
use cache_hierarchy_simulato.Text.{Text, codes}
use cache_hierarchy_simulato.Hierarchy.{CacheHierarchy, run}
use cache_hierarchy_simulato.Hierarchy.First.{references}
use cache_hierarchy_simulato.Report.{Double, compute_amat}
use cache_hierarchy_simulato.Report.Stream.{StreamFormat, initial}
use cache_hierarchy_simulato.Report.Amat.{IsRounded}
use cache_hierarchy_simulato.Report.Runs.{run-compute_amat}
use cache_hierarchy_simulato.Report.Json.{report_json}
use cache_hierarchy_simulato.Report.Json.Escape.{trace_of, trace_of-report_json}
use cache_hierarchy_simulato.Report.Json.Balance.{scan-report_json}
use cache_hierarchy_simulato.Report.Json.Scan.{outside, scan}
use cache_hierarchy_simulato.Program.Output.{output, log_text, output-verbose}
use cache_hierarchy_simulato.Tests.{numbers, first, second, small, chain, trace}
use cache_hierarchy_simulato.Tests.Levels.{deep, two, short, two-built, two-room}

-- Doubles as natural numbers, which round a quotient down.
abbrev pub rounded : Double ℕ
rounded = record {
  nought = 0;
  hundred = 100;
  of_u64 = λ n. n;
  add = λ x y. x + y;
  mul = λ x y. x * y;
  div = λ x y. x / y;
}

rounded-IsRounded : IsRounded ℕ rounded
rounded-IsRounded = record {
  le = leb;
  one = 1;
  largest = 1000000;
  le_trans = λ x y z h k. ground arith;
  le_refl = λ x h. ground arith;
  nought_le_one = (refl, refl);
  add_mono = λ x y z h k l. ground arith;
  le_add = λ x y h k. ground arith;
  mul_le = λ r x h k l m.
      let one : r ≤ 1 = ground arith in
      let less : r * x ≤ 1 * x = mul-le-mul_right x one in ground arith;
  div_le = λ m n h k l. let less : m / n ≤ 1 = div-le_of_le-mul n (omega arith) in ground arith;
}

run-compute_amat_example :
    let amat = compute_amat rounded (run ℕ numbers false short two).0 in
    (leb 1 amat ≡ true) × (leb amat (1 + (10 + 100)) ≡ true)
unfolding rounded-IsRounded references
run-compute_amat_example =
    run-compute_amat rounded rounded-IsRounded numbers first deep 100 0 two false short two-built
      (omega arith) two-room refl refl refl refl

abbrev path : Text
path = codes "C:\\traces\\\"tiny\".trace"

-- The chain after four accesses, two of which missed in both levels.
abbrev used : CacheHierarchy ℕ 1
used = record {
  world = record {
    draws = 0;
    level = (
      record small { stats = record zero_stats { accesses = 4; hits = 2; misses = 2; reads = 4 } },
      (
        record (build second 2) {
          stats = record zero_stats { accesses = 2; misses = 2; reads = 2 };
        },
        record { reads = 2; writes = 0 },
      ),
    );
  };
  mem_time = 100;
  fed = 0;
}

-- A program that prints no digits.
abbrev dash : StreamFormat → ℕ → Text
dash f x = codes "-"

scan-report_json_example :
    scan (report_json rounded dash initial path used).0 (outside, []) ≡ some (outside, [])
scan-report_json_example =
    scan-report_json rounded dash (λ f x. (refl, tt)) initial path used
      ((refl, (refl, tt)), ((refl, (refl, tt)), tt))

path-printable : All (λ c. 32 ≤ c) path
path-printable = ground arith

trace_of-report_json_example : trace_of (report_json rounded dash initial path used).0 ≡ some path
trace_of-report_json_example = trace_of-report_json rounded dash initial path used path-printable

output-verbose_example :
    output rounded dash numbers true true path trace chain.1
    ≡ (log_text initial (run ℕ numbers true trace chain.1).1).0
      ++ output rounded dash numbers false true path trace chain.1
output-verbose_example = output-verbose rounded dash numbers true path trace chain.1
