-- ===== src/Console.antt =====
-- What src/main.cpp writes on its two streams beside the reports: the text of `usage` and the
-- messages of the errors.
use Prim.Native.String.{String}
use cache_hierarchy_simulato.Prelude.{List, [], ◌∷◌, ◌++◌}
use cache_hierarchy_simulato.Text.{Text, codes}
use cache_hierarchy_simulato.Cache.{
  Failure, no_next_level, zero_dimension, block_not_pow2, size_not_multiple, sets_not_pow2,
  division_by_zero, no_cache_level,
}

-- The texts on std::cout and std::cerr.
pub record Printed : Type 0 where
  pub out : Text
  pub err : Text

-- One text after the other.
abbrev pub joined : List Text → Text
joined [] = []
joined (t ∷ ts) = t ++ joined ts

unfoldable pub usage : String → Text
usage prog = joined (
    codes "Cache Hierarchy Simulator (phase 4: L1 -> L2 -> memory + AMAT)\n"
    ∷ codes "Usage: "
    ∷ codes prog
    ∷ codes " --trace <file> --l1-size <bytes> --l1-block <bytes>\n"
    ∷ codes "               [--l1-assoc N|full] [--l1-repl lru|fifo|random]\n"
    ∷ codes "               [--l1-write back|through] [--l1-alloc allocate|no-allocate]\n"
    ∷ codes "               [--l2-size <bytes> --l2-block <bytes>] [--l2-assoc N|full]\n"
    ∷ codes "               [--l2-repl P] [--l2-write W] [--l2-alloc A]\n"
    ∷ codes "               [--l1-hit C] [--l2-hit C] [--mem-time C]\n"
    ∷ codes "               [--classify-3c] [--addr-bits N] [--verbose]\n"
    ∷ codes "  --trace <file>      memory-access trace (lackey or R/W form)  [required]\n"
    ∷ codes "  --l1-size/-block    L1 capacity / block size in bytes         [required]\n"
    ∷ codes "  --l1-assoc N|full   L1 ways per set (default 1 = direct-mapped)\n"
    ∷ codes "  --l1-repl P         lru (default) | fifo | random\n"
    ∷ codes "  --l1-write W        back (default) | through\n"
    ∷ codes "  --l1-alloc A        allocate (default) | no-allocate\n"
    ∷ codes "  --l2-size/-block    add an L2 with this capacity / block size\n"
    ∷ codes "  --l2-assoc/repl/... L2 knobs, same values as the L1 forms\n"
    ∷ codes "  --l1-hit C          L1 hit time in cycles   (default 1)\n"
    ∷ codes "  --l2-hit C          L2 hit time in cycles   (default 10)\n"
    ∷ codes "  --mem-time C        memory access in cycles (default 100)\n"
    ∷ codes "  --classify-3c       tag every miss compulsory/capacity/conflict\n"
    ∷ codes "  --json              print one machine-readable JSON stats object\n"
    ∷ codes "                      instead of the human report (for scripts/sweep.py)\n"
    ∷ codes "  --addr-bits N       address width in bits (default 64)\n"
    ∷ codes "  --verbose           echo every CPU access with its L1 decode\n"
    ∷ codes "  --help, -h          show this message\n"
    ∷ [])

-- A message on std::cerr, and what stands on std::cout.
abbrev complain : Text → List Text → Printed
complain shown parts = record { out = shown; err = codes "error: " ++ joined parts }

unfoldable pub needs_value : String → Printed
needs_value name = complain [] (codes name ∷ codes " requires a value\n" ∷ [])

unfoldable pub bad_value : String → String → String → Printed
bad_value flag got valid =
    complain [] (
      codes flag
      ∷ codes " must be "
      ∷ codes valid
      ∷ codes " (got '"
      ∷ codes got
      ∷ codes "')\n"
      ∷ [])

unfoldable pub unknown_option : String → String → Printed
unknown_option prog arg =
    complain (usage prog) (codes "unknown option '" ∷ codes arg ∷ codes "'\n" ∷ [])

unfoldable pub required : String → Printed
required prog =
    complain (usage prog) (codes "--trace, --l1-size and --l1-block are required\n" ∷ [])

unfoldable pub l2_required : Printed
l2_required = complain [] (
    codes "L2 flags given but --l2-size and --l2-block are required"
    ∷ codes " to enable an L2\n"
    ∷ [])

unfoldable pub cannot_open : String → Printed
cannot_open path = complain [] (codes "cannot open trace file '" ∷ codes path ∷ codes "'\n" ∷ [])

-- `what` of the exceptions of the two constructors. A division by zero has none.
abbrev pub what : Failure → String
what no_next_level = "cache requires a next level (memory or cache)"
what zero_dimension = "cache size/block/associativity must be > 0"
what block_not_pow2 = "blockSize must be a power of two"
what size_not_multiple = "size must be a multiple of block * associativity"
what sets_not_pow2 = "numSets must be a power of two"
what division_by_zero = ""
what no_cache_level = "hierarchy needs at least one cache level"

unfoldable pub bad_geometry : Failure → Printed
bad_geometry f = complain [] (codes "bad cache geometry: " ∷ codes (what f) ∷ codes "\n" ∷ [])

-- The message after those of the violated invariants; the dash is three bytes of UTF-8.
unfoldable pub violated : Text
violated = joined (
    codes "error: invariants violated "
    ∷ (226 ∷ 128 ∷ 148 ∷ [])
    ∷ codes " simulation results are unreliable\n"
    ∷ [])
