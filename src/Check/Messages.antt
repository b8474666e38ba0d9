-- ===== src/Check/Messages.antt =====
-- What the checks of the invariants print: Cache::checkInvariants of src/cache.cpp, and the loop of
-- CacheHierarchy::checkInvariants of src/hierarchy.cpp.
use cache_hierarchy_simulato.Prelude.{ℕ, zero, suc, List, [], ◌∷◌, ◌++◌}
use cache_hierarchy_simulato.Text.{Text, codes}
use cache_hierarchy_simulato.Console.{joined}
use cache_hierarchy_simulato.Trace.Format.{print_number}
use cache_hierarchy_simulato.Hierarchy.{Levels}
use cache_hierarchy_simulato.Check.{
  Violation, counts, dirty_invalid, split, compulsory_distinct, violations,
}

violation : List Text → Text
violation parts = codes "INVARIANT VIOLATED: " ++ joined parts

abbrev decimal : ℕ → Text
decimal = print_number 10

unfoldable pub print_violation : Violation → Text
unfolding violation
print_violation (counts hits misses accesses) = violation (
    codes "hits("
    ∷ decimal hits
    ∷ codes ") + misses("
    ∷ decimal misses
    ∷ codes ") != accesses("
    ∷ decimal accesses
    ∷ codes ")\n"
    ∷ [])
print_violation (dirty_invalid s w) =
    violation (
      codes "line dirty && !valid at set "
      ∷ decimal s
      ∷ codes " way "
      ∷ decimal w
      ∷ codes "\n"
      ∷ [])
print_violation (split sum misses) = violation (
    codes "compulsory+capacity+conflict ("
    ∷ decimal sum
    ∷ codes ") != misses ("
    ∷ decimal misses
    ∷ codes ")\n"
    ∷ [])
print_violation (compulsory_distinct compulsory distinct) = violation (
    codes "compulsory ("
    ∷ decimal compulsory
    ∷ codes ") != distinct blocks touched ("
    ∷ decimal distinct
    ∷ codes ")\n"
    ∷ [])

unfoldable pub print_violations : List Violation → Text
unfolding print_violation
print_violations [] = []
print_violations (v ∷ vs) = print_violation v ++ print_violations vs

-- The messages of all levels from the first one on.
unfoldable pub print_levels : (Double : Type 0) (n : ℕ) → Levels Double n → Text
unfolding print_violations
print_levels Double zero m = []
print_levels Double (suc n) s = print_violations (violations s.0) ++ print_levels Double n s.1
