-- ===== src/Check.antt =====
-- Cache::checkInvariants of src/cache.cpp. The messages that it prints are data; it returns true
-- if there is none.
pub mod Passes
pub mod Messages
use cache_hierarchy_simulato.Prelude.{
  ℕ, ◌+◌, Bool, true, false, not, ◌&&◌, List, [], ◌∷◌, ◌++◌, ◌==◌, if◌then◌else◌, length,
}
use cache_hierarchy_simulato.Word.{u64}
use cache_hierarchy_simulato.Cache.{CacheLine, CacheSet, Cache}

pub data Violation : Type 0 where
  counts : ℕ → ℕ → ℕ → Violation
  dirty_invalid : ℕ → ℕ → Violation
  split : ℕ → ℕ → Violation
  compulsory_distinct : ℕ → ℕ → Violation

abbrev pub when : Bool → Violation → List Violation
when true v = v ∷ []
when false v = []

unfoldable pub check_lines : ℕ → ℕ → List CacheLine → List Violation
check_lines s w [] = []
check_lines s w (line ∷ lines) =
    when (line.dirty && not line.valid) (dirty_invalid s w) ++ check_lines s (w + 1) lines

unfoldable pub check_sets : ℕ → List CacheSet → List Violation
unfolding check_lines
check_sets s [] = []
check_sets s (x ∷ xs) = check_lines s 0 x.lines ++ check_sets (s + 1) xs

module _ {Double : Type 0} where
  -- What checkInvariants prints, in order.
  unfoldable pub violations : Cache Double → List Violation
  violations c =
      let s = c.stats in
      let sum = u64 (u64 (s.compulsory + s.capacity) + s.conflict) in
      let distinct = u64 (length c.seen) in
      when (not (u64 (s.hits + s.misses) == s.accesses)) (counts s.hits s.misses s.accesses)
      ++ (check_sets 0 c.sets
          ++ (if c.cfg.classify_3c
              then when (not (sum == s.misses)) (split sum s.misses)
                ++ when (not (s.compulsory == distinct)) (compulsory_distinct s.compulsory distinct)
              else []))

  -- Cache::checkInvariants
  unfoldable pub check_invariants : Cache Double → Bool
  unfolding violations
  check_invariants c = elim (violations c) [ [] ↦ true | _ ∷ _ ↦ false ]
