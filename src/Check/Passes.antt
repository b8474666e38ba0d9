-- ===== src/Check/Passes.antt =====
-- When Cache::checkInvariants prints nothing.
use cache_hierarchy_simulato.Prelude.{ℕ, ◌+◌, ◌≡◌, refl, Bool, true, List, [], ◌∷◌, All, arith}
use cache_hierarchy_simulato.Cache.{CacheLine, CacheSet, Cache}
use cache_hierarchy_simulato.Access.Counters.{CountsAgree}
use cache_hierarchy_simulato.Access.Dirty.{IsClean, AllClean, writes_back, HasCleanFrames}
use cache_hierarchy_simulato.Check.{check_lines, check_sets, check_invariants}

check_lines-nil :
    (wb : Bool) (s w : ℕ) (lines : List CacheLine)
    → All (IsClean wb) lines
    → check_lines s w lines ≡ []
unfolding check_lines
check_lines-nil wb s w [] h = refl
check_lines-nil wb s w (l ∷ ls) h =
    rw (h.0.valid_if_dirty, check_lines-nil wb s (w + 1) ls h.1) refl

check_sets-nil :
    (wb : Bool) (s : ℕ) (sets : List CacheSet) → All (AllClean wb) sets → check_sets s sets ≡ []
unfolding check_sets
check_sets-nil wb s [] h = refl
check_sets-nil wb s (x ∷ xs) h =
    rw (check_lines-nil wb s 0 x.lines h.0, check_sets-nil wb (s + 1) xs h.1) refl

-- The checks pass on a cache whose counters agree and whose dirty frames are valid.
pub check_invariants-passes :
    {Double : Type 0} (c : Cache Double)
    → CountsAgree 0 c
    → HasCleanFrames c
    → check_invariants c ≡ true
unfolding check_invariants
check_invariants-passes c counts clean =
    ground (arith, check_sets-nil (writes_back c) 0 c.sets clean)
