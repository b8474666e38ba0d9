-- ===== src/RefFaCache/Verdicts.antt =====
-- A whole row of calls of RefFACache::touch against the stack.
use mathlib.Core.Path.{ap₂}
use native.Mathlib.Nat.{mod-eq_of_lt}
use cache_hierarchy_simulato.Prelude.{
  ℕ, ◌+◌, ◌<◌, ◌≡◌, refl, ap, ◌∙◌, Bool, List, [], ◌∷◌, arith, length,
}
use cache_hierarchy_simulato.Word.{incr, u64_mod}
use cache_hierarchy_simulato.RefFaCache.{RefFaCache, touch}
use cache_hierarchy_simulato.RefFaCache.Stack.{touch_stack, Models}
use cache_hierarchy_simulato.RefFaCache.Refines.{touch-Models}

-- The verdicts of the calls of touch for a row of blocks, and those of the stack.
unfoldable pub verdicts : List ℕ → RefFaCache → List Bool
verdicts [] r = []
verdicts (b ∷ bs) r = let (hit, r') = touch b r in hit ∷ verdicts bs r'

unfoldable pub stack_verdicts : ℕ → List ℕ → List ℕ → List Bool
stack_verdicts capacity [] l = []
stack_verdicts capacity (b ∷ bs) l =
    let (hit, l') = touch_stack capacity b l in hit ∷ stack_verdicts capacity bs l'

pub after_touch :
    (b : ℕ) (r : RefFaCache)
    → ((touch b r).1.capacity ≡ r.capacity) × ((touch b r).1.clock ≡ incr r.clock)
unfolding touch
after_touch b r = ground arith

verdicts-Models :
    (bs : List ℕ) (r : RefFaCache) (l : List ℕ)
    → Models r l
    → r.clock + length bs < u64_mod
    → verdicts bs r ≡ stack_verdicts r.capacity bs l
unfolding verdicts stack_verdicts
verdicts-Models [] r l m room = refl
verdicts-Models (b ∷ bs) r l m room =
    let (verdict, m') = touch-Models b m (omega arith) in
    let (capacity, clock) = after_touch b r in
    let next : incr r.clock ≡ r.clock + 1 = mod-eq_of_lt (omega arith) in
    let rest = verdicts-Models bs (touch b r).1 (touch_stack r.capacity b l).1 m' (omega arith) in
    ap₂ (λ (v : Bool) vs. v ∷ vs) verdict
      (rest ∙ ap (λ c. stack_verdicts c bs (touch_stack r.capacity b l).1) capacity)

pub Models-empty :
    (capacity : ℕ) → Models (record { last_used = []; capacity = capacity; clock = 0 }) []
Models-empty capacity = record {
  ranks = [];
  stack = refl;
  unique = tt;
  unique_ranks = tt;
  ranked = tt;
  same = λ x. refl;
  size = refl;
}

-- Starting empty, the reference model answers every row of fewer than 2^64 touches as the stack of
-- its capacity does.
pub verdicts-stack :
    (capacity : ℕ) (bs : List ℕ)
    → length bs < u64_mod
    → verdicts bs (record { last_used = []; capacity = capacity; clock = 0 })
      ≡ stack_verdicts capacity bs []
verdicts-stack capacity bs room = verdicts-Models bs _ [] (Models-empty capacity) (omega arith)
