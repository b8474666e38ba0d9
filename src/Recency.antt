-- ===== src/Recency.antt =====
-- The specification of a set-associative LRU cache: for each set the stack of its tags, the most
-- recently used first. The policy is LRUPolicy of src/replacement.cpp.
pub mod Entries
pub mod Filled
pub mod Rows
pub mod Fill
pub mod Uses
pub mod Access
pub mod Fresh
pub mod Trace
pub mod FullyAssociative
pub mod Inclusion
pub mod Distance
pub mod Reuse
pub mod Ways
use cache_hierarchy_simulato.Prelude.{
  ℕ, ◌+◌, ◌/◌, ◌%◌, Bool, true, false, ◌&&◌, not, List, [], ◌∷◌, ◌==◌, if◌then◌else◌,
}
use cache_hierarchy_simulato.Cache.{CacheLine}
use cache_hierarchy_simulato.RefFaCache.{Stamps}
use cache_hierarchy_simulato.RefFaCache.Stack.{touch_stack}

-- The stack of every set.
abbrev pub Stacks : Type 0
Stacks = ℕ → List ℕ

abbrev pub update : Stacks → ℕ → List ℕ → Stacks
update st i l j = if j == i then l else st j

-- An access to a tag of a set: the tag moves to the top; a missing one comes in at the top and
-- pushes the least recently used one out of a full set, unless the access goes around the cache.
unfoldable pub access_stacks : ℕ → Bool → ℕ → ℕ → Stacks → Bool × Stacks
access_stacks ways around i tag st =
    let (hit, l) = touch_stack ways tag (st i) in
    if not hit && around then (false, st) else (hit, update st i l)

-- The hits of a cache of the given number of sets of `ways` blocks for a row of addresses, the
-- newest first, and the stacks after them, if every miss brings its block in.
unfoldable pub replay : ℕ → ℕ → ℕ → List ℕ → ℕ × Stacks
replay ways sets size [] = (0, λ i. [])
replay ways sets size (a ∷ before) =
    let (hits, st) = replay ways sets size before in
    let (hit, st') = access_stacks ways false (a / size % sets) (a / size / sets) st in
    (if hit then hits + 1 else hits, st')

-- The tags of the valid frames of a set with their stamps.
unfoldable pub entries : List CacheLine → List ℕ → Stamps
entries [] ts = []
entries (l ∷ ls) [] = []
entries (l ∷ ls) (t ∷ ts) = if l.valid then (l.tag, t) ∷ entries ls ts else entries ls ts
