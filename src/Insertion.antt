-- ===== src/Insertion.antt =====
-- The specification of a set-associative FIFO cache: for each set the row of its tags, the newest
-- first. The policy is FIFOPolicy of src/replacement.cpp.
pub mod Twin
pub mod Access
pub mod Trace
use cache_hierarchy_simulato.Prelude.{
  ℕ, ◌+◌, ◌/◌, ◌%◌, Bool, true, false, List, [], ◌∷◌, if◌then◌else◌, leb, length, contains,
}
use cache_hierarchy_simulato.RefFaCache.Stack.{drop_last}
use cache_hierarchy_simulato.Recency.{Stacks, update}

-- A new tag comes in at the front, and the oldest one leaves a full row.
unfoldable pub enter : ℕ → ℕ → List ℕ → List ℕ
enter ways tag l = tag ∷ (if leb ways (length l) then drop_last l else l)

-- An access to a tag of a set: a tag that is there stays where it is, and a missing one comes in,
-- unless the access goes around the cache.
unfoldable pub access_rows : ℕ → Bool → ℕ → ℕ → Stacks → Bool × Stacks
access_rows ways around i tag st =
    if contains tag (st i)
    then (true, st)
    else (if around then (false, st) else (false, update st i (enter ways tag (st i))))

-- The hits of a cache of the given number of sets of `ways` blocks for a row of addresses, the
-- newest first, and the rows after them, if every miss brings its block in.
unfoldable pub serve : ℕ → ℕ → ℕ → List ℕ → ℕ × Stacks
serve ways sets size [] = (0, λ i. [])
serve ways sets size (a ∷ before) =
    let (hits, st) = serve ways sets size before in
    let (hit, st') = access_rows ways false (a / size % sets) (a / size / sets) st in
    (if hit then hits + 1 else hits, st')
