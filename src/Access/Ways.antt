-- ===== src/Access/Ways.antt =====
-- The ways that the searches of src/cache.cpp and the policies of src/replacement.cpp return.
use native.Mathlib.Nat.{mod-lt}
use cache_hierarchy_simulato.Prelude.{
  ℕ, ◌+◌, ◌<◌, ◌≡◌, List, [], ◌∷◌, some, arith, length, get_or, length-set, All-set, All-get_or,
}
use cache_hierarchy_simulato.Cache.{CacheLine}
use cache_hierarchy_simulato.Cache.Shape.{IsTable, FitsPolicy}
use cache_hierarchy_simulato.Replacement.{
  ReplacementPolicy, lru_policy, fifo_policy, random_policy, on_access, on_insert, get_victim,
  stamp,
}
use cache_hierarchy_simulato.Replacement.Victim.{oldest-lt}
use cache_hierarchy_simulato.Access.{find_way, find_empty}

stamp-IsTable :
    (sets assoc s way time : ℕ) (t : List (List ℕ))
    → s < sets
    → IsTable sets assoc t
    → IsTable sets assoc (stamp t s way time)
stamp-IsTable sets assoc s way time t h (rows, columns) = (
  rw length-set rows,
  All-set _ t s _ columns (rw length-set (All-get_or _ t s [] columns (omega arith))),
)

pub on_access-FitsPolicy :
    (sets assoc s way : ℕ) (p : ReplacementPolicy)
    → s < sets
    → FitsPolicy sets assoc p
    → FitsPolicy sets assoc (on_access p s way)
unfolding on_access
on_access-FitsPolicy sets assoc s way (lru_policy p) h f =
    stamp-IsTable sets assoc s way _ p.last_used h f
on_access-FitsPolicy sets assoc s way (fifo_policy p) h f = f
on_access-FitsPolicy sets assoc s way (random_policy p) h f = f

pub on_insert-FitsPolicy :
    (sets assoc s way : ℕ) (p : ReplacementPolicy)
    → s < sets
    → FitsPolicy sets assoc p
    → FitsPolicy sets assoc (on_insert p s way)
unfolding on_insert
on_insert-FitsPolicy sets assoc s way (lru_policy p) h f =
    stamp-IsTable sets assoc s way _ p.last_used h f
on_insert-FitsPolicy sets assoc s way (fifo_policy p) h f =
    stamp-IsTable sets assoc s way _ p.insert_time h f
on_insert-FitsPolicy sets assoc s way (random_policy p) h f = f

pub get_victim-lt :
    (rand : ℕ → ℕ) (sets assoc s draws : ℕ) (p : ReplacementPolicy)
    → s < sets
    → 0 < assoc
    → FitsPolicy sets assoc p
    → (get_victim rand p s draws).0 < assoc
unfolding get_victim
get_victim-lt rand sets assoc s draws (lru_policy p) h pos f =
    let row = All-get_or _ p.last_used s [] f.1 (omega arith) in
    omega (arith, row, oldest-lt (get_or p.last_used s []) (omega arith))
get_victim-lt rand sets assoc s draws (fifo_policy p) h pos f =
    let row = All-get_or _ p.insert_time s [] f.1 (omega arith) in
    omega (arith, row, oldest-lt (get_or p.insert_time s []) (omega arith))
get_victim-lt rand sets assoc s draws (random_policy p) h pos f = rw f (mod-lt (rand draws) pos)

pub find_empty-lt :
    (w way : ℕ) (lines : List CacheLine) → find_empty w lines ≡ some way → way < w + length lines
unfolding find_empty
find_empty-lt w way [] e = cc
find_empty-lt w way (l ∷ ls) e = ground (arith, find_empty-lt (w + 1) way ls)

pub find_way-lt :
    (w tag way : ℕ) (lines : List CacheLine)
    → find_way w tag lines ≡ some way
    → way < w + length lines
unfolding find_way
find_way-lt w tag way [] e = cc
find_way-lt w tag way (l ∷ ls) e = ground (arith, find_way-lt (w + 1) tag way ls)
