-- ===== src/Replacement.antt =====
-- src/replacement.cpp: the three eviction strategies behind ReplacementPolicy.
-- `rand n` is what the n-th call of the unseeded std::rand() returns; the number of calls made so
-- far is state of the whole process, so getVictim takes it and returns it.
pub mod Victim
use cache_hierarchy_simulato.Prelude.{
  ℕ, ◌+◌, ◌%◌, ◌-◌, List, [], ◌∷◌, ltb, if◌then◌else◌, get_or, set, replicate,
}
use cache_hierarchy_simulato.Word.{u64_mod, incr}
use cache_hierarchy_simulato.Config.{ReplacementType, lru, fifo, random}

pub record LruPolicy : Type 0 where
  pub last_used : List (List ℕ)
  pub clock : ℕ

pub record FifoPolicy : Type 0 where
  pub insert_time : List (List ℕ)
  pub clock : ℕ

pub record RandomPolicy : Type 0 where
  pub assoc : ℕ

pub data ReplacementPolicy : Type 0 where
  lru_policy : LruPolicy → ReplacementPolicy
  fifo_policy : FifoPolicy → ReplacementPolicy
  random_policy : RandomPolicy → ReplacementPolicy

-- `stamps[set][way] = time`
abbrev pub stamp : List (List ℕ) → ℕ → ℕ → ℕ → List (List ℕ)
stamp stamps s way time = set stamps s (set (get_or stamps s []) way time)

unfoldable pub on_access : ReplacementPolicy → ℕ → ℕ → ReplacementPolicy
on_access (lru_policy p) s way =
    let now = incr p.clock in
    lru_policy (record { last_used = stamp p.last_used s way now; clock = now })
on_access (fifo_policy p) s way = fifo_policy p
on_access (random_policy p) s way = random_policy p

unfoldable pub on_insert : ReplacementPolicy → ℕ → ℕ → ReplacementPolicy
on_insert (lru_policy p) s way =
    let now = incr p.clock in
    lru_policy (record { last_used = stamp p.last_used s way now; clock = now })
on_insert (fifo_policy p) s way =
    let now = incr p.clock in
    fifo_policy (record { insert_time = stamp p.insert_time s way now; clock = now })
on_insert (random_policy p) s way = random_policy p

-- The loop of getVictim: `w` is the next way, `best` and `v` the smallest stamp so far and its way.
oldest_loop : List ℕ → ℕ → ℕ → ℕ → ℕ
oldest_loop [] w best v = v
oldest_loop (t ∷ ts) w best v =
    oldest_loop ts (w + 1) (if ltb t best then t else best) (if ltb t best then w else v)

unfoldable pub oldest : List ℕ → ℕ
unfolding oldest_loop
oldest ts = oldest_loop ts 0 (u64_mod - 1) 0

-- The way to evict, and the number of calls of std::rand() afterwards.
unfoldable pub get_victim : (ℕ → ℕ) → ReplacementPolicy → ℕ → ℕ → ℕ × ℕ
get_victim rand (lru_policy p) s draws = (oldest (get_or p.last_used s []), draws)
get_victim rand (fifo_policy p) s draws = (oldest (get_or p.insert_time s []), draws)
get_victim rand (random_policy p) s draws = (rand draws % p.assoc, draws + 1)

unfoldable pub make_replacement : ReplacementType → ℕ → ℕ → ReplacementPolicy
make_replacement lru num_sets assoc =
    lru_policy (record { last_used = replicate num_sets (replicate assoc 0); clock = 0 })
make_replacement fifo num_sets assoc =
    fifo_policy (record { insert_time = replicate num_sets (replicate assoc 0); clock = 0 })
make_replacement random num_sets assoc = random_policy (record { assoc = assoc })
