-- ===== src/RefFaCache.antt =====
-- RefFACache of include/cache.h and src/cache.cpp: the fully-associative LRU model that the miss
-- classification asks. The unordered_map is an association list in the order of iteration.
pub mod Maps
pub mod Victim
pub mod Stack
pub mod Evict
pub mod Refines
pub mod Verdicts
use cache_hierarchy_simulato.Prelude.{
  ℕ, Bool, true, false, List, [], ◌∷◌, Option, none, some, ltb, leb, ◌==◌, if◌then◌else◌, length,
}
use cache_hierarchy_simulato.Word.{incr}

abbrev pub Stamps : Type 0
Stamps = List (ℕ × ℕ)

pub record RefFaCache : Type 0 where
  pub last_used : Stamps
  pub capacity : ℕ
  pub clock : ℕ

unfoldable pub find : ℕ → Stamps → Option ℕ
find b [] = none
find b (e ∷ m) = if b == e.0 then some e.1 else find b m

-- `it->second = now`
unfoldable pub refresh : ℕ → ℕ → Stamps → Stamps
refresh b now [] = []
refresh b now (e ∷ m) = if b == e.0 then (b, now) ∷ m else e ∷ refresh b now m

unfoldable pub erase : ℕ → Stamps → Stamps
erase b [] = []
erase b (e ∷ m) = if b == e.0 then m else e ∷ erase b m

-- The scan for the victim, from the entry that `victim` points at.
unfoldable pub oldest_from : ℕ × ℕ → Stamps → ℕ × ℕ
oldest_from victim [] = victim
oldest_from victim (e ∷ m) = oldest_from (if ltb e.1 victim.1 then e else victim) m

-- `lastUsed_.erase(victim)`. A cache has at least one line, so a full map is never empty; erasing
-- from an empty map, which C++ leaves undefined, changes nothing here.
unfoldable pub evict : Stamps → Stamps
evict [] = []
evict (e ∷ m) = erase (oldest_from e m).0 (e ∷ m)

-- The verdict (was the block resident?) and the new state.
unfoldable pub touch : ℕ → RefFaCache → Bool × RefFaCache
touch b r =
    let now = incr r.clock in
    elim (find b r.last_used) [
      | some _ ↦ (true, record r { last_used = refresh b now r.last_used; clock = now })
      | none ↦
          let kept =
            if leb r.capacity (length r.last_used) then evict r.last_used else r.last_used in
          (false, record r { last_used = (b, now) ∷ kept; clock = now })
    ]
