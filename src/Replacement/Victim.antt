-- ===== src/Replacement/Victim.antt =====
-- The way that LRU and FIFO evict (getVictim of src/replacement.cpp).
use cache_hierarchy_simulato.Prelude.{
  ℕ, zero, suc, ◌+◌, ◌-◌, ◌≤◌, ◌<◌, ◌≡◌, refl, ◌⊎◌, inl, inr, List, [], ◌∷◌, All, arith, Bool-cases,
  ltb, length, get_or,
}
use cache_hierarchy_simulato.Word.{u64_mod}
use cache_hierarchy_simulato.Replacement.{oldest_loop, oldest}

-- Entry `j` is the smallest of the list, and smaller than every entry before it.
pub record IsFirstLeast (ts : List ℕ) (j : ℕ) : Type 0 where
  pub inside : j < length ts
  pub least : All (λ t. get_or ts j 0 ≤ t) ts
  pub first : (k : ℕ) → k < j → get_or ts j 0 < get_or ts k 0

All-ge : (a b : ℕ) (ts : List ℕ) → a ≤ b → All (λ t. b ≤ t) ts → All (λ t. a ≤ t) ts
All-ge a b [] h p = tt
All-ge a b (t ∷ ts) h p = (omega arith, All-ge a b ts h p.1)

IsFirstLeast-cons :
    (t : ℕ) (ts : List ℕ) (j : ℕ)
    → IsFirstLeast ts j
    → get_or ts j 0 < t
    → IsFirstLeast (t ∷ ts) (suc j)
IsFirstLeast-cons t ts j f below = record {
  inside = omega (arith, f.inside);
  least = (omega arith, f.least);
  first = go;
}
  where
    go : (k : ℕ) → k < suc j → get_or ts j 0 < get_or (t ∷ ts) k 0
    go zero h = below
    go (suc k) h = f.first k (omega arith)

-- The loop keeps its candidate, or finds a smaller entry and returns the first least one.
oldest_loop_lem :
    (ts : List ℕ) (w best v : ℕ)
    → ((oldest_loop ts w best v ≡ v) × All (λ t. best ≤ t) ts)
      ⊎ ((j : ℕ) × (oldest_loop ts w best v ≡ w + j) × (get_or ts j 0 < best) × IsFirstLeast ts j)
unfolding oldest_loop
oldest_loop_lem [] w best v = inl (refl, tt)
oldest_loop_lem (t ∷ ts) w best v = elim (Bool-cases (ltb t best)) [
  | inl smaller ↦
      let lt : t < best = ground arith in
      rw smaller (elim (oldest_loop_lem ts (w + 1) t w) [
        | inl (same, above) ↦ inr (
          0,
          omega arith,
          lt,
          record {
            inside = omega arith;
            least = (omega arith, above);
            first = λ k h. absurd (omega arith);
          },
        )
        | inr (j, e, below, f) ↦
            inr (suc j, omega arith, omega arith, IsFirstLeast-cons t ts j f below)
      ])
  | inr larger ↦
      let le : best ≤ t = ground arith in
      rw larger (elim (oldest_loop_lem ts (w + 1) best v) [
        | inl (same, above) ↦ inl (same, (le, above))
        | inr (j, e, below, f) ↦
            inr (suc j, omega arith, below, IsFirstLeast-cons t ts j f (omega arith))
      ])
]

-- In a row with at least one way whose stamps are below the largest word, the way that getVictim
-- finds lies in the row, has the smallest stamp, and is the first that has.
pub oldest-IsFirstLeast :
    (ts : List ℕ) → 0 < length ts → All (λ t. t < u64_mod - 1) ts → IsFirstLeast ts (oldest ts)
unfolding oldest
oldest-IsFirstLeast [] some_way below = absurd (omega arith)
oldest-IsFirstLeast (t ∷ ts) some_way below = elim (oldest_loop_lem (t ∷ ts) 0 (u64_mod - 1) 0) [
  | inl (same, above) ↦ absurd (omega (arith, above.0, below.0))
  | inr (j, e, least, f) ↦
      let index : oldest_loop (t ∷ ts) 0 (u64_mod - 1) 0 ≡ j = omega arith in rw index f
]

-- Whatever the stamps are, the way lies in the row.
pub oldest-lt : (ts : List ℕ) → 0 < length ts → oldest ts < length ts
unfolding oldest
oldest-lt ts some_way = elim (oldest_loop_lem ts 0 (u64_mod - 1) 0) [
  | inl (same, above) ↦ omega arith
  | inr (j, e, least, f) ↦ omega (arith, f.inside)
]
