-- ===== src/RefFaCache/Maps.antt =====
-- The map from blocks to stamps: what find returns after each change of it.
use cache_hierarchy_simulato.Prelude.{
  ℕ, suc, ◌≤◌, ◌<◌, ◌≡◌, inl, inr, refl, ◌&&◌, [], ◌∷◌, none, some, ◌==◌, if◌then◌else◌, arith,
  length, Bool-cases, is_some,
}
use cache_hierarchy_simulato.RefFaCache.{Stamps, find, refresh, erase}

-- No block has two entries.
abbrev pub IsUnique : Stamps → Type 0
IsUnique [] = Unit
IsUnique (e ∷ m) = (find e.0 m ≡ none) × IsUnique m

-- The stamps decrease strictly from one entry to the next, and all are below the bound.
abbrev pub IsRanked : ℕ → Stamps → Type 0
IsRanked top [] = Unit
IsRanked top (e ∷ m) = (e.1 < top) × IsRanked e.1 m

pub find-cons :
    (x : ℕ) (e : ℕ × ℕ) (m : Stamps) → find x (e ∷ m) ≡ (if x == e.0 then some e.1 else find x m)
unfolding find
find-cons x e m = refl

pub find-erase :
    (x b : ℕ) (m : Stamps) → IsUnique m → find x (erase b m) ≡ (if x == b then none else find x m)
unfolding find erase
find-erase x b [] u = ground arith
find-erase x b (e ∷ m) u = ground (arith, find-erase x b m u.1)

pub erase-IsUnique : (b : ℕ) (m : Stamps) → IsUnique m → IsUnique (erase b m)
unfolding erase
erase-IsUnique b [] u = tt
erase-IsUnique b (e ∷ m) u = ground (arith, find-erase e.0 b m u.1, erase-IsUnique b m u.1)

pub length-erase : (b t : ℕ) (m : Stamps) → find b m ≡ some t → suc (length (erase b m)) ≡ length m
unfolding find erase
length-erase b t [] h = cc
length-erase b t (e ∷ m) h = ground (arith, length-erase b t m)

pub find-refresh :
    (x b now : ℕ) (m : Stamps)
    → find x (refresh b now m) ≡ (if x == b && is_some (find b m) then some now else find x m)
unfolding find refresh
find-refresh x b now [] = ground arith
find-refresh x b now (e ∷ m) = ground (arith, find-refresh x b now m)

pub refresh-IsUnique : (b now : ℕ) (m : Stamps) → IsUnique m → IsUnique (refresh b now m)
unfolding refresh
refresh-IsUnique b now [] u = tt
refresh-IsUnique b now (e ∷ m) u =
    ground (arith, find-refresh e.0 b now m, refresh-IsUnique b now m u.1)

pub length-refresh : (b now : ℕ) (m : Stamps) → length (refresh b now m) ≡ length m
unfolding refresh
length-refresh b now [] = refl
length-refresh b now (e ∷ m) = ground (arith, length-refresh b now m)

pub IsRanked-le : (a b : ℕ) (m : Stamps) → a ≤ b → IsRanked a m → IsRanked b m
IsRanked-le a b [] h r = tt
IsRanked-le a b (e ∷ m) h r = (omega (arith, r.0), r.1)

pub erase-IsRanked : (b top : ℕ) (m : Stamps) → IsRanked top m → IsRanked top (erase b m)
unfolding erase
erase-IsRanked b top [] r = tt
erase-IsRanked b top (e ∷ m) r = elim (Bool-cases (b == e.0)) [
  | inl here ↦ rw (erase, here) (IsRanked-le e.1 top m (omega (arith, r.0)) r.1)
  | inr there ↦ rw (erase, there) (r.0, erase-IsRanked b e.1 m r.1)
]
