-- ===== src/Report/Amat.antt =====
-- The access time that CacheHierarchy::computeAMAT of src/hierarchy.cpp computes, with the rounding of
-- its operations.
use cache_hierarchy_simulato.Prelude.{
  ℕ, zero, suc, ◌≤◌, ◌<◌, ◌≡◌, Bool, true, arith, inl, inr, Bool-cases, ◌==◌,
}
use cache_hierarchy_simulato.Word.{u64_mod}
use cache_hierarchy_simulato.Config.{Stats}
use cache_hierarchy_simulato.Hierarchy.{Levels, CacheHierarchy}
use cache_hierarchy_simulato.Report.{Double, miss_rate, amat_levels, compute_amat}

-- What IEEE 754 doubles satisfy under rounding to nearest. `le` is `<=`, and `largest` the largest
-- finite number. A value from nought on is no NaN, but may be infinite where no bound is named.
pub record IsRounded (W : Type 0) (d : Double W) : Type 0 where
  pub le : W → W → Bool
  pub one : W
  pub largest : W
  pub le_trans : (x y z : W) → le x y ≡ true → le y z ≡ true → le x z ≡ true
  pub le_refl : (x : W) → le d.nought x ≡ true → le x x ≡ true
  pub nought_le_one : (le d.nought d.nought ≡ true) × (le d.nought one ≡ true)
  pub add_mono :
      (x y z : W)
      → le d.nought x ≡ true
      → le d.nought y ≡ true
      → le y z ≡ true
      → le (d.add x y) (d.add x z) ≡ true
  pub le_add :
      (x y : W)
      → le d.nought x ≡ true
      → le d.nought y ≡ true
      → (le x (d.add x y) ≡ true) × (le y (d.add x y) ≡ true)
  pub mul_le :
      (r x : W)
      → le d.nought r ≡ true
      → le r one ≡ true
      → le d.nought x ≡ true
      → le x largest ≡ true
      → (le d.nought (d.mul r x) ≡ true) × (le (d.mul r x) x ≡ true)
  pub div_le :
      (m n : ℕ)
      → m ≤ n
      → 0 < n
      → n < u64_mod
      → (le d.nought (d.div (d.of_u64 m) (d.of_u64 n)) ≡ true)
        × (le (d.div (d.of_u64 m) (d.of_u64 n)) one ≡ true)

module _ {W : Type 0} (d : Double W) (r : IsRounded W d) where
  open r use {le, largest}

  infix 4 ◌≼◌
  abbrev pub ◌≼◌ : W → W → Type 0
  x ≼ y = le x y ≡ true

  -- The time of an access that every level misses.
  abbrev pub worst : (n : ℕ) → W → Levels W n → W
  worst zero mem_time m = mem_time
  worst (suc n) mem_time s = d.add s.0.cfg.hit_time (worst n mem_time s.1)

  -- The times are no NaN and not negative, and no level has counted more misses than accesses.
  abbrev pub HasTimes : (n : ℕ) → W → Levels W n → Type 0
  HasTimes zero mem_time m = d.nought ≼ mem_time
  HasTimes (suc n) mem_time s =
      (d.nought ≼ s.0.cfg.hit_time)
      × (s.0.stats.misses ≤ s.0.stats.accesses)
      × (s.0.stats.accesses < u64_mod)
      × HasTimes n mem_time s.1

  miss_rate-le :
      (s : Stats)
      → s.misses ≤ s.accesses
      → s.accesses < u64_mod
      → (d.nought ≼ miss_rate d s) × (miss_rate d s ≼ r.one)
  unfolding miss_rate
  miss_rate-le s h word = elim (Bool-cases (s.accesses == 0)) [
    | inl none ↦ rw none r.nought_le_one
    | inr some ↦ rw some (r.div_le s.misses s.accesses h (ground arith) word)
  ]

  -- The share of the accesses that miss takes a time that is not above that of all.
  share-le :
      (s : Stats) (x bound : W)
      → s.misses ≤ s.accesses
      → s.accesses < u64_mod
      → (d.nought ≼ x) × (x ≼ bound)
      → bound ≼ largest
      → (d.nought ≼ d.mul (miss_rate d s) x) × (d.mul (miss_rate d s) x ≼ bound)
  share-le s x bound misses word (positive, bounded) finite =
      let (rate, rate_one) = miss_rate-le s misses word in
      let (part, part_le) = r.mul_le _ _ rate rate_one positive (r.le_trans _ _ _ bounded finite) in
      (part, r.le_trans _ _ _ part_le bounded)

  worst-nought :
      (n : ℕ) (mem_time : W) (s : Levels W n)
      → HasTimes n mem_time s
      → d.nought ≼ worst n mem_time s
  worst-nought zero mem_time m h = h
  worst-nought (suc n) mem_time s (hit, _, _, h) =
      r.le_trans _ _ _ hit (r.le_add _ _ hit (worst-nought n mem_time s.1 h)).0

  amat_levels-le :
      (n : ℕ) (mem_time : W) (s : Levels W n)
      → HasTimes n mem_time s
      → worst n mem_time s ≼ largest
      → (d.nought ≼ amat_levels d n mem_time s) × (amat_levels d n mem_time s ≼ worst n mem_time s)
  unfolding amat_levels
  amat_levels-le zero mem_time m h finite = (h, r.le_refl mem_time h)
  amat_levels-le (suc n) mem_time s (hit, misses, word, h) finite =
      let below = worst-nought n mem_time s.1 h in
      let finite' = r.le_trans _ _ _ (r.le_add _ _ hit below).1 finite in
      let (part, part_le) =
        share-le s.0.stats _ _ misses word (amat_levels-le n mem_time s.1 h finite') finite' in
      (r.le_trans _ _ _ hit (r.le_add _ _ hit part).0, r.add_mono _ _ _ hit part part_le)

  -- If the hit times and the memory time are no NaN and not negative, no level has counted more
  -- misses than accesses, and the sum of all the times is finite, the access time is at least the hit
  -- time of the first level and at most the sum, with the rounding of every operation.
  pub compute_amat-le :
      {n : ℕ} (h : CacheHierarchy W n)
      → HasTimes (suc n) h.mem_time h.world.level
      → worst (suc n) h.mem_time h.world.level ≼ largest
      → (h.world.level.0.cfg.hit_time ≼ compute_amat d h)
        × (compute_amat d h ≼ worst (suc n) h.mem_time h.world.level)
  unfolding compute_amat amat_levels
  compute_amat-le {n} h times finite =
      let s = h.world.level in
      let (hit, misses, word, rest) = times in
      let finite' =
        r.le_trans _ _ _ (r.le_add _ _ hit (worst-nought n h.mem_time s.1 rest)).1 finite in
      let (part, _) =
        share-le s.0.stats _ _ misses word (amat_levels-le n h.mem_time s.1 rest finite') finite' in
      ((r.le_add _ _ hit part).0, (amat_levels-le (suc n) h.mem_time s times finite).1)
