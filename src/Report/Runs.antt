-- ===== src/Report/Runs.antt =====
-- The access time of a whole run: computeAMAT of src/hierarchy.cpp after the loop of src/main.cpp.
use mathlib.Core.Path.{subst, ap₂}
use cache_hierarchy_simulato.Prelude.{
  ℕ, ◌≤◌, ◌<◌, ◌≡◌, sym, ap, ◌∙◌, Bool, true, List, [], ◌∷◌, length, arith,
}
use cache_hierarchy_simulato.Word.{u64_mod}
use cache_hierarchy_simulato.Config.{CacheConfig}
use cache_hierarchy_simulato.Cache.{Cache, ok}
use cache_hierarchy_simulato.Trace
use cache_hierarchy_simulato.Hierarchy.{CacheHierarchy, build_levels, construct_hierarchy, run}
use cache_hierarchy_simulato.Hierarchy.First.{references, run-first}
use cache_hierarchy_simulato.Hierarchy.Second.{sent, length-addresses, run-second}
use cache_hierarchy_simulato.Hierarchy.Log.{run-mem_time}
use cache_hierarchy_simulato.Hierarchy.Invariant.{bind_inv, ok-injective}
use cache_hierarchy_simulato.Hierarchy.Counts.{Counted, access-Counted, build-Counted}
use cache_hierarchy_simulato.Report.{Double, compute_amat}
use cache_hierarchy_simulato.Report.Amat.{IsRounded, HasTimes, compute_amat-le}

module _ {W : Type 0} (d : Double W) (r : IsRounded W d) where
  construct_hierarchy-mem_time :
      (cfg cfg' : CacheConfig W) (mem_time : W) (draws : ℕ) (h : CacheHierarchy W 1)
      → construct_hierarchy W (cfg ∷ cfg' ∷ []) mem_time draws ≡ ok (1, h)
      → h.mem_time ≡ mem_time
  unfolding construct_hierarchy
  construct_hierarchy-mem_time cfg cfg' mem_time draws h e =
      let (levels, built, made) = bind_inv (build_levels W (cfg ∷ cfg' ∷ [])) _ e in
      ap (λ (p : (n : ℕ) × CacheHierarchy W n). p.1.mem_time) (sym (ok-injective made))

  counted :
      {cfg : CacheConfig W} {before : List ℕ} {c : Cache W}
      → Counted cfg before c
      → length before < u64_mod
      → (c.stats.misses ≤ c.stats.accesses) × (c.stats.accesses < u64_mod)
  counted h room = (omega (arith, h.accesses, h.misses), omega (arith, h.accesses))

  -- The bounds of the access time, for levels whose times and counters are known.
  compute_amat-known :
      (h : CacheHierarchy W 1) (cfg cfg' : CacheConfig W) (mem_time : W) (before before' : List ℕ)
      → Counted cfg before h.world.level.0
      → Counted cfg' before' h.world.level.1.0
      → h.mem_time ≡ mem_time
      → length before < u64_mod
      → length before' < u64_mod
      → r.le d.nought cfg.hit_time ≡ true
      → r.le d.nought cfg'.hit_time ≡ true
      → r.le d.nought mem_time ≡ true
      → r.le (d.add cfg.hit_time (d.add cfg'.hit_time mem_time)) r.largest ≡ true
      → (r.le cfg.hit_time (compute_amat d h) ≡ true)
        × (r.le (compute_amat d h) (d.add cfg.hit_time (d.add cfg'.hit_time mem_time)) ≡ true)
  compute_amat-known h cfg cfg' mem_time before before' first second time room room' hit hit' mem
        finite =
      let t = ap (λ (c : CacheConfig W). c.hit_time) (sym first.cfg) in
      let t' = ap (λ (c : CacheConfig W). c.hit_time) (sym second.cfg) in
      let sum = ap₂ d.add t (ap₂ d.add t' (sym time)) in
      let (misses, word) = counted first room in
      let (misses', word') = counted second room' in
      let times : HasTimes d r 2 h.mem_time h.world.level = (
        subst (λ (x : W). r.le d.nought x ≡ true) t hit,
        misses,
        word,
        (
          subst (λ (x : W). r.le d.nought x ≡ true) t' hit',
          misses',
          word',
          subst (λ (x : W). r.le d.nought x ≡ true) (sym time) mem,
        ),
      ) in
      let (low, high) =
        compute_amat-le d r h times (subst (λ (x : W). r.le x r.largest ≡ true) sum finite) in
      (
        subst (λ (x : W). r.le x (compute_amat d h) ≡ true) (sym t) low,
        subst (λ (x : W). r.le (compute_amat d h) x ≡ true) (sym sum) high,
      )

  -- After any trace, a hierarchy of two levels reports an access time that is at least the hit time
  -- of its first level and at most the sum of the two hit times and the memory time, with the
  -- rounding of every operation, if the times are no NaN and not negative, the sum is finite, and
  -- each level has served fewer than 2^64 accesses.
  pub run-compute_amat :
      (rand : ℕ → ℕ) (cfg cfg' : CacheConfig W) (mem_time : W) (draws : ℕ) (h : CacheHierarchy W 1)
      (verbose : Bool) (trace : List Trace.Access)
      → construct_hierarchy W (cfg ∷ cfg' ∷ []) mem_time draws ≡ ok (1, h)
      → length (references trace []) < u64_mod
      → length (sent W rand trace h []) < u64_mod
      → r.le d.nought cfg.hit_time ≡ true
      → r.le d.nought cfg'.hit_time ≡ true
      → r.le d.nought mem_time ≡ true
      → r.le (d.add cfg.hit_time (d.add cfg'.hit_time mem_time)) r.largest ≡ true
      → let amat = compute_amat d (run W rand verbose trace h).0 in
        (r.le cfg.hit_time amat ≡ true)
        × (r.le amat (d.add cfg.hit_time (d.add cfg'.hit_time mem_time)) ≡ true)
  run-compute_amat rand cfg cfg' mem_time draws h verbose trace built room room' hit hit' mem
        finite =
      let first =
        run-first W rand (Counted cfg) (access-Counted cfg rand) cfg (cfg' ∷ []) mem_time draws
          {p = (1, h)} verbose trace (λ k accepted. build-Counted cfg k) built room in
      let second =
        run-second W rand (Counted cfg') (access-Counted cfg' rand) cfg cfg' [] mem_time draws h
          verbose trace (λ k accepted. build-Counted cfg' k) built room' in
      compute_amat-known (run W rand verbose trace h).0 cfg cfg' mem_time _ _ first second
        (run-mem_time rand verbose trace h
          ∙ construct_hierarchy-mem_time cfg cfg' mem_time draws h built)
        room (omega (arith, length-addresses (sent W rand trace h []))) hit hit' mem finite
