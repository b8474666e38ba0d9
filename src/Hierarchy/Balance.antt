-- ===== src/Hierarchy/Balance.antt =====
-- The counters of neighbouring levels of src/hierarchy.cpp, for a whole trace.
use mathlib.Core.Path.{subst}
use cache_hierarchy_simulato.Prelude.{
  ℕ, zero, suc, ◌≡◌, refl, ap, Bool, true, false, List, [], ◌∷◌, length, arith,
}
use cache_hierarchy_simulato.Config.{CacheConfig, zero_stats}
use cache_hierarchy_simulato.Cache.{ok, construct}
use cache_hierarchy_simulato.Cache.Construct.{construct_inv}
use cache_hierarchy_simulato.Hierarchy.{
  Levels, build_levels, CacheHierarchy, construct_hierarchy, access, one, feed, run,
}
use cache_hierarchy_simulato.Hierarchy.Traffic.{LevelsAgree, access_level-LevelsAgree}
use cache_hierarchy_simulato.Hierarchy.Invariant.{bind_inv, ok-injective}
use cache_hierarchy_simulato.Trace.{Op, read, write, modify, instr}
use cache_hierarchy_simulato.Trace

module _ (Double : Type 0) where
  -- Every counter of the chain is 0.
  IsFresh : (n : ℕ) → Levels Double n → Type 0
  IsFresh zero m = (m.reads ≡ 0) × (m.writes ≡ 0)
  IsFresh (suc n) s = (s.0.stats ≡ zero_stats) × IsFresh n s.1

  build_levels-IsFresh :
      (cfgs : List (CacheConfig Double)) (s : Levels Double (length cfgs))
      → build_levels Double cfgs ≡ ok s
      → IsFresh (length cfgs) s
  unfolding build_levels IsFresh
  build_levels-IsFresh [] s e = subst (IsFresh 0) (ok-injective e) (refl, refl)
  build_levels-IsFresh (cfg ∷ cfgs) s e =
      let (below, deeper, rest) = bind_inv (build_levels Double cfgs) _ e in
      let (c, top, pair) = bind_inv (construct cfg false) _ rest in
      let (_, built, _, _) = construct_inv cfg false c top in
      let same : (c, below) ≡ s = ok-injective pair in
      subst (IsFresh (suc (length cfgs))) same
        (ap (λ d. d.stats) built, build_levels-IsFresh cfgs below deeper)

  module _ (rand : ℕ → ℕ) where
    fresh-LevelsAgree : (n : ℕ) (s : Levels Double n) → IsFresh n s → LevelsAgree Double rand n s
    unfolding IsFresh
    fresh-LevelsAgree zero s h = tt
    fresh-LevelsAgree (suc zero) s h = (ground (arith, h), tt)
    fresh-LevelsAgree (suc (suc n)) s h = (ground (arith, h), fresh-LevelsAgree (suc n) s.1 h.1)

    module _ {n : ℕ} where
      abbrev Balanced : CacheHierarchy Double n → Type 0
      Balanced h = LevelsAgree Double rand (suc n) h.world.level

      one-Balanced :
          (v : Bool) (addr : ℕ) (b : Bool) (opc : ℕ) (h : CacheHierarchy Double n)
          → Balanced h
          → Balanced (one Double rand v addr b opc h).0
      unfolding one access
      one-Balanced true addr b opc h agree =
          access_level-LevelsAgree Double rand (suc n) addr b h.world agree
      one-Balanced false addr b opc h agree =
          access_level-LevelsAgree Double rand (suc n) addr b h.world agree

      feed-Balanced :
          (v : Bool) (op : Op) (addr : ℕ) (h : CacheHierarchy Double n)
          → Balanced h
          → Balanced (feed Double rand v op addr h).0
      unfolding feed
      feed-Balanced v read addr h s = one-Balanced v addr false b'R' h s
      feed-Balanced v write addr h s = one-Balanced v addr true b'W' h s
      feed-Balanced v modify addr h s =
          one-Balanced v addr true b'W' _ (one-Balanced v addr false b'R' h s)
      feed-Balanced v instr addr h s = s

      run-Balanced :
          (v : Bool) (trace : List Trace.Access) (h : CacheHierarchy Double n)
          → Balanced h
          → Balanced (run Double rand v trace h).0
      unfolding run
      run-Balanced v [] h s = s
      run-Balanced v (a ∷ rest) h s = run-Balanced v rest _ (feed-Balanced v a.op a.addr h s)

  -- In a hierarchy that the constructor returns, after every trace and whatever std::rand()
  -- returns, the counters of each cache agree with those of the level below it, a cache or the
  -- memory: under write-allocate the misses of the cache are the loads that the level below has
  -- counted; under write-through its stores are the stores below; under write-back with
  -- write-allocate its write-backs are the stores below; and under write-back its misses and
  -- write-backs together are, modulo 2^64, the loads and stores below together.
  pub run-LevelsAgree :
      (rand : ℕ → ℕ) (cfgs : List (CacheConfig Double)) (mem_time : Double) (draws : ℕ)
      {p : (n : ℕ) × CacheHierarchy Double n} (verbose : Bool) (trace : List Trace.Access)
      → construct_hierarchy Double cfgs mem_time draws ≡ ok p
      → LevelsAgree Double rand (suc p.0) (run Double rand verbose trace p.1).0.world.level
  unfolding construct_hierarchy
  run-LevelsAgree rand [] mem_time draws verbose trace e = cc
  run-LevelsAgree rand (cfg ∷ cfgs) mem_time draws {p} verbose trace e =
      let (levels, built, made) = bind_inv (build_levels Double (cfg ∷ cfgs)) _ e in
      let fresh = build_levels-IsFresh (cfg ∷ cfgs) levels built in
      let start : Balanced rand p.1 =
        subst
          (λ (q : (n : ℕ) × CacheHierarchy Double n).
            LevelsAgree Double rand (suc q.0) q.1.world.level)
          (ok-injective made) (fresh-LevelsAgree rand (suc (length cfgs)) levels fresh) in
      run-Balanced rand verbose trace p.1 start
