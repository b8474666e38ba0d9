-- ===== src/Hierarchy/Invariant.antt =====
-- The invariant of the levels of src/hierarchy.cpp, and CacheHierarchy::checkInvariants.
use mathlib.Core.Path.{subst}
use cache_hierarchy_simulato.Prelude.{
  ℕ, zero, suc, ◌≡◌, refl, Bool, true, false, List, [], ◌∷◌, All, length,
}
use cache_hierarchy_simulato.Config.{CacheConfig}
use cache_hierarchy_simulato.Memory.{World}
use cache_hierarchy_simulato.Cache.{ok, failed, ◌>>=◌, construct, Result}
use cache_hierarchy_simulato.Cache.Construct.{IsWords}
use cache_hierarchy_simulato.Access.Sound.{IsSound, construct-IsSound, access-IsSound, access-keeps}
use cache_hierarchy_simulato.Check.Passes.{check_invariants-passes}
use cache_hierarchy_simulato.Hierarchy.{
  Levels, build_levels, CacheHierarchy, construct_hierarchy, access_level, access, one, feed, run,
  check_levels, check_hierarchy,
}
use cache_hierarchy_simulato.Trace.{Op, read, write, modify, instr}
use cache_hierarchy_simulato.Trace

pub bind_inv {ℓ κ} :
    {A : Type ℓ} {B : Type κ} (m : Result A) (f : A → Result B) {b : B}
    → m >>= f ≡ ok b
    → (a : A) × (m ≡ ok a) × (f a ≡ ok b)
bind_inv (ok a) f e = (a, refl, e)
bind_inv (failed x) f e = cc

pub ok-injective {ℓ} : {A : Type ℓ} {a b : A} → ok a ≡ ok b → a ≡ b
ok-injective e = cc

module _ (Double : Type 0) where
  -- Every cache of the chain satisfies the invariant.
  abbrev pub AreSound : (n : ℕ) → Levels Double n → Type 0
  AreSound zero m = Unit
  AreSound (suc n) s = IsSound s.0 × AreSound n s.1

  build_levels-AreSound :
      (cfgs : List (CacheConfig Double)) (s : Levels Double (length cfgs))
      → All IsWords cfgs
      → build_levels Double cfgs ≡ ok s
      → AreSound (length cfgs) s
  unfolding build_levels
  build_levels-AreSound [] s h e = tt
  build_levels-AreSound (cfg ∷ cfgs) s h e =
      let (below, deeper, rest) = bind_inv (build_levels Double cfgs) _ e in
      let (c, top, pair) = bind_inv (construct cfg false) _ rest in
      let same : (c, below) ≡ s = ok-injective pair in
      subst (AreSound (suc (length cfgs))) same
        (construct-IsSound cfg false h.0 top, build_levels-AreSound cfgs below h.1 deeper)

  pub access_level-AreSound :
      (rand : ℕ → ℕ) (n addr : ℕ) (b : Bool) (w : World (Levels Double n))
      → AreSound n w.level
      → AreSound n (access_level Double rand n addr b w).1.level
  unfolding access_level
  access_level-AreSound rand zero addr b w h = tt
  access_level-AreSound rand (suc n) addr b w h =
      let below : World (Levels Double n) = record { draws = w.draws; level = w.level.1 } in
      (
        access-IsSound rand (access_level Double rand n) addr b w.level.0 below h.0,
        access-keeps rand (access_level Double rand n) (AreSound n) (access_level-AreSound rand n)
            addr b w.level.0 below h.1,
      )

  pub check_levels-passes :
      (n : ℕ) (s : Levels Double n) → AreSound n s → check_levels Double n s ≡ true
  unfolding check_levels
  check_levels-passes zero m h = refl
  check_levels-passes (suc n) s h =
      rw (check_invariants-passes s.0 h.0.counts h.0.clean) (check_levels-passes n s.1 h.1)

  module _ (rand : ℕ → ℕ) {n : ℕ} where
    abbrev pub IsSoundHierarchy : CacheHierarchy Double n → Type 0
    IsSoundHierarchy h = AreSound (suc n) h.world.level

    one-IsSoundHierarchy :
        (v : Bool) (addr : ℕ) (b : Bool) (opc : ℕ) (h : CacheHierarchy Double n)
        → IsSoundHierarchy h
        → IsSoundHierarchy (one Double rand v addr b opc h).0
    unfolding one access
    one-IsSoundHierarchy true addr b opc h sound =
        access_level-AreSound rand (suc n) addr b h.world sound
    one-IsSoundHierarchy false addr b opc h sound =
        access_level-AreSound rand (suc n) addr b h.world sound

    feed-IsSoundHierarchy :
        (v : Bool) (op : Op) (addr : ℕ) (h : CacheHierarchy Double n)
        → IsSoundHierarchy h
        → IsSoundHierarchy (feed Double rand v op addr h).0
    unfolding feed
    feed-IsSoundHierarchy v read addr h s = one-IsSoundHierarchy v addr false b'R' h s
    feed-IsSoundHierarchy v write addr h s = one-IsSoundHierarchy v addr true b'W' h s
    feed-IsSoundHierarchy v modify addr h s =
        one-IsSoundHierarchy v addr true b'W' _ (one-IsSoundHierarchy v addr false b'R' h s)
    feed-IsSoundHierarchy v instr addr h s = s

    pub run-IsSoundHierarchy :
        (v : Bool) (trace : List Trace.Access) (h : CacheHierarchy Double n)
        → IsSoundHierarchy h
        → IsSoundHierarchy (run Double rand v trace h).0
    unfolding run
    run-IsSoundHierarchy v [] h s = s
    run-IsSoundHierarchy v (a ∷ rest) h s =
        run-IsSoundHierarchy v rest _ (feed-IsSoundHierarchy v a.op a.addr h s)

  -- A hierarchy of 64-bit configurations that the constructor returns passes its invariant checks
  -- after every trace, whatever std::rand() returns.
  pub check_hierarchy-run :
      (rand : ℕ → ℕ) (cfgs : List (CacheConfig Double)) (mem_time : Double) (draws : ℕ)
      {p : (n : ℕ) × CacheHierarchy Double n} (verbose : Bool) (trace : List Trace.Access)
      → All IsWords cfgs
      → construct_hierarchy Double cfgs mem_time draws ≡ ok p
      → check_hierarchy Double (run Double rand verbose trace p.1).0 ≡ true
  unfolding construct_hierarchy check_hierarchy
  check_hierarchy-run rand [] mem_time draws verbose trace words e = cc
  check_hierarchy-run rand (cfg ∷ cfgs) mem_time draws {p} verbose trace words e =
      let (levels, built, made) = bind_inv (build_levels Double (cfg ∷ cfgs)) _ e in
      let sound = build_levels-AreSound (cfg ∷ cfgs) levels words built in
      let start : IsSoundHierarchy rand p.1 =
        subst (λ (q : (n : ℕ) × CacheHierarchy Double n). AreSound (suc q.0) q.1.world.level)
          (ok-injective made) sound in
      check_levels-passes (suc p.0) _ (run-IsSoundHierarchy rand verbose trace p.1 start)
