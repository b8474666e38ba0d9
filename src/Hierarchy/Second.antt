-- ===== src/Hierarchy/Second.antt =====
-- What the second level of a hierarchy keeps over a whole trace, for a claim that speaks of the
-- calls that the first level has made of it so far.
use mathlib.Core.Path.{subst}
use cache_hierarchy_simulato.Prelude.{
  ℕ, zero, suc, refl, ap, ◌+◌, ◌<◌, ◌≡◌, Bool, true, false, List, [], ◌∷◌, arith, length,
}
use cache_hierarchy_simulato.Word.{u64_mod}
use cache_hierarchy_simulato.Config.{CacheConfig}
use cache_hierarchy_simulato.Memory.{World, MemoryLevel}
use cache_hierarchy_simulato.Cache.{Cache, ok, construct, build}
use cache_hierarchy_simulato.Cache.Construct.{IsAccepted, construct_inv}
use cache_hierarchy_simulato.Access
use cache_hierarchy_simulato.Access.Branches.{Request}
use cache_hierarchy_simulato.Access.Calls.{after_calls, calls, access-calls}
use cache_hierarchy_simulato.Trace.{Op, read, write, modify, instr}
use cache_hierarchy_simulato.Trace
use cache_hierarchy_simulato.Hierarchy.{
  Levels, build_levels, CacheHierarchy, construct_hierarchy, access_level, access, one, feed, run,
}
use cache_hierarchy_simulato.Hierarchy.Log.{run-SameState}
use cache_hierarchy_simulato.Hierarchy.Invariant.{bind_inv, ok-injective}

module _ (Double : Type 0) (rand : ℕ → ℕ) {n : ℕ} where
  -- The calls of the second level for one access of the CPU.
  abbrev pub sent_one : ℕ → Bool → CacheHierarchy Double (suc n) → List Request
  sent_one addr b h =
      calls rand (access_level Double rand (suc n)) addr b h.world.level.0
        (record { draws = h.world.draws; level = h.world.level.1 })

  abbrev pub sent_feed : Op → ℕ → CacheHierarchy Double (suc n) → List Request → List Request
  sent_feed read addr h before = after_calls (sent_one addr false h) before
  sent_feed write addr h before = after_calls (sent_one addr true h) before
  sent_feed modify addr h before =
      let h' = (one Double rand false addr false b'R' h).0 in
      after_calls (sent_one addr true h') (after_calls (sent_one addr false h) before)
  sent_feed instr addr h before = before

  -- The calls of the second level for a trace, the newest first.
  unfoldable pub sent :
      List Trace.Access → CacheHierarchy Double (suc n) → List Request → List Request
  sent [] h before = before
  sent (a ∷ rest) h before =
      sent rest (feed Double rand false a.op a.addr h).0 (sent_feed a.op a.addr h before)

  module _ {κ} (Q : List Request → Levels Double (suc n) → Type κ)
      (step : (r : Request) (w : World (Levels Double (suc n))) (before : List Request)
        → Q before w.level
        → Q (r ∷ before) (access_level Double rand (suc n) r.addr r.is_write w).1.level) where
    one-sent :
        (addr : ℕ) (b : Bool) (opc : ℕ) (h : CacheHierarchy Double (suc n)) (before : List Request)
        → Q before h.world.level.1
        → Q
            (after_calls (sent_one addr b h) before)
            (one Double rand false addr b opc h).0.world.level.1
    unfolding one access access_level
    one-sent addr b opc h before q =
        access-calls rand (access_level Double rand (suc n)) addr b h.world.level.0
          (record { draws = h.world.draws; level = h.world.level.1 }) Q step before q

    feed-sent :
        (op : Op) (addr : ℕ) (h : CacheHierarchy Double (suc n)) (before : List Request)
        → Q before h.world.level.1
        → Q (sent_feed op addr h before) (feed Double rand false op addr h).0.world.level.1
    unfolding feed
    feed-sent read addr h before q = one-sent addr false b'R' h before q
    feed-sent write addr h before q = one-sent addr true b'W' h before q
    feed-sent modify addr h before q =
        one-sent addr true b'W' _ _ (one-sent addr false b'R' h before q)
    feed-sent instr addr h before q = q

    -- What every call of the second level keeps holds after a trace, for exactly the calls that the
    -- first level has made.
    pub run-sent :
        (trace : List Trace.Access) (h : CacheHierarchy Double (suc n)) (before : List Request)
        → Q before h.world.level.1
        → Q (sent trace h before) (run Double rand false trace h).0.world.level.1
    unfolding run sent
    run-sent [] h before q = q
    run-sent (a ∷ rest) h before q =
        run-sent rest (feed Double rand false a.op a.addr h).0 (sent_feed a.op a.addr h before)
          (feed-sent a.op a.addr h before q)

abbrev pub addresses : List Request → List ℕ
addresses [] = []
addresses (r ∷ rs) = r.addr ∷ addresses rs

pub length-addresses : (rs : List Request) → length (addresses rs) ≡ length rs
length-addresses [] = refl
length-addresses (r ∷ rs) = ap suc (length-addresses rs)

module _ {κ} (Double : Type 0) (rand : ℕ → ℕ) (P : List ℕ → Cache Double → Type κ)
    (step : (S : Type 0) (next : MemoryLevel S) (addr : ℕ) (b : Bool) (c : Cache Double)
        (w : World S) (before : List ℕ)
      → length before + 1 < u64_mod
      → P before c
      → P (addr ∷ before) (Access.access rand next addr b c w).1) where
  -- The claim on the second level, as long as it has served fewer than 2^64 calls.
  abbrev Claim : (n : ℕ) → List Request → Levels Double (suc n) → Type κ
  Claim n before s = length before < u64_mod → P (addresses before) s.0

  Claim-step :
      (n : ℕ) (r : Request) (w : World (Levels Double (suc n))) (before : List Request)
      → Claim n before w.level
      → Claim n (r ∷ before) (access_level Double rand (suc n) r.addr r.is_write w).1.level
  unfolding access_level
  Claim-step n r w before h room =
      step (Levels Double n) (access_level Double rand n) r.addr r.is_write w.level.0
        (record { draws = w.draws; level = w.level.1 }) (addresses before)
        (omega (arith, length-addresses before)) (h (omega arith))

  -- The second level of a hierarchy that has one.
  abbrev SecondIs : (Cache Double → Type κ) → (n : ℕ) × CacheHierarchy Double n → Type κ
  SecondIs T (zero, h) = Unit
  SecondIs T (suc n, h) = T h.world.level.1.0

  -- What holds of a new second level and is kept by every access holds after every trace that calls
  -- it fewer than 2^64 times.
  pub run-second :
      (cfg cfg' : CacheConfig Double) (cfgs : List (CacheConfig Double)) (mem_time : Double)
      (draws : ℕ) {n : ℕ} (h : CacheHierarchy Double (suc n)) (verbose : Bool)
      (trace : List Trace.Access)
      → ((k : ℕ) → IsAccepted cfg' k → P [] (build cfg' k))
      → construct_hierarchy Double (cfg ∷ cfg' ∷ cfgs) mem_time draws ≡ ok (suc n, h)
      → length (sent Double rand trace h []) < u64_mod
      → P
          (addresses (sent Double rand trace h []))
          (run Double rand verbose trace h).0.world.level.1.0
  unfolding construct_hierarchy build_levels
  run-second cfg cfg' cfgs mem_time draws {n} h verbose trace fresh e room =
      let (levels, built, made) = bind_inv (build_levels Double (cfg ∷ cfg' ∷ cfgs)) _ e in
      let (below, deeper, rest) = bind_inv (build_levels Double (cfg' ∷ cfgs)) _ built in
      let (below', deeper', rest') = bind_inv (build_levels Double cfgs) _ deeper in
      let (c, top, pair) = bind_inv (construct cfg false) _ rest in
      let (c', top', pair') = bind_inv (construct cfg' false) _ rest' in
      let (k, second, accepted, _) = construct_inv cfg' false c' top' in
      let served : P [] c' = rw second (fresh k accepted) in
      let first : P [] below.0 =
        subst (λ (l : Levels Double (suc (length cfgs))). P [] l.0) (ok-injective pair') served in
      let both : P [] levels.1.0 =
        subst (λ (l : Levels Double (suc (suc (length cfgs)))). P [] l.1.0) (ok-injective pair)
          first in
      let start : P [] h.world.level.1.0 = subst (SecondIs (P [])) (ok-injective made) both in
      let same =
        run-SameState rand {n = suc n} false verbose trace {h = h} {h' = h}
          (record { world = refl; mem_time = refl }) in
      subst
        (λ (w : World (Levels Double (suc (suc n)))).
          P (addresses (sent Double rand trace h [])) w.level.1.0)
        same.world (run-sent Double rand (Claim n) (Claim-step n) trace h [] (λ _. start) room)
