-- ===== src/Hierarchy/First.antt =====
-- What the first level of a hierarchy keeps over a whole trace, for a claim that speaks of the
-- addresses that the CPU has accessed so far.
use mathlib.Core.Path.{subst}
use cache_hierarchy_simulato.Prelude.{
  ℕ, suc, ◌+◌, ◌≤◌, ◌<◌, ◌≡◌, Bool, true, false, List, [], ◌∷◌, arith, length,
}
use cache_hierarchy_simulato.Word.{u64_mod}
use cache_hierarchy_simulato.Config.{CacheConfig}
use cache_hierarchy_simulato.Memory.{World, MemoryLevel}
use cache_hierarchy_simulato.Cache.{Cache, ok, construct, build}
use cache_hierarchy_simulato.Cache.Construct.{IsAccepted, construct_inv}
use cache_hierarchy_simulato.Access
use cache_hierarchy_simulato.Trace.{Op, read, write, modify, instr}
use cache_hierarchy_simulato.Trace
use cache_hierarchy_simulato.Hierarchy.{
  Levels, build_levels, CacheHierarchy, construct_hierarchy, access_level, access, one, feed, run,
}
use cache_hierarchy_simulato.Hierarchy.Invariant.{bind_inv, ok-injective}

-- The addresses that the CPU accesses for a trace, the newest first, before them those of `as`.
abbrev pub references_of : Op → ℕ → List ℕ → List ℕ
references_of read a before = a ∷ before
references_of write a before = a ∷ before
references_of modify a before = a ∷ a ∷ before
references_of instr a before = before

unfoldable pub references : List Trace.Access → List ℕ → List ℕ
references [] before = before
references (a ∷ rest) before = references rest (references_of a.op a.addr before)

length-references_of :
    (op : Op) (a : ℕ) (before : List ℕ) → length before ≤ length (references_of op a before)
length-references_of read a before = omega arith
length-references_of write a before = omega arith
length-references_of modify a before = omega arith
length-references_of instr a before = omega arith

length-references :
    (trace : List Trace.Access) (before : List ℕ) → length before ≤ length (references trace before)
unfolding references
length-references [] before = omega arith
length-references (a ∷ rest) before = omega (
  arith,
  length-references_of a.op a.addr before,
  length-references rest (references_of a.op a.addr before),
)

-- A claim on the addresses accessed, the newest first, and the first level.
module _ {κ} {Double : Type 0} (rand : ℕ → ℕ) (P : List ℕ → Cache Double → Type κ)
    (step : (S : Type 0) (next : MemoryLevel S) (addr : ℕ) (b : Bool) (c : Cache Double)
        (w : World S) (before : List ℕ)
      → length before + 1 < u64_mod
      → P before c
      → P (addr ∷ before) (Access.access rand next addr b c w).1)
    {n : ℕ} where
  abbrev first_level : CacheHierarchy Double n → Cache Double
  first_level h = h.world.level.0

  one-keeps :
      (v : Bool) (addr : ℕ) (b : Bool) (opc : ℕ) (h : CacheHierarchy Double n) (before : List ℕ)
      → length before + 1 < u64_mod
      → P before (first_level h)
      → P (addr ∷ before) (first_level (one Double rand v addr b opc h).0)
  unfolding one access access_level
  one-keeps true addr b opc h before room s =
      step (Levels Double n) (access_level Double rand n) addr b h.world.level.0 _ before room s
  one-keeps false addr b opc h before room s =
      step (Levels Double n) (access_level Double rand n) addr b h.world.level.0 _ before room s

  feed-keeps :
      (v : Bool) (op : Op) (addr : ℕ) (h : CacheHierarchy Double n) (before : List ℕ)
      → length (references_of op addr before) < u64_mod
      → P before (first_level h)
      → P (references_of op addr before) (first_level (feed Double rand v op addr h).0)
  unfolding feed
  feed-keeps v read addr h before room s = one-keeps v addr false b'R' h before (omega arith) s
  feed-keeps v write addr h before room s = one-keeps v addr true b'W' h before (omega arith) s
  feed-keeps v modify addr h before room s =
      one-keeps v addr true b'W' _ (addr ∷ before) (omega arith)
        (one-keeps v addr false b'R' h before (omega arith) s)
  feed-keeps v instr addr h before room s = s

  run-keeps :
      (v : Bool) (trace : List Trace.Access) (h : CacheHierarchy Double n) (before : List ℕ)
      → length (references trace before) < u64_mod
      → P before (first_level h)
      → P (references trace before) (first_level (run Double rand v trace h).0)
  unfolding run references
  run-keeps v [] h before room s = s
  run-keeps v (a ∷ rest) h before room s =
      let now = references_of a.op a.addr before in
      run-keeps v rest (feed Double rand v a.op a.addr h).0 now room
        (feed-keeps v a.op a.addr h before (omega (arith, length-references rest now)) s)

module _ {κ} (Double : Type 0) (rand : ℕ → ℕ) (P : List ℕ → Cache Double → Type κ)
    (step : (S : Type 0) (next : MemoryLevel S) (addr : ℕ) (b : Bool) (c : Cache Double)
        (w : World S) (before : List ℕ)
      → length before + 1 < u64_mod
      → P before c
      → P (addr ∷ before) (Access.access rand next addr b c w).1) where
  -- What holds of the first level of a new hierarchy and is kept by every access holds after every
  -- trace of fewer than 2^64 accesses of the CPU.
  pub run-first :
      (cfg : CacheConfig Double) (cfgs : List (CacheConfig Double)) (mem_time : Double) (draws : ℕ)
      {p : (n : ℕ) × CacheHierarchy Double n} (verbose : Bool) (trace : List Trace.Access)
      → ((k : ℕ) → IsAccepted cfg k → P [] (build cfg k))
      → construct_hierarchy Double (cfg ∷ cfgs) mem_time draws ≡ ok p
      → length (references trace []) < u64_mod
      → P (references trace []) (run Double rand verbose trace p.1).0.world.level.0
  unfolding construct_hierarchy build_levels
  run-first cfg cfgs mem_time draws {p} verbose trace fresh e room =
      let (levels, built, made) = bind_inv (build_levels Double (cfg ∷ cfgs)) _ e in
      let (below, deeper, rest) = bind_inv (build_levels Double cfgs) _ built in
      let (c, top, pair) = bind_inv (construct cfg false) _ rest in
      let (k, first, accepted, _) = construct_inv cfg false c top in
      let served : P [] c = rw first (fresh k accepted) in
      let level : P [] levels.0 =
        subst (λ (l : Levels Double (suc (length cfgs))). P [] l.0) (ok-injective pair) served in
      let start : P [] p.1.world.level.0 =
        subst (λ (q : (n : ℕ) × CacheHierarchy Double n). P [] q.1.world.level.0)
          (ok-injective made) level in
      run-keeps rand P step verbose trace p.1 [] room start
