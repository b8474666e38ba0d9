-- ===== src/Tracegen/Sweep.antt =====
-- A whole run of the simulator on the file that seqscan of scripts/tracegen.cpp prints.
use native.Mathlib.Nat.{add-div_right, div-lt_iff_lt-mul}
use cache_hierarchy_simulato.Prelude.{
  ℕ, zero, suc, ◌+◌, ◌-◌, ◌*◌, ◌/◌, ◌≤◌, ◌<◌, ◌≡◌, refl, ap, ◌∙◌, inl, inr, Bool, true, List, [],
  ◌∷◌, ◌++◌, All, arith, length, ◌==◌, Bool-cases,
}
use cache_hierarchy_simulato.Word.{u64_mod}
use cache_hierarchy_simulato.Config.{CacheConfig}
use cache_hierarchy_simulato.Cache.{ok}
use cache_hierarchy_simulato.Cache.Construct.{IsWords}
use cache_hierarchy_simulato.Trace.Reader.{split_lines}
use cache_hierarchy_simulato.Trace.Stream.{records}
use cache_hierarchy_simulato.Hierarchy.{CacheHierarchy, construct_hierarchy, run}
use cache_hierarchy_simulato.Hierarchy.First.{references}
use cache_hierarchy_simulato.Classification.{distinct}
use cache_hierarchy_simulato.Classification.Trace.{blocks_of, run-compulsory}
use cache_hierarchy_simulato.Tracegen.{Emitted, load, for_loop, seqscan}
use cache_hierarchy_simulato.Tracegen.Scan.{IsDataAccess, recorded}
use cache_hierarchy_simulato.Tracegen.Command.{print_file}
use cache_hierarchy_simulato.Tracegen.Loops.{IsArrayLoad, seqscan-loads}
use cache_hierarchy_simulato.Tracegen.Files.{file-records}
use cache_hierarchy_simulato.Tracegen.Footprint.{sweep, sweeps, Climbs, distinct-sweeps}

-- The addresses that the CPU accesses for the calls of emit, the newest first.
abbrev touched : List Emitted → List ℕ → List ℕ
touched [] before = before
touched (e ∷ es) before = touched es (e.addr ∷ before)

touched-append :
    (xs ys : List Emitted) (before : List ℕ)
    → touched (xs ++ ys) before ≡ touched ys (touched xs before)
touched-append [] ys before = refl
touched-append (e ∷ xs) ys before = touched-append xs ys (e.addr ∷ before)

references-recorded :
    (es : List Emitted) (before : List ℕ) → references (recorded es) before ≡ touched es before
unfolding references
references-recorded [] before = refl
references-recorded (e ∷ es) before = elim (Bool-cases (e.op == b'L')) [
  | inl loads ↦ rw loads (references-recorded es (e.addr ∷ before))
  | inr stores ↦ rw stores (references-recorded es (e.addr ∷ before))
]

div_mono : (s : ℕ) → 0 < s → (x y : ℕ) → x ≤ y → x / s ≤ y / s
div_mono s some x y h =
    let below : y < suc (y / s) * s = (div-lt_iff_lt-mul some).0 (omega arith) in
    let less : x / s < suc (y / s) = (div-lt_iff_lt-mul some).1 (omega arith) in omega arith

module _ (base size : ℕ) where
  -- The block of an element of the array.
  abbrev block_at : ℕ → ℕ
  block_at i = (base + 8 * i) / size

  pass-sweep :
      (first count : ℕ) (before : List ℕ)
      → blocks_of size (touched (for_loop first count (λ i. load (base + 8 * i) ∷ [])) before)
        ≡ sweep block_at first count (blocks_of size before)
  unfolding for_loop sweep
  pass-sweep first zero before = refl
  pass-sweep first (suc count) before = pass-sweep (suc first) count ((base + 8 * first) ∷ before)

  passes-sweeps :
      (first count passes : ℕ) (before : List ℕ)
      → blocks_of size (
          touched
            (for_loop first passes (λ pass. for_loop 0 count (λ i. load (base + 8 * i) ∷ [])))
            before)
        ≡ sweeps block_at count passes (blocks_of size before)
  unfolding for_loop sweeps
  passes-sweeps first count zero before = refl
  passes-sweeps first count (suc passes) before =
      let once = for_loop 0 count (λ i. load (base + 8 * i) ∷ []) in
      ap (blocks_of size) (touched-append once _ before)
      ∙ passes-sweeps (suc first) count passes (touched once before)
      ∙ ap (sweeps block_at count passes) (pass-sweep 0 count before)

  block_at-Climbs : 8 ≤ size → Climbs block_at
  block_at-Climbs wide i =
      let here = base + 8 * i in
      let there = base + 8 * suc i in
      let one_on : (here + size) / size ≡ here / size + 1 = add-div_right here (omega arith) in
      (
        div_mono size (omega arith) here there (omega arith),
        omega (arith, one_on, div_mono size (omega arith) there (here + size) (omega arith)),
      )

length-touched :
    (es : List Emitted) (before : List ℕ) → length (touched es before) ≡ length es + length before
length-touched [] before = omega arith
length-touched (e ∷ es) before = omega (arith, length-touched es (e.addr ∷ before))

loads-IsDataAccess :
    (base bytes : ℕ) (es : List Emitted)
    → base + bytes ≤ u64_mod
    → All (IsArrayLoad base bytes) es
    → All IsDataAccess es
loads-IsDataAccess base bytes [] fits h = tt
loads-IsDataAccess base bytes (e ∷ es) fits ((kind, size, (low, high)), h) =
    ((inl kind, omega arith, size), loads-IsDataAccess base bytes es fits h)

-- The different blocks that seqscan loads from.
seqscan-blocks :
    (base size bytes passes : ℕ)
    → 8 ≤ size
    → 8 ≤ bytes
    → 0 < passes
    → distinct (blocks_of size (touched (seqscan base bytes passes) []))
      ≡ suc ((base + 8 * (bytes / 8 - 1)) / size - base / size)
unfolding seqscan
seqscan-blocks base size bytes passes wide element some_pass =
    let last = bytes / 8 - 1 in
    let count : bytes / 8 ≡ suc last = omega arith in
    let more : passes ≡ suc (passes - 1) = omega arith in
    let start : base + 8 * 0 ≡ base = omega arith in
    ap distinct (passes-sweeps base size 0 (bytes / 8) passes [])
    ∙ ap (λ n. distinct (sweeps (block_at base size) n passes [])) count
    ∙ ap (λ n. distinct (sweeps (block_at base size) (suc last) n [])) more
    ∙ distinct-sweeps (block_at base size) (block_at-Climbs base size wide) last (passes - 1)
    ∙ ap (λ x. suc ((base + 8 * last) / size - x / size)) start

module _ (Double : Type 0) where
  -- In a hierarchy that the constructor returns, whose first level classifies its misses and holds
  -- 64-bit words with blocks of at least 8 bytes, the run on the file that seqscan prints for an array
  -- of at least one element in the 64-bit address space counts as compulsory misses exactly the blocks
  -- from that of the first to that of the last element, however often the array is scanned, if it
  -- is, and the loads are fewer than 2^64.
  pub run-seqscan :
      (rand : ℕ → ℕ) (cfg : CacheConfig Double) (cfgs : List (CacheConfig Double))
      (mem_time : Double) (draws : ℕ) {p : (n : ℕ) × CacheHierarchy Double n} (verbose : Bool)
      (base bytes passes : ℕ)
      → IsWords cfg
      → cfg.classify_3c ≡ true
      → construct_hierarchy Double (cfg ∷ cfgs) mem_time draws ≡ ok p
      → 8 ≤ cfg.block_size
      → 8 ≤ bytes
      → base + bytes ≤ u64_mod
      → 0 < passes
      → passes * (bytes / 8 * 1) < u64_mod
      → let file = print_file (seqscan base bytes passes) in
        (run Double rand verbose (records (split_lines file)) p.1).0.world.level.0.stats.compulsory
        ≡ suc ((base + 8 * (bytes / 8 - 1)) / cfg.block_size - base / cfg.block_size)
  run-seqscan rand cfg cfgs mem_time draws {p} verbose base bytes passes words on e wide element
        fits some_pass room =
      let es = seqscan base bytes passes in
      let (many, loads) = seqscan-loads base bytes passes in
      let read_back = file-records es (loads-IsDataAccess base bytes es fits loads) in
      let refs : references (recorded es) [] ≡ touched es [] = references-recorded es [] in
      let count : length (references (recorded es) []) < u64_mod =
        omega (arith, ap length refs, length-touched es [], many) in
      ap (λ t. (run Double rand verbose t p.1).0.world.level.0.stats.compulsory) read_back
      ∙ run-compulsory Double rand cfg cfgs mem_time draws {p = p} verbose (recorded es) words on e
          count
      ∙ ap (λ l. distinct (blocks_of cfg.block_size l)) refs
      ∙ seqscan-blocks base cfg.block_size bytes passes wide element some_pass
