-- ===== src/Recency/FullyAssociative.antt =====
-- A fully-associative LRU first level has no conflict misses (Cache::classify of src/cache.cpp).
use native.Mathlib.Nat.{mul_comm, mod-one, div-one, mod-eq_of_lt, div_self, mul-div_cancel}
use mathlib.Core.Path.{ap₂}
use cache_hierarchy_simulato.Prelude.{
  ℕ, ◌+◌, ◌*◌, ◌/◌, ◌%◌, ◌<◌, ◌≡◌, refl, ap, sym, ◌∙◌, Bool, true, false, List, [], ◌∷◌,
  if◌then◌else◌, contains, arith, length, inl, inr, Bool-cases,
}
use cache_hierarchy_simulato.Word.{u64, u64_mod}
use cache_hierarchy_simulato.Config.{CacheConfig, lru, is_no_write_allocate}
use cache_hierarchy_simulato.RefFaCache.Stack.{touch_stack}
use cache_hierarchy_simulato.Memory.{World, MemoryLevel}
use cache_hierarchy_simulato.Cache.{Cache, decode, ok}
use cache_hierarchy_simulato.Cache.Construct.{IsWords, build-IsShaped}
use cache_hierarchy_simulato.Access.{access}
use cache_hierarchy_simulato.Access.Transition.{access-Transition}
use cache_hierarchy_simulato.Classification.{Tally, count_class, stack_of, miss_class}
use cache_hierarchy_simulato.Classification.Shadow.{tally, Transition-SameGeometry}
use cache_hierarchy_simulato.Classification.History.{total_lines, access-classified}
use cache_hierarchy_simulato.Classification.Trace.{
  Served, access-Served, build-Served, blocks_of, length-blocks_of,
}
use cache_hierarchy_simulato.Trace
use cache_hierarchy_simulato.Hierarchy.{CacheHierarchy, construct_hierarchy, run}
use cache_hierarchy_simulato.Hierarchy.First.{references, run-first}
use cache_hierarchy_simulato.Recency.{Stacks, access_stacks, replay}
use cache_hierarchy_simulato.Recency.Trace.{
  Replayed, access-stacks, access-Replayed, build-Replayed,
}

-- The one stack of a cache of one set is that of the classification.
access_stacks-one :
    (ways block : ℕ) (st : Stacks)
    → let q = access_stacks ways false (block % 1) (block / 1) st in
      (q.0 ≡ (touch_stack ways block (st 0)).0) × (q.1 0 ≡ (touch_stack ways block (st 0)).1)
unfolding access_stacks
access_stacks-one ways block st = rw (mod-one block, div-one block) (ground arith)

replay-stack_of :
    (ways size : ℕ) (before : List ℕ)
    → (replay ways 1 size before).1 0 ≡ stack_of ways (blocks_of size before)
unfolding replay stack_of
replay-stack_of ways size [] = refl
replay-stack_of ways size (a ∷ before) =
    (access_stacks-one ways (a / size) (replay ways 1 size before).1).1
    ∙ ap (λ l. (touch_stack ways (a / size) l).1) (replay-stack_of ways size before)

-- A miss of the stack is no conflict.
no_conflict :
    (size : ℕ) (h : List ℕ) (b : ℕ) (t : Tally) (r : Bool)
    → r ≡ (touch_stack size b (stack_of size h)).0
    → (if r then t else count_class (miss_class size h b) t).conflict ≡ t.conflict
unfolding miss_class
no_conflict size h b t true e = refl
no_conflict size h b t false e = elim (Bool-cases (contains b h)) [
  | inl old ↦ rw (old, ← e) refl
  | inr new ↦ rw new refl
]

one_set :
    (size block ways : ℕ)
    → size ≡ ways * block
    → size < u64_mod
    → 0 < size
    → size / u64 (block * ways) ≡ 1
one_set size block ways e word some_size =
    let whole : u64 (block * ways) ≡ size =
      ap u64 (mul_comm block ways ∙ sym e) ∙ mod-eq_of_lt word in
    ap (λ k. size / k) whole ∙ div_self some_size

module _ {Double : Type 0} (ways size : ℕ) where
  record Ideal (before : List ℕ) (c : Cache Double) : Type 0 where
    served : Served size before c
    replayed : Replayed ways 1 size before c
    lines : total_lines c ≡ ways
    conflict : c.stats.conflict ≡ 0

  access-Ideal :
      (rand : ℕ → ℕ) (S : Type 0) (next : MemoryLevel S) (addr : ℕ) (b : Bool) (c : Cache Double)
      (w : World S) (before : List ℕ)
      → length before + 1 < u64_mod
      → Ideal before c
      → Ideal (addr ∷ before) (access rand next addr b c w).1
  access-Ideal rand S next addr b c w before room s =
      let h = blocks_of size before in
      let block = addr / size in
      let (counters, _) =
        access-classified rand addr b s.served.tracks (omega (arith, length-blocks_of size before))
          next w s.served.sound.shaped s.served.sound.unique in
      let (verdict, _) = access-stacks ways 1 size rand S next addr b c w before room s.replayed in
      let t = access-Transition rand addr b c next w in
      let same = Transition-SameGeometry rand addr b t in
      let known : miss_class (total_lines c) h (decode c addr).block_addr
          ≡ miss_class ways h block =
        ap₂ (λ (k x : ℕ). miss_class k h x) s.lines (s.served.block addr) in
      let agreed : (access rand next addr b c w).0 ≡ (touch_stack ways block (stack_of ways h)).0 =
        verdict
        ∙ (access_stacks-one ways block (replay ways 1 size before).1).0
        ∙ ap (λ l. (touch_stack ways block l).0) (replay-stack_of ways size before) in
      record {
        served = access-Served size rand next addr b c w before room s.served;
        replayed = access-Replayed ways 1 size rand S next addr b c w before room s.replayed;
        lines = ap (λ (g : CacheConfig Double). g.size_bytes / g.block_size) same.cfg ∙ s.lines;
        conflict =
            ap (λ (t : Tally). t.conflict) counters
            ∙ ap
                (λ k.
                  (if (access rand next addr b c w).0
                    then tally c
                    else count_class k (tally c)).conflict)
                known
            ∙ no_conflict ways h block (tally c) (access rand next addr b c w).0 agreed
            ∙ s.conflict;
      }

module _ (Double : Type 0) where
  -- In a hierarchy that the constructor returns, whose first level holds 64-bit words, has one set,
  -- is LRU, allocates on stores and classifies its misses, no miss of the first level is counted as
  -- a conflict in a trace of fewer than 2^64 CPU accesses.
  pub run-no_conflict :
      (rand : ℕ → ℕ) (cfg : CacheConfig Double) (cfgs : List (CacheConfig Double))
      (mem_time : Double) (draws : ℕ) {p : (n : ℕ) × CacheHierarchy Double n} (verbose : Bool)
      (trace : List Trace.Access)
      → IsWords cfg
      → cfg.replacement ≡ lru
      → is_no_write_allocate cfg.alloc_policy ≡ false
      → cfg.classify_3c ≡ true
      → cfg.size_bytes ≡ cfg.associativity * cfg.block_size
      → construct_hierarchy Double (cfg ∷ cfgs) mem_time draws ≡ ok p
      → length (references trace []) < u64_mod
      → (run Double rand verbose trace p.1).0.world.level.0.stats.conflict ≡ 0
  run-no_conflict rand cfg cfgs mem_time draws {p} verbose trace words chosen allocates on one e
        room =
      let ideal =
        run-first Double rand (Ideal cfg.associativity cfg.block_size)
          (access-Ideal cfg.associativity cfg.block_size rand) cfg cfgs mem_time draws verbose trace
          (λ k accepted.
            let shaped = build-IsShaped cfg words k accepted in
            record {
              served = build-Served cfg k shaped on;
              replayed =
                  build-Replayed cfg.associativity 1 cfg.block_size cfg k shaped chosen allocates
                    refl
                    (accepted.quotient
                      ∙ one_set cfg.size_bytes cfg.block_size cfg.associativity one words.size
                          accepted.size_pos)
                    refl;
              lines =
                  ap (λ k. k / cfg.block_size) one
                  ∙ mul-div_cancel cfg.associativity accepted.block_pos;
              conflict = refl;
            })
          e room in
      ideal.conflict
