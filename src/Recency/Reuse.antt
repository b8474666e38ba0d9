-- ===== src/Recency/Reuse.antt =====
-- When an access of the CPU hits an LRU cache, in terms of the accesses before it.
use mathlib.Core.Path.{subst}
use cache_hierarchy_simulato.Prelude.{
  ℕ, suc, ◌+◌, ◌-◌, ◌*◌, ◌/◌, ◌%◌, ◌<◌, ◌≡◌, refl, ap, sym, ◌∙◌, Bool, true, false, List, [], ◌∷◌,
  ◌++◌, ◌==◌, if◌then◌else◌, leb, contains, arith, length, inl, inr, Bool-cases,
}
use cache_hierarchy_simulato.Word.{u64, u64_mod}
use cache_hierarchy_simulato.Config.{CacheConfig, lru, is_no_write_allocate}
use cache_hierarchy_simulato.Cache.{ok}
use cache_hierarchy_simulato.Cache.Construct.{IsWords, build-IsShaped}
use cache_hierarchy_simulato.Trace
use cache_hierarchy_simulato.Hierarchy.{
  Levels, CacheHierarchy, construct_hierarchy, access_level, access, run,
}
use cache_hierarchy_simulato.Hierarchy.First.{references, run-first}
use cache_hierarchy_simulato.RefFaCache.Stack.{touch_stack}
use cache_hierarchy_simulato.Classification.{stack_of, distinct}
use cache_hierarchy_simulato.Recency.{Stacks, update, access_stacks, replay}
use cache_hierarchy_simulato.Recency.Distance.{contains-stack_of}
use cache_hierarchy_simulato.Recency.Trace.{
  Replayed, access-stacks, access-Replayed, build-Replayed,
}

module _ (sets size : ℕ) where
  -- The tags of the accesses to a set, the newest first.
  abbrev pub tags_of : ℕ → List ℕ → List ℕ
  tags_of i [] = []
  tags_of i (a ∷ before) =
      if i == a / size % sets then a / size / sets ∷ tags_of i before else tags_of i before

  tags_of-append :
      (i : ℕ) (mid before : List ℕ) → tags_of i (mid ++ before) ≡ tags_of i mid ++ tags_of i before
  tags_of-append i [] before = refl
  tags_of-append i (a ∷ mid) before = elim (Bool-cases (i == a / size % sets)) [
    | inl here ↦ rw here (ap (λ l. a / size / sets ∷ l) (tags_of-append i mid before))
    | inr there ↦ rw there (tags_of-append i mid before)
  ]

  access_stacks-stack :
      (ways i tag : ℕ) (st : Stacks)
      → access_stacks ways false i tag st
        ≡ ((touch_stack ways tag (st i)).0, update st i (touch_stack ways tag (st i)).1)
  unfolding access_stacks
  access_stacks-stack ways i tag st = elim (Bool-cases (touch_stack ways tag (st i)).0) [
    | inl e ↦ rw e refl
    | inr e ↦ rw e refl
  ]

  -- The stack of a set is that of the accesses to the set.
  replay-stack :
      (ways i : ℕ) (refs : List ℕ)
      → (replay ways sets size refs).1 i ≡ stack_of ways (tags_of i refs)
  unfolding replay stack_of
  replay-stack ways i [] = refl
  replay-stack ways i (a ∷ before) =
      let st = (replay ways sets size before).1 in
      let j = a / size % sets in
      let tag = a / size / sets in
      ap (λ (q : Bool × Stacks). q.1 i) (access_stacks-stack ways j tag st)
      ∙ elim (Bool-cases (i == j)) [
        | inl here ↦
            let same : i ≡ j = ground arith in
            rw (stack_of, here)
              (ap (λ k. (touch_stack ways tag (st k)).1) (sym same)
                ∙ ap (λ l. (touch_stack ways tag l).1) (replay-stack ways i before))
        | inr there ↦ rw there (replay-stack ways i before)
      ]

touch_stack-contains : (ways b : ℕ) (l : List ℕ) → (touch_stack ways b l).0 ≡ contains b l
unfolding touch_stack
touch_stack-contains ways b l = elim (Bool-cases (contains b l)) [
  | inl e ↦ rw e refl
  | inr e ↦ rw e refl
]

-- The stacks hit a block that was used before, and not since, exactly if fewer different blocks of
-- its set than the set has ways were used since.
replay-reuse :
    (ways sets size a : ℕ) (mid before : List ℕ)
    → 0 < ways
    → let i = a / size % sets in
      let tag = a / size / sets in
      contains tag (tags_of sets size i mid) ≡ false
      → (access_stacks ways false i tag (replay ways sets size (mid ++ a ∷ before)).1).0
        ≡ leb (suc (distinct (tags_of sets size i mid))) ways
replay-reuse ways sets size a mid before some_way unused =
    let i = a / size % sets in
    let tag = a / size / sets in
    let w = ways - 1 in
    let st = (replay ways sets size (mid ++ a ∷ before)).1 in
    let here : (i == i) ≡ true = ground arith in
    let tags : tags_of sets size i (mid ++ a ∷ before)
        ≡ tags_of sets size i mid ++ tag ∷ tags_of sets size i before =
      tags_of-append sets size i mid (a ∷ before) ∙ rw here refl in
    let positive : ways ≡ suc w = omega arith in
    ap (λ (q : Bool × Stacks). q.0) (access_stacks-stack sets size ways i tag st)
    ∙ touch_stack-contains ways tag (st i)
    ∙ ap (contains tag) (replay-stack sets size ways i (mid ++ a ∷ before))
    ∙ ap (λ t. contains tag (stack_of ways t)) tags
    ∙ ap
        (λ n.
          contains tag (stack_of n (tags_of sets size i mid ++ tag ∷ tags_of sets size i before)))
        positive
    ∙ contains-stack_of w tag (tags_of sets size i mid) (tags_of sets size i before) unused
    ∙ ground arith

module _ (Double : Type 0) where
  -- In a hierarchy that the constructor returns, whose first level holds 64-bit words, is LRU and
  -- allocates on stores, the next access of the CPU after a trace of fewer than 2^64 - 1 accesses hits
  -- the first level, if its block was accessed before, exactly if fewer different blocks of the same
  -- set than the set has ways were accessed since.
  pub run-reuse :
      (rand : ℕ → ℕ) (cfg : CacheConfig Double) (cfgs : List (CacheConfig Double))
      (mem_time : Double) (draws : ℕ) {p : (n : ℕ) × CacheHierarchy Double n} (verbose : Bool)
      (trace : List Trace.Access) (a addr : ℕ) (b : Bool) (mid before : List ℕ)
      → IsWords cfg
      → cfg.replacement ≡ lru
      → is_no_write_allocate cfg.alloc_policy ≡ false
      → construct_hierarchy Double (cfg ∷ cfgs) mem_time draws ≡ ok p
      → references trace [] ≡ mid ++ a ∷ before
      → length (references trace []) + 1 < u64_mod
      → addr / cfg.block_size ≡ a / cfg.block_size
      → let sets = cfg.size_bytes / u64 (cfg.block_size * cfg.associativity) in
        let block = addr / cfg.block_size in
        let since = tags_of sets cfg.block_size (block % sets) mid in
        contains (block / sets) since ≡ false
        → (access Double rand addr b (run Double rand verbose trace p.1).0).0
          ≡ leb (suc (distinct since)) cfg.associativity
  unfolding access access_level
  run-reuse rand cfg cfgs mem_time draws {p} verbose trace a addr b mid before words chosen
        allocates e split room same unused =
      let sets = cfg.size_bytes / u64 (cfg.block_size * cfg.associativity) in
      let h = (run Double rand verbose trace p.1).0 in
      let replayed =
        run-first Double rand (Replayed cfg.associativity sets cfg.block_size)
          (access-Replayed cfg.associativity sets cfg.block_size rand) cfg cfgs mem_time draws
          verbose trace
          (λ k accepted.
            build-Replayed cfg.associativity sets cfg.block_size cfg k
              (build-IsShaped cfg words k accepted) chosen allocates refl accepted.quotient refl)
          e (omega arith) in
      let some_way : 0 < cfg.associativity =
        omega (arith, replayed.split.sound.shaped.ways, replayed.split.ways_same) in
      let stacks = replay cfg.associativity sets cfg.block_size in
      let verdict =
        (access-stacks cfg.associativity sets cfg.block_size rand (Levels Double p.0)
          (access_level Double rand p.0) addr b h.world.level.0
          (record { draws = h.world.draws; level = h.world.level.1 }) (references trace []) room
          replayed).0 in
      verdict
      ∙ ap
          (λ refs.
            (access_stacks cfg.associativity false (addr / cfg.block_size % sets)
              (addr / cfg.block_size / sets) (stacks refs).1).0)
          split
      ∙ subst
          (λ block.
            contains (block / sets) (tags_of sets cfg.block_size (block % sets) mid) ≡ false
            → (access_stacks cfg.associativity false (block % sets) (block / sets)
                (stacks (mid ++ a ∷ before)).1).0
              ≡ leb (suc (distinct (tags_of sets cfg.block_size (block % sets) mid)))
                  cfg.associativity)
          (sym same) (replay-reuse cfg.associativity sets cfg.block_size a mid before some_way)
          unused
