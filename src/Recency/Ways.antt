-- ===== src/Recency/Ways.antt =====
-- More ways never cost an LRU cache a hit.
use mathlib.Core.Path.{ap₂}
use cache_hierarchy_simulato.Prelude.{
  ℕ, zero, suc, ◌+◌, ◌*◌, ◌/◌, ◌%◌, ◌≤◌, ◌<◌, ◌≡◌, refl, ap, sym, ◌∙◌, Bool, true, false, List, [],
  ◌∷◌, ◌==◌, if◌then◌else◌, arith, length, inl, inr, Bool-cases,
}
use cache_hierarchy_simulato.Word.{u64, u64_mod}
use cache_hierarchy_simulato.Config.{CacheConfig, lru, is_no_write_allocate}
use cache_hierarchy_simulato.RefFaCache.Stack.{touch_stack}
use cache_hierarchy_simulato.Cache.{ok}
use cache_hierarchy_simulato.Cache.Construct.{IsWords}
use cache_hierarchy_simulato.Trace
use cache_hierarchy_simulato.Hierarchy.{CacheHierarchy, construct_hierarchy, run}
use cache_hierarchy_simulato.Hierarchy.First.{references}
use cache_hierarchy_simulato.Recency.{Stacks, update, access_stacks, replay}
use cache_hierarchy_simulato.Recency.Trace.{run-replay}
use cache_hierarchy_simulato.Recency.Inclusion.{top, touch_stack-top}

access_stacks-here :
    (ways i tag : ℕ) (st : Stacks)
    → access_stacks ways false i tag st
      ≡ (let t = touch_stack ways tag (st i) in (t.0, update st i t.1))
unfolding access_stacks
access_stacks-here ways i tag st = elim (Bool-cases (touch_stack ways tag (st i)).0) [
  | inl hit ↦ rw hit refl
  | inr miss ↦ rw miss refl
]

update-top :
    (n i j : ℕ) (st large : Stacks) (l l' : List ℕ)
    → ((k : ℕ) → st k ≡ top (suc n) (large k))
    → l ≡ top (suc n) l'
    → update st i l j ≡ top (suc n) (update large i l' j)
update-top n i j st large l l' same e = elim (Bool-cases (j == i)) [
  | inl here ↦ rw here e
  | inr there ↦ rw there (same j)
]

-- One access of a cache of more ways, every set of which has that of the smaller one at its top.
access_stacks-top :
    (n m i tag : ℕ) (st large : Stacks)
    → suc n ≤ m
    → ((j : ℕ) → st j ≡ top (suc n) (large j))
    → let q = access_stacks (suc n) false i tag st in
      let q' = access_stacks m false i tag large in
      (q.0 ≡ true → q'.0 ≡ true) × ((j : ℕ) → q.1 j ≡ top (suc n) (q'.1 j))
unfolding access_stacks
access_stacks-top n m i tag st large h same =
    let (hits, stack) = touch_stack-top n m tag (large i) h in
    let old : touch_stack (suc n) tag (st i) ≡ touch_stack (suc n) tag (top (suc n) (large i)) =
      ap (touch_stack (suc n) tag) (same i) in
    let here = access_stacks-here (suc n) i tag st in
    let here' = access_stacks-here m i tag large in
    (
      λ e. ap (λ q. q.0) here' ∙ hits (sym (ap (λ q. q.0) old) ∙ sym (ap (λ q. q.0) here) ∙ e),
      λ j.
          ap (λ q. q.1 j) here
          ∙ update-top n i j st large _ _ same (ap (λ q. q.1) old ∙ stack)
          ∙ sym (ap (λ q. top (suc n) (q.1 j)) here'),
    )

count-le :
    (b b' : Bool) (x y : ℕ)
    → (b ≡ true → b' ≡ true)
    → x ≤ y
    → (if b then x + 1 else x) ≤ (if b' then y + 1 else y)
count-le true b' x y grows h = rw (grows refl) (omega arith)
count-le false true x y grows h = omega arith
count-le false false x y grows h = h

replay-top :
    (n m sets size : ℕ) (before : List ℕ)
    → suc n ≤ m
    → ((replay (suc n) sets size before).0 ≤ (replay m sets size before).0)
      × ((j : ℕ)
          → (replay (suc n) sets size before).1 j ≡ top (suc n) ((replay m sets size before).1 j))
unfolding replay
replay-top n m sets size [] h = (omega arith, λ j. refl)
replay-top n m sets size (a ∷ before) h =
    let (hits, stacks) = replay-top n m sets size before h in
    let (grows, stacks') = access_stacks-top n m (a / size % sets) (a / size / sets) _ _ h stacks in
    (count-le _ _ _ _ grows hits, stacks')

replay-more :
    (ways ways' sets sets' size size' : ℕ) (before : List ℕ)
    → 0 < ways
    → ways ≤ ways'
    → sets ≡ sets'
    → size ≡ size'
    → (replay ways sets size before).0 ≤ (replay ways' sets' size' before).0
replay-more zero ways' sets sets' size size' before some_way more same_sets same_size =
    absurd (omega arith)
replay-more (suc n) ways' sets sets' size size' before some_way more same_sets same_size =
    let same = ap₂ (λ s z. (replay ways' s z before).0) same_sets same_size in
    omega (arith, same, (replay-top n ways' sets size before more).0)

module _ (Double : Type 0) where
  -- Two hierarchies that the constructor returns, whose first levels hold 64-bit words, are LRU,
  -- allocate on stores and have the same block size and the same number of sets, run the same
  -- trace of fewer than 2^64 CPU accesses: if one first level has at least one way, and the other
  -- at least as many, the other counts at least as many hits.
  pub run-ways :
      (rand : ℕ → ℕ) (cfg cfg' : CacheConfig Double) (cfgs cfgs' : List (CacheConfig Double))
      (mem_time : Double) (draws : ℕ) {p p' : (n : ℕ) × CacheHierarchy Double n}
      (trace : List Trace.Access)
      → IsWords cfg
      → IsWords cfg'
      → cfg.replacement ≡ lru
      → cfg'.replacement ≡ lru
      → is_no_write_allocate cfg.alloc_policy ≡ false
      → is_no_write_allocate cfg'.alloc_policy ≡ false
      → cfg.block_size ≡ cfg'.block_size
      → cfg.size_bytes / u64 (cfg.block_size * cfg.associativity)
        ≡ cfg'.size_bytes / u64 (cfg'.block_size * cfg'.associativity)
      → 0 < cfg.associativity
      → cfg.associativity ≤ cfg'.associativity
      → construct_hierarchy Double (cfg ∷ cfgs) mem_time draws ≡ ok p
      → construct_hierarchy Double (cfg' ∷ cfgs') mem_time draws ≡ ok p'
      → length (references trace []) < u64_mod
      → (run Double rand false trace p.1).0.world.level.0.stats.hits
        ≤ (run Double rand false trace p'.1).0.world.level.0.stats.hits
  run-ways rand cfg cfg' cfgs cfgs' mem_time draws trace words words' chosen chosen' allocates
        allocates' block sets some_way more built built' room =
      let hits =
        run-replay Double rand cfg cfgs mem_time draws false trace words chosen allocates built
          room in
      let hits' =
        run-replay Double rand cfg' cfgs' mem_time draws false trace words' chosen' allocates'
          built' room in
      omega (
        arith,
        hits,
        hits',
        replay-more cfg.associativity cfg'.associativity _ _ _ _ (references trace []) some_way more
            sets block,
      )
