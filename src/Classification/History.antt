-- ===== src/Classification/History.antt =====
-- One access of a cache against the history of the accesses before it.
use mathlib.Core.Option
use native.Mathlib.Decide.{ℕ_discrete}
use native.Mathlib.Nat.{mod-eq_of_lt}
use mathlib.Core.Path.{ap₂, subst}
use cache_hierarchy_simulato.Prelude.{
  ℕ, ◌+◌, ◌*◌, ◌/◌, ◌<◌, ◌≡◌, refl, ap, sym, ◌∙◌, Bool, true, false, ◌||◌, List, ◌∷◌, some, inl,
  inr, Bool-cases, if◌then◌else◌, contains, arith, length, ◌==◌,
}
use cache_hierarchy_simulato.Word.{incr, u64_mod}
use cache_hierarchy_simulato.Config.{CacheConfig}
use cache_hierarchy_simulato.RefFaCache.{RefFaCache, touch}
use cache_hierarchy_simulato.RefFaCache.Stack.{touch_stack, Models}
use cache_hierarchy_simulato.RefFaCache.Refines.{touch-Models}
use cache_hierarchy_simulato.RefFaCache.Verdicts.{after_touch}
use cache_hierarchy_simulato.Memory.{World, MemoryLevel}
use cache_hierarchy_simulato.Cache.{Cache, Decoded, decode}
use cache_hierarchy_simulato.Cache.Shape.{IsShaped}
use cache_hierarchy_simulato.Cache.Decode.{decode_fields}
use cache_hierarchy_simulato.Access.{access, count_access}
use cache_hierarchy_simulato.Access.Resident.{resident, same_block}
use cache_hierarchy_simulato.Access.Residency.{access-resident, access-residency}
use cache_hierarchy_simulato.Access.Sets.{HasUniqueTags}
use cache_hierarchy_simulato.Access.Branches.{after_miss}
use cache_hierarchy_simulato.Access.Transition.{
  Transition, hit, around, fill, parts, start, access-Transition,
}
use cache_hierarchy_simulato.Classification.{stack_of, miss_class, count_class}
use cache_hierarchy_simulato.Classification.Shadow.{
  tally, class_of, SameShadow, after_hit-ref_fa, after_miss-ref_fa, after_fill-SameShadow,
  count_access-SameShadow, Transition-SameGeometry,
}

-- To add a block that a history holds already changes nothing.
contains-known :
    (x b : ℕ) (h : List ℕ) → contains b h ≡ true → contains x h ≡ (x == b || contains x h)
contains-known x b h known = elim (ℕ_discrete x b) [
  | yes same ↦ ap (λ k. contains k h) same ∙ known ∙ ground arith
  | no other ↦ ground arith
]

contains-insert :
    (x b : ℕ) (s h : List ℕ)
    → contains x s ≡ contains x h
    → contains b s ≡ contains b h
    → contains x (if contains b s then s else b ∷ s) ≡ (x == b || contains x h)
contains-insert x b s h same known = elim (Bool-cases (contains b s)) [
  | inl old ↦ rw old (same ∙ contains-known x b h (sym known ∙ old))
  | inr new ↦ rw new (ap (λ o. x == b || o) same)
]

module _ {Double : Type 0} where
  -- Addresses of the same set and tag lie in the same block.
  pub same_block-block_addr :
      {c : Cache Double}
      → IsShaped c
      → (a a' : ℕ) → same_block c a a' ≡ true
      → (decode c a).block_addr ≡ (decode c a').block_addr
  unfolding same_block
  same_block-block_addr {c} shaped a a' same =
      let index : (decode c a).set_index ≡ (decode c a').set_index = ground arith in
      let tag : (decode c a).tag ≡ (decode c a').tag = ground arith in
      let (_, _, whole, _) = decode_fields c shaped a in
      let (_, _, whole', _) = decode_fields c shaped a' in
      whole ∙ ap₂ (λ (k i : ℕ). k * c.num_sets + i) tag index ∙ sym whole'

  -- The number of lines of a cache: the capacity of its reference model.
  abbrev pub total_lines : Cache Double → ℕ
  total_lines c = c.cfg.size_bytes / c.cfg.block_size

  -- The cache has served the accesses of the history: its reference model is the stack of the
  -- history, it has seen the blocks of the history, and holds no other.
  pub record Tracks (h : List ℕ) (c : Cache Double) : Type 0 where
    pub model : RefFaCache
    pub enabled : c.ref_fa ≡ some model
    pub stack : Models model (stack_of model.capacity h)
    pub clock : model.clock ≡ length h
    pub lines : model.capacity ≡ total_lines c
    pub seen : (b : ℕ) → contains b c.seen ≡ contains b h
    pub held : (a : ℕ) → resident c a ≡ true → contains (decode c a).block_addr h ≡ true

  module _ (rand : ℕ → ℕ) (addr : ℕ) (b : Bool) {c : Cache Double} {h : List ℕ} (t : Tracks h c)
      (room : length h + 1 < u64_mod) where
    block : ℕ
    block = (decode c addr).block_addr

    touched :
        ((touch block t.model).0
          ≡ (touch_stack t.model.capacity block (stack_of t.model.capacity h)).0)
        × Models (touch block t.model).1 (stack_of t.model.capacity (block ∷ h))
    unfolding stack_of
    touched = touch-Models block t.stack (omega (arith, t.clock))

    -- What the access makes of the reference model, of the blocks seen and of the counters.
    record Noted (r : Bool) (c' : Cache Double) : Type 0 where
      ref_fa : c'.ref_fa ≡ some (touch block t.model).1
      seen : (x : ℕ) → contains x c'.seen ≡ (x == block || contains x h)
      counters :
          tally c'
          ≡ (if r then tally c else count_class (miss_class t.model.capacity h block) (tally c))

    class-eq : class_of block c.seen t.model ≡ miss_class t.model.capacity h block
    unfolding miss_class
    class-eq = rw (t.seen block, touched.0) refl

    Noted-miss :
        {c' : Cache Double}
        → SameShadow (after_miss (parts rand addr b c) (start rand addr b c)) c'
        → Noted false c'
    unfolding block decode count_access
    Noted-miss {c'} same =
        let first = count_access-SameShadow b c in
        let (model, seen, counters) =
          after_miss-ref_fa (parts rand addr b c) (start rand addr b c) t.model
            (first.ref_fa ∙ t.enabled) in
        record {
          ref_fa = same.ref_fa ∙ model;
          seen = λ x.
              ap (contains x) (same.seen ∙ seen)
              ∙ contains-insert x block c.seen h (t.seen x) (t.seen block);
          counters = same.counters ∙ counters ∙ ap₂ count_class class-eq first.counters;
        }

    Transition-Noted :
        {r : Bool} {c' : Cache Double}
        → r ≡ resident c addr
        → Transition rand addr b c r c'
        → Noted r c'
    unfolding block decode count_access
    Transition-Noted e (hit way found) =
        let first = count_access-SameShadow b c in
        let (model, seen, counters) =
          after_hit-ref_fa b (parts rand addr b c) way (start rand addr b c) in
        record {
          ref_fa =
              model
              ∙ ap (Option.map (λ (r : RefFaCache). (touch block r).1)) (first.ref_fa ∙ t.enabled);
          seen = λ x.
              ap (contains x) (seen ∙ first.seen)
              ∙ t.seen x
              ∙ contains-known x block h (t.held addr (sym e));
          counters = counters ∙ first.counters;
        }
    Transition-Noted e (around missed out) =
        Noted-miss (record { ref_fa = refl; seen = refl; counters = refl })
    Transition-Noted e (fill draws missed here) =
        Noted-miss (after_fill-SameShadow b (parts rand addr b c) _ _)

    -- A block that is resident after the access was resident before, or is the accessed one.
    held-after :
        {S : Type 0} (next : MemoryLevel S) (w : World S)
        → IsShaped c
        → HasUniqueTags c
        → (a : ℕ) → resident (access rand next addr b c w).1 a ≡ true
        → contains (decode c a).block_addr (block ∷ h) ≡ true
    unfolding block same_block
    held-after next w shaped u a e = elim (Bool-cases (same_block c addr a)) [
      | inl same ↦ let equal = same_block-block_addr shaped addr a same in ground arith
      | inr other ↦
          let before : resident c a ≡ true =
            ground (arith, access-residency rand next addr b c w shaped u a) in
          ground (arith, t.held a before)
    ]

    -- In a cache of a valid shape without duplicate tags that has served a history of fewer than
    -- 2^64 - 1 accesses, an access that hits changes no counter of the three classes; a miss counts
    -- for the class that the history gives it; and the cache has then served the access too.
    pub access-classified :
        {S : Type 0} (next : MemoryLevel S) (w : World S)
        → IsShaped c
        → HasUniqueTags c
        → let r = access rand next addr b c w in
          (tally r.1 ≡ (
            if r.0
            then tally c
            else count_class (miss_class (total_lines c) h (decode c addr).block_addr) (tally c)))
          × Tracks ((decode c addr).block_addr ∷ h) r.1
    unfolding block
    access-classified next w shaped u =
        let step = access-Transition rand addr b c next w in
        let noted = Transition-Noted (access-resident rand next addr b c w) step in
        let same = Transition-SameGeometry rand addr b step in
        let r = access rand next addr b c w in
        let (size, clock) = after_touch block t.model in
        let tick : incr t.model.clock ≡ t.model.clock + 1 = mod-eq_of_lt (omega (arith, t.clock)) in
        (
          subst
              (λ (k : ℕ).
                tally r.1 ≡ (if r.0 then tally c else count_class (miss_class k h block) (tally c)))
              t.lines noted.counters,
          record {
            model = (touch block t.model).1;
            enabled = noted.ref_fa;
            stack =
                subst (λ (k : ℕ). Models (touch block t.model).1 (stack_of k (block ∷ h)))
                  (sym size) touched.1;
            clock = omega (arith, t.clock);
            lines =
                size
                ∙ t.lines
                ∙ sym (ap (λ (g : CacheConfig Double). g.size_bytes / g.block_size) same.cfg);
            seen = noted.seen;
            held = λ a e.
                ap (λ (d : Decoded). contains d.block_addr (block ∷ h)) (same.fields a)
                ∙ held-after next w shaped u a e;
          },
        )
