-- ===== src/Recency/Access.antt =====
-- Cache::access of src/cache.cpp under LRU against the stacks of the sets.
use mathlib.Core.Path.{subst}
use cache_hierarchy_simulato.Prelude.{
  ℕ, suc, ◌+◌, ◌<◌, ◌≡◌, refl, ap, Bool, true, false, ◌&&◌, [], none, some, if◌then◌else◌, arith,
  inl, inr, Bool-cases, Option-cases, get_or,
}
use cache_hierarchy_simulato.Word.{u64_mod}
use cache_hierarchy_simulato.Config.{CacheConfig, is_write_back}
use cache_hierarchy_simulato.Replacement.{LruPolicy, lru_policy, get_victim, oldest}
use cache_hierarchy_simulato.RefFaCache.Stack.{touch_stack}
use cache_hierarchy_simulato.Memory.{World, MemoryLevel}
use cache_hierarchy_simulato.Cache.{Cache, Decoded, decode, lines_of}
use cache_hierarchy_simulato.Cache.Shape.{IsShaped}
use cache_hierarchy_simulato.Access.{find_way, find_empty, count_access, pick_way, access}
use cache_hierarchy_simulato.Access.Branches.{after_hit, after_fill, frame_of, goes_around}
use cache_hierarchy_simulato.Access.Sets.{filled_line, missed-IsShaped, missed-lt, missed-find_way}
use cache_hierarchy_simulato.Access.Shape.{
  after_miss-SameFrames, count_access-IsShaped, set_index-lt,
}
use cache_hierarchy_simulato.Access.Transition.{
  Transition, start, parts, missed_cache, chosen, hit, around, fill, access-Transition,
}
use cache_hierarchy_simulato.Recency.{Stacks, update, access_stacks}
use cache_hierarchy_simulato.Recency.Fill.{
  missed-stack, hit-SetModels, free-SetModels, full-SetModels,
}
use cache_hierarchy_simulato.Recency.Uses.{
  LruModels, SameFrames-LruModels, use-LruModels, after_hit-IsUse, after_fill-IsUse,
}

module _ {Double : Type 0} where
  -- The way that a fill takes under LRU.
  pick_way-lru :
      (rand : ℕ → ℕ) (c : Cache Double) (i draws : ℕ) (p : LruPolicy)
      → c.repl ≡ lru_policy p
      → find_empty 0 (lines_of c i) ≡ none
      → (pick_way rand c i draws).0 ≡ oldest (get_or p.last_used i [])
  unfolding pick_way get_victim
  pick_way-lru rand c i draws p lru full = rw (full, lru, pick_way) refl

  pick_way-free :
      (rand : ℕ → ℕ) (c : Cache Double) (i draws way : ℕ)
      → find_empty 0 (lines_of c i) ≡ some way
      → (pick_way rand c i draws).0 ≡ way
  unfolding pick_way
  pick_way-free rand c i draws way free = rw (free, pick_way) refl

  -- A fill of the chosen frame is a miss of the stack.
  pub fill-LruModels :
      (rand : ℕ → ℕ) (draws : ℕ) (b : Bool) (d : Decoded) {n : ℕ} {c : Cache Double} {st : Stacks}
      → LruModels n c st
      → IsShaped c
      → n + 1 < u64_mod
      → d.set_index < c.num_sets
      → find_way 0 d.tag (lines_of c d.set_index) ≡ none
      → let t = touch_stack c.cfg.associativity d.tag (st d.set_index) in
        (t.0 ≡ false)
        × LruModels
            (suc n)
            (after_fill b d (pick_way rand c d.set_index draws).0 c)
            (update st d.set_index t.1)
  fill-LruModels rand draws b d {n} {c} {st} m shaped room lt missed =
      let i = d.set_index in
      let clock_room : m.policy.clock + 1 < u64_mod = omega (arith, m.uses) in
      elim (Option-cases (find_empty 0 (lines_of c i))) [
        | inl full ↦
            let step =
              full-SetModels (m.sets i lt) clock_room d.tag (filled_line b d c) missed full
                shaped.ways refl refl in
            rw (pick_way-lru rand c i draws m.policy m.is_lru full) (
              step.0,
              use-LruModels m shaped room i _ lt _ (after_fill-IsUse b d _ m shaped room lt) step.1,
            )
        | inr (way, free) ↦
            let step =
              free-SetModels (m.sets i lt) clock_room d.tag way (filled_line b d c) missed free refl
                refl in
            rw (pick_way-free rand c i draws way free) (
              step.0,
              use-LruModels m shaped room i way lt _ (after_fill-IsUse b d way m shaped room lt)
                  step.1,
            )
      ]

  hit-LruModels :
      (b : Bool) (d : Decoded) (way : ℕ) {n : ℕ} {c : Cache Double} {st : Stacks}
      → LruModels n c st
      → IsShaped c
      → n + 1 < u64_mod
      → d.set_index < c.num_sets
      → find_way 0 d.tag (lines_of c d.set_index) ≡ some way
      → let t = touch_stack c.cfg.associativity d.tag (st d.set_index) in
        (t.0 ≡ true) × LruModels (suc n) (after_hit b d way c) (update st d.set_index t.1)
  hit-LruModels b d way {n} {c} {st} m shaped room lt found =
      let i = d.set_index in
      let dirties = b && is_write_back c.cfg.write_policy in
      let line = if dirties then record (frame_of c i way) { dirty = true } else frame_of c i way in
      let keeps : (line.valid ≡ (frame_of c i way).valid) × (line.tag ≡ (frame_of c i way).tag) =
        elim (Bool-cases dirties) [ inl e ↦ rw e (refl, refl) | inr e ↦ rw e (refl, refl) ] in
      let step =
        hit-SetModels (m.sets i lt) (omega (arith, m.uses)) d.tag way line found keeps.0 keeps.1 in
      (
        step.0,
        use-LruModels m shaped room i way lt _ (after_hit-IsUse b d way m shaped room lt) step.1,
      )

  LruModels-later :
      {n : ℕ} {c : Cache Double} {st : Stacks} → LruModels n c st → LruModels (suc n) c st
  LruModels-later m = record {
    policy = m.policy;
    is_lru = m.is_lru;
    uses = omega (arith, m.uses);
    sets = m.sets;
  }

  module _ (rand : ℕ → ℕ) (addr : ℕ) (b : Bool) {n : ℕ} {c : Cache Double} {st : Stacks}
      (m : LruModels n c st) (shaped : IsShaped c) (room : n + 1 < u64_mod) where
    abbrev specified : Bool × Stacks
    specified =
        let d = decode c addr in
        access_stacks c.cfg.associativity (goes_around b c) d.set_index d.tag st

    started : LruModels n (start rand addr b c) st
    unfolding count_access
    started = record { policy = m.policy; is_lru = m.is_lru; uses = m.uses; sets = m.sets }

    Transition-LruModels :
        {r : Bool} {c' : Cache Double}
        → Transition rand addr b c r c'
        → (r ≡ specified.0) × LruModels (suc n) c' specified.1
    unfolding access_stacks count_access decode
    Transition-LruModels (hit way found) =
        let (verdict, after) =
          hit-LruModels b (parts rand addr b c) way started (count_access-IsShaped b shaped) room
            (set_index-lt rand addr b shaped) found in
        rw verdict (refl, after)
    Transition-LruModels (around missed out) =
        let i = (parts rand addr b c).set_index in
        let verdict =
          missed-stack (m.sets i (set_index-lt rand addr b shaped)) (omega (arith, m.uses))
            (parts rand addr b c).tag missed in
        let after = LruModels-later (
          SameFrames-LruModels (after_miss-SameFrames (parts rand addr b c) (start rand addr b c))
            started) in
        rw (verdict, out) (refl, after)
    Transition-LruModels (fill draws missed here) =
        let d = parts rand addr b c in
        let same = after_miss-SameFrames d (start rand addr b c) in
        let step =
          fill-LruModels rand draws b d (SameFrames-LruModels same started)
            (missed-IsShaped rand addr b shaped) room (missed-lt rand addr b shaped)
            (missed-find_way rand addr b shaped missed) in
        let (verdict, after) =
          subst
            (λ (k : ℕ).
              let t = touch_stack k d.tag (st d.set_index) in
              (t.0 ≡ false)
              × LruModels (suc n)
                  (after_fill b d (chosen rand addr b c draws) (missed_cache rand addr b c))
                  (update st d.set_index t.1))
            (ap (λ (g : CacheConfig Double). g.associativity) same.cfg) step in
        rw (verdict, here) (refl, after)

    -- An access of an LRU cache of a valid shape that used its frames fewer than 2^64 - 1 times
    -- answers as the stacks of its sets do, and leads to their state.
    pub access-LruModels :
        {S : Type 0} (next : MemoryLevel S) (w : World S)
        → let r = access rand next addr b c w in
          (r.0 ≡ specified.0) × LruModels (suc n) r.1 specified.1
    access-LruModels next w = Transition-LruModels (access-Transition rand addr b c next w)
