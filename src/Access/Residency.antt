-- ===== src/Access/Residency.antt =====
-- How one access changes which blocks are in the cache.
use cache_hierarchy_simulato.Prelude.{
  is_some, ℕ, ◌≡◌, refl, ap, ◌∙◌, Bool, not, ◌&&◌, ◌||◌, none, arith, inl, inr, Bool-cases,
  if◌then◌else◌, [], ◌∷◌, Option-cases,
}
use cache_hierarchy_simulato.Cache.{Cache, Decoded, decode}
use cache_hierarchy_simulato.Cache.Shape.{IsShaped}
use cache_hierarchy_simulato.Memory.{World, MemoryLevel}
use cache_hierarchy_simulato.Access.{find_way, count_access, pick_way, access}
use cache_hierarchy_simulato.Access.Branches.{
  after_miss, after_fill, goes_around, load, send, access-hit, access-around, access-fill,
}
use cache_hierarchy_simulato.Access.Shape.{
  after_miss-SameFrames, count_access-IsShaped, set_index-lt,
}
use cache_hierarchy_simulato.Access.Sets.{
  HasUniqueTags, after_miss-HasUniqueTags, lines_of-after_miss, decode-after_miss, missed-IsShaped,
  missed-lt, chosen-lt, missed-find_way,
}
use cache_hierarchy_simulato.Access.Transition.{
  Transition, start, parts, missed_cache, looked_up, chosen, hit, around, fill, access-Transition,
}
use cache_hierarchy_simulato.Access.Resident.{
  residency, way_of, resident, same_block, held_at, is_block, way_of-after_hit, way_of-after_miss,
  resident-after_fill,
}

module _ {Double : Type 0} where
  decode-start : (b : Bool) (a : ℕ) (c : Cache Double) → decode (count_access b c) a ≡ decode c a
  unfolding decode count_access
  decode-start b a c = refl

  way_of-start : (b : Bool) (a : ℕ) (c : Cache Double) → way_of (count_access b c) a ≡ way_of c a
  unfolding decode count_access
  way_of-start b a c = refl

  pick_way-start :
      (rand : ℕ → ℕ) (b : Bool) (c : Cache Double) (i draws : ℕ)
      → pick_way rand (count_access b c) i draws ≡ pick_way rand c i draws
  unfolding pick_way count_access
  pick_way-start rand b c i draws = refl

  start-HasUniqueTags :
      (b : Bool) (c : Cache Double) → HasUniqueTags c → HasUniqueTags (count_access b c)
  unfolding count_access
  start-HasUniqueTags b c u = u

  pick_way-after_miss :
      (rand : ℕ → ℕ) (d : Decoded) (c : Cache Double) (i draws : ℕ)
      → pick_way rand (after_miss d c) i draws ≡ pick_way rand c i draws
  unfolding pick_way
  pick_way-after_miss rand d c i draws =
      let same = after_miss-SameFrames d c in ground (arith, lines_of-after_miss d i c)

  module _ {S : Type 0} (rand : ℕ → ℕ) (next : MemoryLevel S) (addr : ℕ) (b : Bool)
      (c : Cache Double) (w : World S) where
    Transition-resident :
        {r : Bool} {c' : Cache Double} → Transition rand addr b c r c' → r ≡ resident c addr
    unfolding resident count_access find_way decode
    Transition-resident (hit way found) = rw found refl
    Transition-resident (around missed out) = rw missed refl
    Transition-resident (fill draws missed here) = rw missed refl

    -- An access returns true exactly if the block was in the cache.
    pub access-resident : (access rand next addr b c w).0 ≡ resident c addr
    access-resident = Transition-resident (access-Transition rand addr b c next w)

    fill-resident :
        IsShaped c
        → HasUniqueTags c
        → looked_up rand addr b c ≡ none
        → (draws a : ℕ)
        → let d = parts rand addr b c in
          resident (after_fill b d (chosen rand addr b c draws) (missed_cache rand addr b c)) a ≡ (
            is_block c d a
            || (resident c a
                && not (held_at c d.set_index (pick_way rand c d.set_index draws).0 a)))
    unfolding resident held_at
    fill-resident shaped u missed draws a =
        let d = parts rand addr b c in
        let c₀ = start rand addr b c in
        let m = missed_cache rand addr b c in
        let fields = decode-after_miss d a c₀ ∙ decode-start b a c in
        let ways = way_of-after_miss d a c₀ ∙ way_of-start b a c in
        let choice =
          pick_way-after_miss rand d c₀ d.set_index draws
          ∙ pick_way-start rand b c d.set_index draws in
        resident-after_fill (missed-IsShaped rand addr b shaped)
          (after_miss-HasUniqueTags d c₀ (start-HasUniqueTags b c u)) b d
          (chosen rand addr b c draws) a (missed-lt rand addr b shaped)
          (chosen-lt rand addr b shaped draws) (missed-find_way rand addr b shaped missed)
        ∙ (λ i. residency d (fields i) (ways i) (choice i).0)

    -- In a cache of a valid shape, with each tag at most once in a set, an access changes what is
    -- resident only if it fills a frame: then the block that it accesses
    -- becomes resident, the block that the frame held before stops to be, and no other changes.
    pub access-residency :
        IsShaped c
        → HasUniqueTags c
        → (a : ℕ)
        → let i = (decode c addr).set_index in
          let way = (pick_way rand c i (send next (load addr ∷ []) w).draws).0 in
          resident (access rand next addr b c w).1 a ≡ (
            if resident c addr || goes_around b c
            then resident c a
            else same_block c addr a || (resident c a && not (held_at c i way a)))
    unfolding resident same_block held_at count_access decode
    access-residency shaped u a = elim (Option-cases (way_of c addr)) [
      | inr (way, found) ↦
          rw (access-hit rand next addr b c w way found, found)
            (ap is_some (
              way_of-after_hit (count_access-IsShaped b shaped) b (parts rand addr b c) way a
                (set_index-lt rand addr b shaped)))
      | inl missed ↦ elim (Bool-cases (goes_around b c)) [
        | inl out ↦
            rw (access-around rand next addr b c w missed out, missed, out)
              (ap is_some (way_of-after_miss (parts rand addr b c) a (start rand addr b c)))
        | inr here ↦
            rw (access-fill rand next addr b c w missed here, missed, here)
              (fill-resident shaped u missed (send next (load addr ∷ []) w).draws a)
      ]
    ]
