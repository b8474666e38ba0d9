-- ===== src/Access/Locality.antt =====
-- What an access brings in, the next access to the block finds.
use cache_hierarchy_simulato.Prelude.{
  ℕ, ◌≡◌, refl, ◌∙◌, Bool, true, false, ◌||◌, inl, inr, Bool-cases, arith, not,
}
use cache_hierarchy_simulato.Memory.{World, MemoryLevel}
use cache_hierarchy_simulato.Cache.{Cache, decode}
use cache_hierarchy_simulato.Cache.Shape.{IsShaped}
use cache_hierarchy_simulato.Access.{access}
use cache_hierarchy_simulato.Access.Branches.{goes_around}
use cache_hierarchy_simulato.Access.Sets.{HasUniqueTags}
use cache_hierarchy_simulato.Access.Resident.{resident, same_block}
use cache_hierarchy_simulato.Access.Residency.{access-resident, access-residency}

missed-kept : (hit out : Bool) → hit ≡ false → (hit || not out) ≡ true → out ≡ false
missed-kept hit out missed kept = ground arith

module _ {Double : Type 0} where
  same_block-resident :
      (c : Cache Double) (a a' : ℕ) → same_block c a a' ≡ true → resident c a' ≡ resident c a
  unfolding same_block resident
  same_block-resident c a a' same =
      let index : (decode c a').set_index ≡ (decode c a).set_index = ground arith in
      let tag : (decode c a').tag ≡ (decode c a).tag = ground arith in rw (index, tag) refl

  -- In a cache of a valid shape without duplicate tags, after an access that does not go around the
  -- cache, or that hits, the next access to any address of the same block hits.
  pub access-again :
      {S S' : Type 0} (rand : ℕ → ℕ) (next : MemoryLevel S) (next' : MemoryLevel S') (a a' : ℕ)
      (b b' : Bool) (c : Cache Double) (w : World S) (w' : World S')
      → IsShaped c
      → HasUniqueTags c
      → same_block c a a' ≡ true
      → ((access rand next a b c w).0 || not (goes_around b c)) ≡ true
      → (access rand next' a' b' (access rand next a b c w).1 w').0 ≡ true
  access-again rand next next' a a' b b' c w w' shaped u same kept =
      access-resident rand next' a' b' (access rand next a b c w).1 w'
      ∙ access-residency rand next a b c w shaped u a'
      ∙ elim (Bool-cases (resident c a)) [
        | inl held ↦ rw held (same_block-resident c a a' same ∙ held)
        | inr lost ↦
            let hit = (access rand next a b c w).0 in
            let missed : hit ≡ false = access-resident rand next a b c w ∙ lost in
            rw (lost, missed-kept hit (goes_around b c) missed kept, same) refl
      ]
