-- ===== src/Classification/Shadow.antt =====
-- The part of the state of a cache that classify keeps, for each step of Cache::access.
use mathlib.Core.Option
use cache_hierarchy_simulato.Prelude.{
  ℕ, ◌≡◌, ◌∙◌, refl, Bool, true, false, ◌&&◌, List, ◌∷◌, some, inl, inr, Bool-cases, if◌then◌else◌,
  contains, arith,
}
use cache_hierarchy_simulato.Config.{is_write_back}
use cache_hierarchy_simulato.RefFaCache.{RefFaCache, touch}
use cache_hierarchy_simulato.Cache.{Cache, Decoded, decode, set_line}
use cache_hierarchy_simulato.Access.{classify, count_access, touch_ref, record_hit, install}
use cache_hierarchy_simulato.Access.Branches.{after_hit, after_miss, after_fill, evicts_dirty}
use cache_hierarchy_simulato.Access.Shape.{after_miss-SameFrames}
use cache_hierarchy_simulato.Access.Sets.{decode-after_hit, decode-after_miss, decode-after_fill}
use cache_hierarchy_simulato.Access.Transition.{Transition, hit, around, fill}
use cache_hierarchy_simulato.Classification.{
  MissClass, compulsory, capacity, conflict, Tally, count_class,
}

-- The class that classify finds.
abbrev pub class_of : ℕ → List ℕ → RefFaCache → MissClass
class_of block seen r =
    if contains block seen then (if (touch block r).0 then conflict else capacity) else compulsory

module _ {Double : Type 0} where
  abbrev pub tally : Cache Double → Tally
  tally c = record {
    compulsory = c.stats.compulsory;
    capacity = c.stats.capacity;
    conflict = c.stats.conflict;
  }

  -- The reference model, the blocks seen, and the three counters.
  pub record SameShadow (c c' : Cache Double) : Type 0 where
    pub ref_fa : c'.ref_fa ≡ c.ref_fa
    pub seen : c'.seen ≡ c.seen
    pub counters : tally c' ≡ tally c

  pub after_hit-ref_fa :
      (b : Bool) (d : Decoded) (way : ℕ) (c : Cache Double)
      → ((after_hit b d way c).ref_fa ≡ Option.map (λ r. (touch d.block_addr r).1) c.ref_fa)
        × ((after_hit b d way c).seen ≡ c.seen)
        × (tally (after_hit b d way c) ≡ tally c)
  unfolding after_hit record_hit touch_ref set_line
  after_hit-ref_fa b d way c = elim (Bool-cases (b && is_write_back c.cfg.write_policy)) [
    | inl e ↦ rw e (refl, refl, refl)
    | inr e ↦ rw e (refl, refl, refl)
  ]

  pub after_fill-SameShadow :
      (b : Bool) (d : Decoded) (way : ℕ) (c : Cache Double) → SameShadow c (after_fill b d way c)
  unfolding after_fill install set_line
  after_fill-SameShadow b d way c = elim (Bool-cases (evicts_dirty c d.set_index way)) [
    | inl e ↦ rw e (record { ref_fa = refl; seen = refl; counters = refl })
    | inr e ↦ rw e (record { ref_fa = refl; seen = refl; counters = refl })
  ]

  pub count_access-SameShadow : (b : Bool) (c : Cache Double) → SameShadow c (count_access b c)
  unfolding count_access
  count_access-SameShadow true c = record { ref_fa = refl; seen = refl; counters = refl }
  count_access-SameShadow false c = record { ref_fa = refl; seen = refl; counters = refl }

  pub after_miss-ref_fa :
      (d : Decoded) (c : Cache Double) (r : RefFaCache)
      → c.ref_fa ≡ some r
      → ((after_miss d c).ref_fa ≡ some (touch d.block_addr r).1)
        × ((after_miss d c).seen
            ≡ (if contains d.block_addr c.seen then c.seen else d.block_addr ∷ c.seen))
        × (tally (after_miss d c) ≡ count_class (class_of d.block_addr c.seen r) (tally c))
  unfolding after_miss classify
  after_miss-ref_fa d c r e = ground arith

  -- The configuration and the decoding of addresses stay.
  pub record SameGeometry (c c' : Cache Double) : Type 0 where
    pub cfg : c'.cfg ≡ c.cfg
    pub fields : (a : ℕ) → decode c' a ≡ decode c a

  after_hit-SameGeometry :
      (b : Bool) (d : Decoded) (way : ℕ) (c : Cache Double) → SameGeometry c (after_hit b d way c)
  unfolding after_hit record_hit touch_ref set_line
  after_hit-SameGeometry b d way c = record {
    cfg = elim (Bool-cases (b && is_write_back c.cfg.write_policy)) [
      | inl e ↦ rw e refl
      | inr e ↦ rw e refl
    ];
    fields = λ a. decode-after_hit b d way a c;
  }

  after_miss-SameGeometry : (d : Decoded) (c : Cache Double) → SameGeometry c (after_miss d c)
  after_miss-SameGeometry d c = record {
    cfg = (after_miss-SameFrames d c).cfg;
    fields = λ a. decode-after_miss d a c;
  }

  after_fill-SameGeometry :
      (b : Bool) (d : Decoded) (way : ℕ) (c : Cache Double) → SameGeometry c (after_fill b d way c)
  unfolding after_fill install set_line
  after_fill-SameGeometry b d way c = record {
    cfg = elim (Bool-cases (evicts_dirty c d.set_index way)) [
      | inl e ↦ rw e refl
      | inr e ↦ rw e refl
    ];
    fields = λ a. decode-after_fill b d way a c;
  }

  start-SameGeometry : (b : Bool) (c : Cache Double) → SameGeometry c (count_access b c)
  unfolding count_access decode
  start-SameGeometry true c = record { cfg = refl; fields = λ a. refl }
  start-SameGeometry false c = record { cfg = refl; fields = λ a. refl }

  SameGeometry-trans :
      {c c' c'' : Cache Double} → SameGeometry c c' → SameGeometry c' c'' → SameGeometry c c''
  SameGeometry-trans g h = record { cfg = h.cfg ∙ g.cfg; fields = λ a. h.fields a ∙ g.fields a }

  pub Transition-SameGeometry :
      (rand : ℕ → ℕ) (addr : ℕ) (b : Bool) {c c' : Cache Double} {r : Bool}
      → Transition rand addr b c r c'
      → SameGeometry c c'
  Transition-SameGeometry rand addr b {c} (hit way found) =
      SameGeometry-trans (start-SameGeometry b c) (after_hit-SameGeometry b _ way _)
  Transition-SameGeometry rand addr b {c} (around missed out) =
      SameGeometry-trans (start-SameGeometry b c) (after_miss-SameGeometry _ _)
  Transition-SameGeometry rand addr b {c} (fill draws missed here) =
      SameGeometry-trans (start-SameGeometry b c)
        (SameGeometry-trans (after_miss-SameGeometry _ _) (after_fill-SameGeometry b _ _ _))
