-- ===== src/Access/Split.antt =====
-- A cache that allocates on stores and splits addresses by the block size and the number of sets.
use cache_hierarchy_simulato.Prelude.{ℕ, ◌/◌, ◌%◌, ◌≡◌, refl, ap, ◌∙◌, Bool, false, arith}
use cache_hierarchy_simulato.Config.{CacheConfig, is_no_write_allocate}
use cache_hierarchy_simulato.Memory.{World, MemoryLevel}
use cache_hierarchy_simulato.Cache.{Cache, Decoded, decode, build}
use cache_hierarchy_simulato.Cache.Shape.{IsShaped}
use cache_hierarchy_simulato.Cache.Decode.{decode-arithmetic}
use cache_hierarchy_simulato.Access.{access}
use cache_hierarchy_simulato.Access.Branches.{goes_around}
use cache_hierarchy_simulato.Access.Sound.{IsSound, build-IsSound, access-IsSound}
use cache_hierarchy_simulato.Access.Transition.{access-Transition}
use cache_hierarchy_simulato.Classification.Shadow.{Transition-SameGeometry}

module _ {Double : Type 0} (ways sets size : ℕ) where
  pub record IsSplit (c : Cache Double) : Type 0 where
    pub sound : IsSound c
    pub ways_same : c.cfg.associativity ≡ ways
    pub allocates : is_no_write_allocate c.cfg.alloc_policy ≡ false
    pub set_index : (a : ℕ) → (decode c a).set_index ≡ a / size % sets
    pub tag : (a : ℕ) → (decode c a).tag ≡ a / size / sets

  pub stays : (b : Bool) {c : Cache Double} → IsSplit c → goes_around b c ≡ false
  stays b s = ground (arith, s.allocates)

  pub access-IsSplit :
      (rand : ℕ → ℕ) (S : Type 0) (next : MemoryLevel S) (addr : ℕ) (b : Bool) (c : Cache Double)
      (w : World S)
      → IsSplit c
      → IsSplit (access rand next addr b c w).1
  access-IsSplit rand S next addr b c w s =
      let same = Transition-SameGeometry rand addr b (access-Transition rand addr b c next w) in
      record {
        sound = access-IsSound rand next addr b c w s.sound;
        ways_same = ap (λ (g : CacheConfig Double). g.associativity) same.cfg ∙ s.ways_same;
        allocates =
            ap (λ (g : CacheConfig Double). is_no_write_allocate g.alloc_policy) same.cfg
            ∙ s.allocates;
        set_index = λ a. ap (λ (d : Decoded). d.set_index) (same.fields a) ∙ s.set_index a;
        tag = λ a. ap (λ (d : Decoded). d.tag) (same.fields a) ∙ s.tag a;
      }

  pub build-IsSplit :
      (cfg : CacheConfig Double) (k : ℕ)
      → IsShaped (build cfg k)
      → is_no_write_allocate cfg.alloc_policy ≡ false
      → cfg.associativity ≡ ways
      → k ≡ sets
      → cfg.block_size ≡ size
      → IsSplit (build cfg k)
  build-IsSplit cfg k shaped allocates same_ways same_sets same_size = record {
    sound = build-IsSound cfg k shaped;
    ways_same = same_ways;
    allocates = allocates;
    set_index = λ a.
        ap (λ (d : Decoded). d.set_index) (decode-arithmetic (build cfg k) shaped a)
        ∙ rw (← shaped.block, ← shaped.sets_pow, same_sets, same_size) refl;
    tag = λ a.
        ap (λ (d : Decoded). d.tag) (decode-arithmetic (build cfg k) shaped a)
        ∙ rw (← shaped.block, ← shaped.sets_pow, same_sets, same_size) refl;
  }
