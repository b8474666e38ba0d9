-- ===== src/Cache/Construct.antt =====
-- What the constructor accepts, and what it builds.
use native.Mathlib.Decide.{dec_lt}
use native.Mathlib.Nat.{
  div-add-mod', div-le_self, mul-le-mul_left, mod-eq_of_lt, mul-div_cancel, mul-div_cancel_left,
  mul-mod_left,
}
use mathlib.Core.Path.{ap₂}
use cache_hierarchy_simulato.Prelude.{
  ℕ, ◌+◌, ◌*◌, ◌/◌, ◌%◌, ◌^◌, ◌≤◌, ◌<◌, ◌≡◌, sym, ◌∙◌, ◌↔◌, ◌-◌, refl, ap, Bool, true, false,
  All-replicate, length-replicate, arith,
}
use cache_hierarchy_simulato.Word.{u64, u64_mod}
use cache_hierarchy_simulato.Config.{CacheConfig, ReplacementType, lru, fifo, random}
use cache_hierarchy_simulato.Word.Masks.{pow-pos, pow_mono, pow-add, pow-le-wrapped}
use cache_hierarchy_simulato.Geometry.{log2u, is_pow2}
use cache_hierarchy_simulato.Geometry.Log2.{is_pow2_iff, log2u-lt, is_pow2-pow}
use cache_hierarchy_simulato.Replacement.{make_replacement}
use cache_hierarchy_simulato.Cache.{Cache, failed, division_by_zero, ok, build, construct}
use cache_hierarchy_simulato.Cache.Shape.{IsShaped, FitsPolicy}

pow-split : (o : ℕ) → o < 64 → 2 ^ o * 2 ^ (64 - o) ≡ u64_mod
pow-split o h =
    let exponent : o + (64 - o) ≡ 64 = omega arith in
    sym (pow-add o (64 - o)) ∙ ap (λ e. 2 ^ e) exponent

make_replacement-FitsPolicy :
    (t : ReplacementType) (sets assoc : ℕ) → FitsPolicy sets assoc (make_replacement t sets assoc)
unfolding make_replacement
make_replacement-FitsPolicy lru sets assoc =
    (length-replicate sets _, All-replicate _ sets _ (length-replicate assoc 0))
make_replacement-FitsPolicy fifo sets assoc =
    (length-replicate sets _, All-replicate _ sets _ (length-replicate assoc 0))
make_replacement-FitsPolicy random sets assoc = refl

-- Every number that the configuration holds is a 64-bit word.
pub record IsWords {Double : Type 0} (cfg : CacheConfig Double) : Type 0 where
  pub size : cfg.size_bytes < u64_mod
  pub block : cfg.block_size < u64_mod
  pub ways : cfg.associativity < u64_mod

module _ {Double : Type 0} (cfg : CacheConfig Double) where
  -- The checks that an accepted configuration has passed.
  pub record IsAccepted (n : ℕ) : Type 0 where
    pub block_pos : 0 < cfg.block_size
    ways : 0 < cfg.associativity
    pub size_pos : 0 < cfg.size_bytes
    block : is_pow2 cfg.block_size ≡ true
    set_pos : 0 < u64 (cfg.block_size * cfg.associativity)
    multiple : cfg.size_bytes % u64 (cfg.block_size * cfg.associativity) ≡ 0
    pub quotient : n ≡ cfg.size_bytes / u64 (cfg.block_size * cfg.associativity)
    sets : is_pow2 n ≡ true

  pub construct_inv :
      (null : Bool) (c : Cache Double)
      → construct cfg null ≡ ok c
      → (n : ℕ) × (c ≡ build cfg n) × IsAccepted n × (null ≡ false)
  unfolding construct
  construct_inv null c e = (
    cfg.size_bytes / u64 (cfg.block_size * cfg.associativity),
    ground arith,
    ground arith,
    ground arith,
  )

  module _ (words : IsWords cfg) (n : ℕ) (a : IsAccepted n) where
    open a use {block_pos, ways, size_pos, set_pos, multiple, quotient}

    set_bytes : ℕ
    set_bytes = u64 (cfg.block_size * cfg.associativity)

    -- The size is a whole number of sets.
    size-eq : cfg.size_bytes ≡ n * set_bytes
    unfolding set_bytes
    size-eq =
        let quot : n * set_bytes ≡ cfg.size_bytes / set_bytes * set_bytes =
          ap (λ (k : ℕ). k * set_bytes) quotient in
        omega (arith, div-add-mod' cfg.size_bytes set_bytes)

    -- A wrapped product is still a multiple of the block size.
    block-le-set : cfg.block_size ≤ set_bytes
    unfolding set_bytes
    block-le-set =
        let power = (is_pow2_iff cfg.block_size words.block).0 a.block in
        let small = log2u-lt cfg.block_size block_pos words.block in
        pow-le-wrapped cfg.block_size (log2u cfg.block_size) cfg.associativity (omega arith) power
          set_pos

    n-lt : n < u64_mod
    unfolding set_bytes
    n-lt = omega (arith, div-le_self cfg.size_bytes set_bytes, words.size)

    fits_lem : log2u cfg.block_size + log2u n < 64
    fits_lem = elim (dec_lt (log2u cfg.block_size + log2u n) 64) [
      | yes h ↦ h
      | no h ↦
          let wide : 64 ≤ log2u cfg.block_size + log2u n = omega arith in
          absurd (
            omega (
              arith,
              pow_mono 64 (log2u cfg.block_size + log2u n) wide,
              pow-add (log2u cfg.block_size) (log2u n),
              ap₂ ◌*◌ ((is_pow2_iff cfg.block_size words.block).0 a.block)
                  ((is_pow2_iff n n-lt).0 a.sets),
              mul-le-mul_left n block-le-set,
              size-eq,
              words.size,
            ))
    ]

    pub build-IsShaped : IsShaped (build cfg n)
    build-IsShaped = record {
      block = (is_pow2_iff cfg.block_size words.block).0 a.block;
      sets_pow = (is_pow2_iff n n-lt).0 a.sets;
      fits = fits_lem;
      ways = ways;
      rows = length-replicate n _;
      columns = All-replicate _ n _ (length-replicate cfg.associativity _);
      policy = make_replacement-FitsPolicy cfg.replacement n cfg.associativity;
    }

module _ {Double : Type 0} (cfg : CacheConfig Double) where
  -- A cache that the constructor returns for a configuration of 64-bit words has powers of two for
  -- its block size and its number of sets, whose exponents together are below 64, at least one way,
  -- a table row for each set and an entry for each way; and its size is the number of sets times
  -- the 64-bit product of block size and associativity.
  pub construct-IsShaped :
      (null : Bool) {c : Cache Double}
      → IsWords cfg
      → construct cfg null ≡ ok c
      → IsShaped c
        × (c.cfg ≡ cfg)
        × (cfg.size_bytes ≡ c.num_sets * u64 (cfg.block_size * cfg.associativity))
  unfolding set_bytes
  construct-IsShaped null {c} words e =
      let (n, built, accepted, _) = construct_inv cfg null c e in
      rw built (build-IsShaped cfg words n accepted, refl, size-eq cfg words n accepted)

  -- A block size 2^o, a positive associativity and a size of 2^i sets, all without overflow, are
  -- accepted, if the configuration holds 64-bit words, and give 2^i sets.
  pub construct-accepts :
      (o i : ℕ)
      → IsWords cfg
      → cfg.block_size ≡ 2 ^ o
      → 0 < cfg.associativity
      → cfg.block_size * cfg.associativity < u64_mod
      → cfg.size_bytes ≡ 2 ^ i * (cfg.block_size * cfg.associativity)
      → construct cfg false ≡ ok (build cfg (2 ^ i))
  unfolding construct
  construct-accepts o i words block ways fits size =
      let set_bytes = cfg.block_size * cfg.associativity in
      let whole : set_bytes % u64_mod ≡ set_bytes = mod-eq_of_lt fits in
      let pos : 0 < set_bytes = grind (arith, pow-pos o) in
      let sets : 2 ^ i < u64_mod = grind (arith, mul-le-mul_left (2 ^ i) pos, words.size) in
      let quotient : cfg.size_bytes / set_bytes ≡ 2 ^ i = rw size (mul-div_cancel (2 ^ i) pos) in
      let rest : cfg.size_bytes % set_bytes ≡ 0 = rw size (mul-mod_left (2 ^ i) set_bytes) in
      let big : 0 < cfg.size_bytes = grind (arith, mul-le-mul_left (2 ^ i) pos, pow-pos i) in
      let power : is_pow2 cfg.block_size ≡ true = is_pow2-pow o cfg.block_size words.block block in
      let power' : is_pow2 (2 ^ i) ≡ true = is_pow2-pow i (2 ^ i) sets refl in
      let block_pos : 0 < cfg.block_size = omega (arith, pow-pos o) in
      rw (whole, rest, quotient, power, power') (ground arith)

  wrapped-fails :
      IsWords cfg
      → is_pow2 cfg.block_size ≡ true
      → 0 < cfg.block_size
      → 0 < cfg.associativity
      → 0 < cfg.size_bytes
      → (cfg.block_size * cfg.associativity) % u64_mod ≡ 0
      → construct cfg false ≡ failed division_by_zero
  unfolding construct
  wrapped-fails words power block ways size wrapped = ground arith

  -- What a constructor that divides by zero has tested.
  wrapped-inv :
      construct cfg false ≡ failed division_by_zero
      → (is_pow2 cfg.block_size ≡ true)
        × (0 < cfg.associativity)
        × (0 < cfg.size_bytes)
        × ((cfg.block_size * cfg.associativity) % u64_mod ≡ 0)
  unfolding construct
  wrapped-inv e = ground (arith, e)

  -- For a configuration of 64-bit words, the constructor divides by zero exactly if the size and the
  -- associativity are positive, the block size is a power 2^o, and the associativity is a multiple
  -- of 2^(64-o).
  pub construct-wrapped :
      IsWords cfg
      → (construct cfg false ≡ failed division_by_zero) ↔ (
          (0 < cfg.size_bytes)
          × (0 < cfg.associativity)
          × ((o : ℕ) × (cfg.block_size ≡ 2 ^ o)
              × (o < 64)
              × ((k : ℕ) × (cfg.associativity ≡ k * 2 ^ (64 - o)))))
  construct-wrapped words = (divides, reaches)
    where
      divides :
          construct cfg false ≡ failed division_by_zero
          → (0 < cfg.size_bytes)
            × (0 < cfg.associativity)
            × ((o : ℕ) × (cfg.block_size ≡ 2 ^ o)
                × (o < 64)
                × ((k : ℕ) × (cfg.associativity ≡ k * 2 ^ (64 - o))))
      divides e =
          let (power, ways, size, wrapped) = wrapped-inv e in
          let o = log2u cfg.block_size in
          let block : cfg.block_size ≡ 2 ^ o = (is_pow2_iff cfg.block_size words.block).0 power in
          let small : o < 64 =
            log2u-lt cfg.block_size (omega (arith, block, pow-pos o)) words.block in
          let q = cfg.block_size * cfg.associativity / u64_mod in
          let product : cfg.block_size * cfg.associativity ≡ q * u64_mod =
            omega (arith, wrapped, div-add-mod' (cfg.block_size * cfg.associativity) u64_mod) in
          let whole : 2 ^ o * cfg.associativity ≡ 2 ^ o * (q * 2 ^ (64 - o)) =
            ap (λ x. x * cfg.associativity) (sym block)
            ∙ product
            ∙ ap (λ x. q * x) (sym (pow-split o small))
            ∙ omega arith in
          let multiple : cfg.associativity ≡ q * 2 ^ (64 - o) =
            sym (mul-div_cancel_left cfg.associativity (pow-pos o))
            ∙ ap (λ x. x / 2 ^ o) whole
            ∙ mul-div_cancel_left (q * 2 ^ (64 - o)) (pow-pos o) in
          (size, ways, (o, block, small, (q, multiple)))

      reaches :
          (0 < cfg.size_bytes)
            × (0 < cfg.associativity)
            × ((o : ℕ) × (cfg.block_size ≡ 2 ^ o)
                × (o < 64)
                × ((k : ℕ) × (cfg.associativity ≡ k * 2 ^ (64 - o))))
          → construct cfg false ≡ failed division_by_zero
      reaches (size, ways, (o, power, small, (k, multiple))) =
          let block : 0 < cfg.block_size = omega (arith, pow-pos o) in
          let whole : cfg.block_size * cfg.associativity ≡ k * u64_mod =
            ap₂ (λ x y. x * y) power multiple ∙ omega arith ∙ ap (λ x. k * x) (pow-split o small) in
          wrapped-fails words (is_pow2-pow o cfg.block_size words.block power) block ways size
            (rw (whole, mul-mod_left k u64_mod) refl)
