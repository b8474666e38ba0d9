-- ===== src/Cache.antt =====
-- The state of the class Cache (include/cache.h), its constructor and decode (src/cache.cpp).
-- The pointer to the next level is a parameter of the methods that call through it (Access).
pub mod Shape
pub mod Construct
pub mod Decode
use cache_hierarchy_simulato.Prelude.{
  ℕ, ◌-◌, ◌*◌, ◌/◌, ◌%◌, Bool, true, false, not, ◌||◌, List, [], ◌∷◌, Option, none, some, bit_and,
  bit_or, ◌==◌, if◌then◌else◌, length, get_or, set, replicate,
}
use cache_hierarchy_simulato.Word.{u64, sub64, shl, shr}
use cache_hierarchy_simulato.Config.{CacheConfig, Stats, zero_stats}
use cache_hierarchy_simulato.Geometry.{log2u, is_pow2}
use cache_hierarchy_simulato.Replacement.{ReplacementPolicy, make_replacement}
use cache_hierarchy_simulato.RefFaCache.{RefFaCache}

pub record CacheLine : Type 0 where
  pub valid : Bool
  pub dirty : Bool
  pub tag : ℕ

abbrev pub empty_line : CacheLine
empty_line = record { valid = false; dirty = false; tag = 0 }

pub record CacheSet : Type 0 where
  pub lines : List CacheLine

abbrev pub empty_set : CacheSet
empty_set = record { lines = [] }

pub record Cache (Double : Type 0) : Type 0 where
  pub cfg : CacheConfig Double
  pub num_sets : ℕ
  pub offset_bits : ℕ
  pub index_bits : ℕ
  pub tag_bits : ℕ
  pub sets : List CacheSet
  pub repl : ReplacementPolicy
  pub stats : Stats
  pub ref_fa : Option RefFaCache
  pub seen : List ℕ

pub record Decoded : Type 0 where
  pub offset : ℕ
  pub block_addr : ℕ
  pub set_index : ℕ
  pub tag : ℕ

-- The exceptions of the constructor in the order of its checks, the division by zero that it runs
-- into where blockSize * associativity wraps to 0, and the exception of an empty hierarchy.
pub data Failure : Type 0 where
  no_next_level zero_dimension block_not_pow2 size_not_multiple sets_not_pow2 : Failure
  division_by_zero no_cache_level : Failure

pub data Result {ℓ} (A : Type ℓ) : Type ℓ where
  ok : A → Result A
  failed : Failure → Result A

infixl 5 ◌>>=◌ ◌>>◌
abbrev pub ◌>>=◌ {ℓ κ} : {A : Type ℓ} {B : Type κ} → Result A → (A → Result B) → Result B
ok a >>= f = f a
failed e >>= f = failed e

abbrev pub ◌>>◌ {ℓ} : {B : Type ℓ} → Result (Unit {0}) → Result B → Result B
m >> k = m >>= λ _. k

-- `if (test) throw …`
abbrev pub throw_if : Bool → Failure → Result (Unit {0})
throw_if true e = failed e
throw_if false e = ok tt

module _ {Double : Type 0} where
  -- The members once every check has passed.
  abbrev pub build : CacheConfig Double → ℕ → Cache Double
  build cfg num_sets =
      let offset_bits = log2u cfg.block_size in
      let index_bits = log2u num_sets in
      record {
        cfg = cfg;
        num_sets = num_sets;
        offset_bits = offset_bits;
        index_bits = index_bits;
        tag_bits = sub64 (sub64 cfg.addr_width index_bits) offset_bits;
        sets = replicate num_sets (record { lines = replicate cfg.associativity empty_line });
        repl = make_replacement cfg.replacement num_sets cfg.associativity;
        stats = zero_stats;
        ref_fa =
            if cfg.classify_3c
            then some
                (record { last_used = []; capacity = cfg.size_bytes / cfg.block_size; clock = 0 })
            else none;
        seen = [];
      }

  -- Cache::Cache; `next_is_null` is the test of the pointer argument.
  unfoldable pub construct : CacheConfig Double → Bool → Result (Cache Double)
  construct cfg next_is_null = do
    throw_if next_is_null no_next_level
    throw_if (cfg.block_size == 0 || cfg.associativity == 0 || cfg.size_bytes == 0) zero_dimension
    throw_if (not (is_pow2 cfg.block_size)) block_not_pow2
    let set_bytes = u64 (cfg.block_size * cfg.associativity)
    throw_if (set_bytes == 0) division_by_zero
    throw_if (not (cfg.size_bytes % set_bytes == 0)) size_not_multiple
    let num_sets = cfg.size_bytes / set_bytes
    throw_if (not (is_pow2 num_sets)) sets_not_pow2
    ok (build cfg num_sets)

  -- Cache::decode
  unfoldable pub decode : Cache Double → ℕ → Decoded
  decode c addr =
      let block = shr addr c.offset_bits in
      record {
        offset = bit_and addr (sub64 c.cfg.block_size 1);
        block_addr = block;
        set_index = bit_and block (sub64 c.num_sets 1);
        tag = shr block c.index_bits;
      }

  -- `((tag << indexBits_) | setIndex) << offsetBits_`: the byte address of the block that a frame of
  -- a set holds.
  unfoldable pub victim_addr : Cache Double → ℕ → ℕ → ℕ
  victim_addr c tag i = shl (bit_or (shl tag c.index_bits) i) c.offset_bits

  -- `sets_[i].lines`
  abbrev pub lines_of : Cache Double → ℕ → List CacheLine
  lines_of c i = (get_or c.sets i empty_set).lines

  -- `sets_[i].lines[way] = line`
  unfoldable pub set_line : Cache Double → ℕ → ℕ → CacheLine → Cache Double
  set_line c i way line = record c {
    sets = set c.sets i (record { lines = set (lines_of c i) way line });
  }
