-- ===== src/Cache/Shape.antt =====
-- The shape of a cache: its geometry is in powers of two that fit an address, and its tables have
-- the sizes that the geometry says.
use cache_hierarchy_simulato.Prelude.{ℕ, ◌+◌, ◌^◌, ◌<◌, ◌≡◌, List, All, length}
use cache_hierarchy_simulato.Replacement.{ReplacementPolicy, lru_policy, fifo_policy, random_policy}
use cache_hierarchy_simulato.Cache.{CacheSet, Cache}

-- A table of `sets` rows of `assoc` entries.
abbrev pub IsTable : ℕ → ℕ → List (List ℕ) → Type 0
IsTable sets assoc t = (length t ≡ sets) × All (λ row. length row ≡ assoc) t

abbrev pub FitsPolicy : ℕ → ℕ → ReplacementPolicy → Type 0
FitsPolicy sets assoc (lru_policy p) = IsTable sets assoc p.last_used
FitsPolicy sets assoc (fifo_policy p) = IsTable sets assoc p.insert_time
FitsPolicy sets assoc (random_policy p) = p.assoc ≡ assoc

abbrev pub HasWays : ℕ → CacheSet → Type 0
HasWays assoc s = length s.lines ≡ assoc

module _ {Double : Type 0} where
  pub record IsShaped (c : Cache Double) : Type 0 where
    pub block : c.cfg.block_size ≡ 2 ^ c.offset_bits
    pub sets_pow : c.num_sets ≡ 2 ^ c.index_bits
    pub fits : c.offset_bits + c.index_bits < 64
    pub ways : 0 < c.cfg.associativity
    pub rows : length c.sets ≡ c.num_sets
    pub columns : All (HasWays c.cfg.associativity) c.sets
    pub policy : FitsPolicy c.num_sets c.cfg.associativity c.repl
