-- ===== src/Recency/Fresh.antt =====
-- A new LRU cache stands for empty stacks.
use mathlib.Core.Path.{subst}
use cache_hierarchy_simulato.Prelude.{
  ap, sym, ℕ, zero, suc, ◌<◌, ◌≡◌, refl, List, [], ◌∷◌, arith, get_or, replicate, All-replicate,
  length-replicate,
}
use cache_hierarchy_simulato.Config.{CacheConfig, lru}
use cache_hierarchy_simulato.Replacement.{make_replacement}
use cache_hierarchy_simulato.RefFaCache.Verdicts.{Models-empty}
use cache_hierarchy_simulato.Cache.{CacheSet, CacheLine, empty_line, empty_set, build, lines_of}
use cache_hierarchy_simulato.Recency.{entries}
use cache_hierarchy_simulato.Recency.Rows.{SetModels}
use cache_hierarchy_simulato.Recency.Uses.{LruModels}

get_or-replicate {ℓ} : {A : Type ℓ} (n i : ℕ) (a d : A) → i < n → get_or (replicate n a) i d ≡ a
get_or-replicate zero i a d h = absurd (omega arith)
get_or-replicate (suc n) zero a d h = refl
get_or-replicate (suc n) (suc i) a d h = get_or-replicate n i a d (omega arith)

entries-empty : (n : ℕ) (ts : List ℕ) → entries (replicate n empty_line) ts ≡ []
unfolding entries
entries-empty zero ts = refl
entries-empty (suc n) [] = refl
entries-empty (suc n) (t ∷ ts) = entries-empty n ts

SetModels-empty : (ways : ℕ) → SetModels ways 0 (replicate ways empty_line) (replicate ways 0) []
SetModels-empty ways = record {
  frames = length-replicate ways _;
  stamps = length-replicate ways _;
  past = All-replicate _ ways 0 (omega arith);
  models = rw (entries-empty ways (replicate ways 0)) (Models-empty ways);
}

module _ {Double : Type 0} (cfg : CacheConfig Double) (n : ℕ) where
  -- The sets of a new cache with the stamps of its policy.
  pub empty-SetModels :
      (i : ℕ)
      → i < n
      → SetModels cfg.associativity 0
          (lines_of (build cfg n) i)
          (get_or (replicate {A = List ℕ} n (replicate {A = ℕ} cfg.associativity 0)) i [])
          []
  empty-SetModels i lt =
      let frames =
        ap (λ (s : CacheSet). s.lines)
          (get_or-replicate n i (record { lines = replicate cfg.associativity empty_line })
            empty_set lt) in
      let row = get_or-replicate n i (replicate {A = ℕ} cfg.associativity 0) [] lt in
      subst
        (λ (ls : List CacheLine).
          SetModels cfg.associativity 0 ls
            (get_or (replicate {A = List ℕ} n (replicate {A = ℕ} cfg.associativity 0)) i []) [])
        (sym frames) (rw row (SetModels-empty cfg.associativity))

  pub build-LruModels : cfg.replacement ≡ lru → LruModels 0 (build cfg n) (λ i. [])
  unfolding make_replacement
  build-LruModels chosen = record {
    policy = record { last_used = replicate n (replicate cfg.associativity 0); clock = 0 };
    is_lru = rw chosen refl;
    uses = omega arith;
    sets = empty-SetModels;
  }
