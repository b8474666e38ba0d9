-- ===== src/Recency/Rows.antt =====
-- The frames of an LRU set with their stamps as a reference model of the stack of the set.
use mathlib.Core.Option.{none-ne-some}
use cache_hierarchy_simulato.Prelude.{
  ℕ, zero, suc, ◌+◌, ◌≤◌, ◌<◌, ◌≡◌, refl, ◌∙◌, true, false, List, [], ◌∷◌, none, some, arith,
  length, inl, inr, Bool-cases, get_or, All,
}
use cache_hierarchy_simulato.Cache.{CacheLine, empty_line}
use cache_hierarchy_simulato.RefFaCache.{Stamps, RefFaCache, find}
use cache_hierarchy_simulato.RefFaCache.Maps.{IsUnique}
use cache_hierarchy_simulato.RefFaCache.Stack.{Models}
use cache_hierarchy_simulato.Access.{find_empty}
use cache_hierarchy_simulato.Recency.{entries}

-- The reference model that holds the valid frames of a set.
abbrev pub view : ℕ → ℕ → List CacheLine → List ℕ → RefFaCache
view ways clock ls ts = record { last_used = entries ls ts; capacity = ways; clock = clock }

-- The frames and the stamps of a set stand for a stack.
pub record SetModels (ways clock : ℕ) (ls : List CacheLine) (ts : List ℕ) (l : List ℕ)
    : Type 0 where
  pub frames : length ls ≡ ways
  pub stamps : length ts ≡ ways
  pub past : All (λ t. t ≤ clock) ts
  pub models : Models (view ways clock ls ts) l

-- The order of the entries and the size of the cache do not matter.
pub Models-same :
    {m m' : Stamps} {k k' clock : ℕ} {l : List ℕ}
    → Models (record { last_used = m; capacity = k; clock = clock }) l
    → ((x : ℕ) → find x m' ≡ find x m)
    → IsUnique m'
    → length m' ≡ length m
    → Models (record { last_used = m'; capacity = k'; clock = clock }) l
Models-same old same unique size = record {
  ranks = old.ranks;
  stack = old.stack;
  unique = unique;
  unique_ranks = old.unique_ranks;
  ranked = old.ranked;
  same = λ x. same x ∙ old.same x;
  size = size ∙ old.size;
}

pub All-le : (a b : ℕ) (ts : List ℕ) → a ≤ b → All (λ t. t ≤ a) ts → All (λ t. t ≤ b) ts
All-le a b [] h p = tt
All-le a b (t ∷ ts) h p = (omega arith, All-le a b ts h p.1)

pub All-lt : (a b : ℕ) (ts : List ℕ) → a < b → All (λ t. t ≤ a) ts → All (λ t. t < b) ts
All-lt a b [] h p = tt
All-lt a b (t ∷ ts) h p = (omega arith, All-lt a b ts h p.1)

-- Every stamp of an entry is one of the row.
pub entries-ge :
    (a x t : ℕ) (ls : List CacheLine) (ts : List ℕ)
    → All (λ s. a ≤ s) ts
    → find x (entries ls ts) ≡ some t
    → a ≤ t
unfolding entries find
entries-ge a x t [] ts p e = absurd (none-ne-some t e)
entries-ge a x t (l ∷ ls) [] p e = absurd (none-ne-some t e)
entries-ge a x t (l ∷ ls) (s ∷ ts) p e = ground (arith, entries-ge a x t ls ts p.1)

-- Where no frame is empty, every frame is valid and has an entry.
pub full-valid :
    (w : ℕ) (ls : List CacheLine) (i : ℕ)
    → find_empty w ls ≡ none
    → i < length ls
    → (get_or ls i empty_line).valid ≡ true
unfolding find_empty
full-valid w [] i e h = absurd (omega arith)
full-valid w (l ∷ ls) zero e h = ground arith
full-valid w (l ∷ ls) (suc i) e h = full-valid (w + 1) ls i (ground arith) (omega arith)

pub full-length :
    (w : ℕ) (ls : List CacheLine) (ts : List ℕ)
    → find_empty w ls ≡ none
    → length ls ≡ length ts
    → length (entries ls ts) ≡ length ls
unfolding find_empty entries
full-length w [] ts e h = refl
full-length w (l ∷ ls) [] e h = absurd (omega arith)
full-length w (l ∷ ls) (t ∷ ts) e h = ground (arith, full-length (w + 1) ls ts)

-- The frame that the search finds empty is one of the set.
pub find_empty-free :
    (w way : ℕ) (ls : List CacheLine)
    → find_empty w ls ≡ some way
    → (i : ℕ) × (way ≡ w + i) × (i < length ls) × ((get_or ls i empty_line).valid ≡ false)
unfolding find_empty
find_empty-free w way [] e = absurd (cc)
find_empty-free w way (l ∷ ls) e = elim (Bool-cases l.valid) [
  | inl valid ↦
      let (i, at, inside, free) = find_empty-free (w + 1) way ls (ground arith) in
      (suc i, omega arith, omega arith, free)
  | inr empty ↦ (0, ground arith, omega arith, empty)
]

length-entries_le : (ls : List CacheLine) (ts : List ℕ) → length (entries ls ts) ≤ length ls
unfolding entries
length-entries_le [] ts = omega arith
length-entries_le (l ∷ ls) [] = omega arith
length-entries_le (l ∷ ls) (t ∷ ts) = ground (arith, length-entries_le ls ts)

pub free-room :
    (i : ℕ) (ls : List CacheLine) (ts : List ℕ)
    → i < length ls
    → (get_or ls i empty_line).valid ≡ false
    → length (entries ls ts) < length ls
unfolding entries
free-room i [] ts h e = absurd (omega arith)
free-room i (l ∷ ls) [] h e = omega arith
free-room zero (l ∷ ls) (t ∷ ts) h e = rw e (omega (arith, length-entries_le ls ts))
free-room (suc i) (l ∷ ls) (t ∷ ts) h e = ground (arith, free-room i ls ts (omega arith) e)
