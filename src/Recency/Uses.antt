-- ===== src/Recency/Uses.antt =====
-- The sets of an LRU cache that stand for their stacks, and the use of one frame.
use mathlib.Core.Path.{subst}
use native.Mathlib.Decide.{ℕ_discrete}
use native.Mathlib.Nat.{mod-eq_of_lt}
use cache_hierarchy_simulato.Prelude.{
  ℕ, zero, suc, ◌+◌, ◌≤◌, ◌<◌, ◌≡◌, ◌≢◌, refl, ap, sym, ◌∙◌, Bool, true, false, ◌&&◌, List, [], ◌∷◌,
  ◌==◌, if◌then◌else◌, arith, length, inl, inr, Bool-cases, get_or, set, get_or-set_self,
  get_or-set_ne,
}
use cache_hierarchy_simulato.Word.{incr, u64_mod}
use cache_hierarchy_simulato.Config.{is_write_back}
use cache_hierarchy_simulato.Replacement.{LruPolicy, lru_policy, on_access, on_insert, stamp}
use cache_hierarchy_simulato.RefFaCache.Maps.{IsRanked-le}
use cache_hierarchy_simulato.Cache.{CacheLine, Cache, Decoded, empty_line, lines_of, set_line}
use cache_hierarchy_simulato.Cache.Shape.{IsShaped, FitsPolicy}
use cache_hierarchy_simulato.Access.{record_hit, install, touch_ref}
use cache_hierarchy_simulato.Access.Branches.{after_hit, after_fill, evicts_dirty, frame_of}
use cache_hierarchy_simulato.Access.Sets.{lines_of-set_line_self, lines_of-set_line_ne, filled_line}
use cache_hierarchy_simulato.Access.Shape.{SameFrames}
use cache_hierarchy_simulato.Recency.{Stacks, update}
use cache_hierarchy_simulato.Recency.Rows.{SetModels, All-le}

set-get_or {ℓ} : {A : Type ℓ} (xs : List A) (i : ℕ) (d : A) → set xs i (get_or xs i d) ≡ xs
set-get_or [] i d = refl
set-get_or (x ∷ xs) zero d = refl
set-get_or (x ∷ xs) (suc i) d = ap (λ ys. x ∷ ys) (set-get_or xs i d)

module _ {ways clock : ℕ} {ls : List CacheLine} {ts l : List ℕ} where
  SetModels-later :
      (later : ℕ) → clock ≤ later → SetModels ways clock ls ts l → SetModels ways later ls ts l
  SetModels-later later h m =
      let old = m.models in
      record {
        frames = m.frames;
        stamps = m.stamps;
        past = All-le clock later ts h m.past;
        models = record {
          ranks = old.ranks;
          stack = old.stack;
          unique = old.unique;
          unique_ranks = old.unique_ranks;
          ranked = IsRanked-le (suc clock) (suc later) old.ranks (omega arith) old.ranked;
          same = old.same;
          size = old.size;
        };
      }

module _ {Double : Type 0} where
  -- Every set of an LRU cache that has used its frames at most `n` times stands for its stack.
  pub record LruModels (n : ℕ) (c : Cache Double) (st : Stacks) : Type 0 where
    pub policy : LruPolicy
    pub is_lru : c.repl ≡ lru_policy policy
    pub uses : policy.clock ≤ n
    pub sets :
        (i : ℕ)
        → i < c.num_sets
        → SetModels c.cfg.associativity policy.clock
            (lines_of c i)
            (get_or policy.last_used i [])
            (st i)

  pub SameFrames-LruModels :
      {n : ℕ} {c c' : Cache Double} {st : Stacks}
      → SameFrames c c'
      → LruModels n c st
      → LruModels n c' st
  SameFrames-LruModels {c} {c'} {st} same m = record {
    policy = m.policy;
    is_lru = same.repl ∙ m.is_lru;
    uses = m.uses;
    sets = λ i lt. rw (same.cfg, same.sets) (m.sets i (rw same.num_sets at lt));
  }

  -- The use of a frame of the set `i`.
  module _ {n : ℕ} {c : Cache Double} {st : Stacks} (m : LruModels n c st) (shaped : IsShaped c)
      (room : n + 1 < u64_mod) (i way : ℕ) (lt : i < c.num_sets) where
    abbrev pub stamped : LruPolicy
    stamped = record {
      last_used = stamp m.policy.last_used i way (incr m.policy.clock);
      clock = incr m.policy.clock;
    }

    rows : length m.policy.last_used ≡ c.num_sets
    rows = (subst (FitsPolicy c.num_sets c.cfg.associativity) m.is_lru shaped.policy).0

    pub record IsUse (line : CacheLine) (c' : Cache Double) : Type 0 where
      ways : c'.cfg.associativity ≡ c.cfg.associativity
      num_sets : c'.num_sets ≡ c.num_sets
      repl : c'.repl ≡ lru_policy stamped
      here : lines_of c' i ≡ set (lines_of c i) way line
      there : (k : ℕ) → i ≢ k → lines_of c' k ≡ lines_of c k

    pub use-LruModels :
        {line : CacheLine} {c' : Cache Double} (l : List ℕ)
        → IsUse line c'
        → SetModels c.cfg.associativity
            (incr m.policy.clock)
            (set (lines_of c i) way line)
            (set (get_or m.policy.last_used i []) way (incr m.policy.clock))
            l
        → LruModels (suc n) c' (update st i l)
    use-LruModels {line} {c'} l u s =
        let tick : incr m.policy.clock ≡ m.policy.clock + 1 =
          mod-eq_of_lt (omega (arith, m.uses)) in
        record {
          policy = stamped;
          is_lru = u.repl;
          uses = omega (arith, m.uses);
          sets = λ k inside. elim (ℕ_discrete i k) [
            | yes same ↦
                let row =
                  get_or-set_self m.policy.last_used i
                    (set (get_or m.policy.last_used i []) way (incr m.policy.clock)) []
                    (omega (arith, rows)) in
                let mine : (i == i) ≡ true = ground arith in
                subst
                  (λ (k : ℕ).
                    SetModels c'.cfg.associativity (incr m.policy.clock) (lines_of c' k)
                      (get_or stamped.last_used k []) (update st i l k))
                  same (rw (u.ways, u.here, row, mine) s)
            | no other ↦
                let row =
                  get_or-set_ne m.policy.last_used i k
                    (set (get_or m.policy.last_used i []) way (incr m.policy.clock)) [] other in
                let not_mine : (k == i) ≡ false = ground arith in
                rw (u.ways, u.there k other, row, not_mine)
                  (SetModels-later (incr m.policy.clock) (omega arith)
                    (m.sets k (rw u.num_sets at inside)))
          ];
        }

  pub after_hit-IsUse :
      (b : Bool) (d : Decoded) (way : ℕ) {n : ℕ} {c : Cache Double} {st : Stacks}
      (m : LruModels n c st) (shaped : IsShaped c) (room : n + 1 < u64_mod)
      (lt : d.set_index < c.num_sets)
      → IsUse m shaped room d.set_index way lt
          (if b && is_write_back c.cfg.write_policy
            then record (frame_of c d.set_index way) { dirty = true }
            else frame_of c d.set_index way)
          (after_hit b d way c)
  unfolding on_access after_hit record_hit touch_ref set_line
  after_hit-IsUse b d way {n} {c} m shaped room lt =
      elim (Bool-cases (b && is_write_back c.cfg.write_policy)) [
        | inl e ↦ rw e (record {
          ways = refl;
          num_sets = refl;
          repl = rw m.is_lru refl;
          here = lines_of-set_line_self c d.set_index way _ (rw shaped.rows lt);
          there = λ k other. lines_of-set_line_ne c d.set_index k way _ other;
        })
        | inr e ↦ rw e (record {
          ways = refl;
          num_sets = refl;
          repl = rw m.is_lru refl;
          here = sym (set-get_or (lines_of c d.set_index) way empty_line);
          there = λ k other. refl;
        })
      ]

  pub after_fill-IsUse :
      (b : Bool) (d : Decoded) (way : ℕ) {n : ℕ} {c : Cache Double} {st : Stacks}
      (m : LruModels n c st) (shaped : IsShaped c) (room : n + 1 < u64_mod)
      (lt : d.set_index < c.num_sets)
      → IsUse m shaped room d.set_index way lt (filled_line b d c) (after_fill b d way c)
  unfolding on_insert after_fill install set_line
  after_fill-IsUse b d way {n} {c} m shaped room lt =
      elim (Bool-cases (evicts_dirty c d.set_index way)) [
        | inl e ↦ rw e (record {
          ways = refl;
          num_sets = refl;
          repl = rw m.is_lru refl;
          here = lines_of-set_line_self c d.set_index way _ (rw shaped.rows lt);
          there = λ k other. lines_of-set_line_ne c d.set_index k way _ other;
        })
        | inr e ↦ rw e (record {
          ways = refl;
          num_sets = refl;
          repl = rw m.is_lru refl;
          here = lines_of-set_line_self c d.set_index way _ (rw shaped.rows lt);
          there = λ k other. lines_of-set_line_ne c d.set_index k way _ other;
        })
      ]
