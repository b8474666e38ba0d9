-- ===== src/Insertion/Twin.antt =====
-- A FIFO cache beside its twin, the LRU cache with the same stamps: both fill their frames in the
-- same way.
use mathlib.Core.Path.{subst}
use native.Mathlib.Decide.{ℕ_discrete}
use cache_hierarchy_simulato.Prelude.{
  ℕ, zero, suc, ◌<◌, ◌≡◌, refl, ap, sym, ◌∙◌, Bool, false, ◌&&◌, List, [], ◌∷◌, arith, inl, inr,
  Bool-cases, get_or, set, contains, length-set,
}
use cache_hierarchy_simulato.Word.{incr}
use cache_hierarchy_simulato.Config.{is_write_back}
use cache_hierarchy_simulato.Replacement.{
  FifoPolicy, lru_policy, fifo_policy, on_access, on_insert, stamp, get_victim,
}
use cache_hierarchy_simulato.RefFaCache.Stack.{touch_stack, Models}
use cache_hierarchy_simulato.Cache.{CacheLine, Cache, Decoded, empty_line, lines_of, set_line}
use cache_hierarchy_simulato.Cache.Shape.{IsShaped, FitsPolicy}
use cache_hierarchy_simulato.Access.{pick_way, record_hit, install, touch_ref}
use cache_hierarchy_simulato.Access.Branches.{after_hit, after_fill, evicts_dirty, frame_of}
use cache_hierarchy_simulato.Access.Sets.{lines_of-set_line_self, lines_of-set_line_ne}
use cache_hierarchy_simulato.Access.Shape.{SameFrames}
use cache_hierarchy_simulato.Recency.{Stacks, entries}
use cache_hierarchy_simulato.Recency.Rows.{SetModels}
use cache_hierarchy_simulato.Recency.Uses.{LruModels, SameFrames-LruModels}
use cache_hierarchy_simulato.Insertion.{enter}

-- A miss of the stack of a set is the entry of a new tag, and the verdicts are the same.
pub touch_stack-verdict : (ways tag : ℕ) (l : List ℕ) → (touch_stack ways tag l).0 ≡ contains tag l
unfolding touch_stack
touch_stack-verdict ways tag l = ground arith

pub touch_stack-enter :
    (ways tag : ℕ) (l : List ℕ)
    → contains tag l ≡ false
    → (touch_stack ways tag l).1 ≡ enter ways tag l
unfolding touch_stack enter
touch_stack-enter ways tag l out = rw out refl

-- The dirty bit of a frame is none of its entry.
entries-set_same :
    (i : ℕ) (line : CacheLine) (ls : List CacheLine) (ts : List ℕ)
    → line.valid ≡ (get_or ls i empty_line).valid
    → line.tag ≡ (get_or ls i empty_line).tag
    → entries (set ls i line) ts ≡ entries ls ts
unfolding entries
entries-set_same i line [] ts v t = refl
entries-set_same zero line (x ∷ ls) [] v t = refl
entries-set_same (suc i) line (x ∷ ls) [] v t = refl
entries-set_same zero line (x ∷ ls) (s ∷ ts) v t = rw (v, t) refl
entries-set_same (suc i) line (x ∷ ls) (s ∷ ts) v t = rw (entries-set_same i line ls ts v t) refl

SetModels-set_same :
    {ways clock : ℕ} {ls : List CacheLine} {ts l : List ℕ} (i : ℕ) (line : CacheLine)
    → line.valid ≡ (get_or ls i empty_line).valid
    → line.tag ≡ (get_or ls i empty_line).tag
    → SetModels ways clock ls ts l
    → SetModels ways clock (set ls i line) ts l
SetModels-set_same {ways} {clock} {ls} {ts} {l} i line v t m = record {
  frames = length-set ls i line ∙ m.frames;
  stamps = m.stamps;
  past = m.past;
  models =
      subst (λ e. Models (record { last_used = e; capacity = ways; clock = clock }) l)
        (sym (entries-set_same i line ls ts v t)) m.models;
}

-- The policy after the fill of a frame.
abbrev pub inserted : FifoPolicy → ℕ → ℕ → FifoPolicy
inserted p i way = record {
  insert_time = stamp p.insert_time i way (incr p.clock);
  clock = incr p.clock;
}

module _ {Double : Type 0} where
  abbrev pub twin : FifoPolicy → Cache Double → Cache Double
  twin p c = record c { repl = lru_policy (record { last_used = p.insert_time; clock = p.clock }) }

  -- Every set of a FIFO cache that has filled at most `n` frames stands for its row.
  pub record FifoModels (n : ℕ) (c : Cache Double) (st : Stacks) : Type 0 where
    pub policy : FifoPolicy
    pub is_fifo : c.repl ≡ fifo_policy policy
    pub models : LruModels n (twin policy c) st

  module _ (c : Cache Double) (p : FifoPolicy) (fifo : c.repl ≡ fifo_policy p) where
    pub twin-IsShaped : IsShaped c → IsShaped (twin p c)
    twin-IsShaped h = record {
      block = h.block;
      sets_pow = h.sets_pow;
      fits = h.fits;
      ways = h.ways;
      rows = h.rows;
      columns = h.columns;
      policy = subst (FitsPolicy c.num_sets c.cfg.associativity) fifo h.policy;
    }

    pub pick_way-twin :
        (rand : ℕ → ℕ) (i draws : ℕ) → pick_way rand (twin p c) i draws ≡ pick_way rand c i draws
    unfolding pick_way get_victim
    pick_way-twin rand i draws = rw fifo refl

    pub after_fill-twin :
        (b : Bool) (d : Decoded) (way : ℕ)
        → ((after_fill b d way c).repl ≡ fifo_policy (inserted p d.set_index way))
          × (after_fill b d way (twin p c)
              ≡ twin (inserted p d.set_index way) (after_fill b d way c))
    unfolding after_fill install set_line on_insert
    after_fill-twin b d way = elim (Bool-cases (evicts_dirty c d.set_index way)) [
      | inl e ↦ rw (e, fifo) (refl, refl)
      | inr e ↦ rw (e, fifo) (refl, refl)
    ]

  module _ {n : ℕ} {c : Cache Double} {st : Stacks} (m : FifoModels n c st) where
    pub FifoModels-later : FifoModels (suc n) c st
    FifoModels-later =
        let old = m.models in
        record {
          policy = m.policy;
          is_fifo = m.is_fifo;
          models = record {
            policy = old.policy;
            is_lru = old.is_lru;
            uses = omega (arith, old.uses);
            sets = old.sets;
          };
        }

    pub SameFrames-FifoModels : {c' : Cache Double} → SameFrames c c' → FifoModels n c' st
    SameFrames-FifoModels {c'} same = record {
      policy = m.policy;
      is_fifo = same.repl ∙ m.is_fifo;
      models =
          SameFrames-LruModels {c' = twin m.policy c'}
            (record {
              cfg = same.cfg;
              num_sets = same.num_sets;
              offset_bits = same.offset_bits;
              index_bits = same.index_bits;
              sets = same.sets;
              repl = refl;
            })
            m.models;
    }

  set_line-SetModels :
      {c : Cache Double}
      → IsShaped c
      → (i way k clock : ℕ) (line : CacheLine) (ts l : List ℕ) → i < c.num_sets
      → line.valid ≡ (frame_of c i way).valid
      → line.tag ≡ (frame_of c i way).tag
      → SetModels c.cfg.associativity clock (lines_of c k) ts l
      → SetModels c.cfg.associativity clock (lines_of (set_line c i way line) k) ts l
  set_line-SetModels {c} shaped i way k clock line ts l lt v t m = elim (ℕ_discrete i k) [
    | yes same ↦
        subst (λ (ls : List CacheLine). SetModels c.cfg.associativity clock ls ts l)
          (sym (
            ap (lines_of (set_line c i way line)) (sym same)
            ∙ lines_of-set_line_self c i way line (rw shaped.rows lt)))
          (SetModels-set_same way line v t (rw same m))
    | no other ↦ rw (lines_of-set_line_ne c i k way line other) m
  ]

  -- A hit keeps the rows.
  pub after_hit-FifoModels :
      (b : Bool) (d : Decoded) (way : ℕ) {n : ℕ} {c : Cache Double} {st : Stacks}
      → IsShaped c
      → d.set_index < c.num_sets
      → FifoModels n c st
      → FifoModels n (after_hit b d way c) st
  unfolding on_access after_hit record_hit touch_ref set_line
  after_hit-FifoModels b d way {n} {c} {st} shaped inside m =
      let old = m.models in
      elim (Bool-cases (b && is_write_back c.cfg.write_policy)) [
        | inr e ↦ rw e (record {
          policy = m.policy;
          is_fifo = rw m.is_fifo refl;
          models = record {
            policy = old.policy;
            is_lru = old.is_lru;
            uses = old.uses;
            sets = old.sets;
          };
        })
        | inl e ↦ rw e (record {
          policy = m.policy;
          is_fifo = rw m.is_fifo refl;
          models = record {
            policy = old.policy;
            is_lru = old.is_lru;
            uses = old.uses;
            sets = λ k lt.
                set_line-SetModels shaped d.set_index way k old.policy.clock _ _ _ inside refl refl
                  (old.sets k lt);
          };
        })
      ]
