-- ===== src/Insertion/Access.antt =====
-- Cache::access of src/cache.cpp under FIFO against the rows of the sets.
use mathlib.Core.Path.{subst}
use cache_hierarchy_simulato.Prelude.{
  ℕ, suc, ◌+◌, ◌<◌, ◌≡◌, refl, ap, sym, ◌∙◌, Bool, true, false, none, some, arith, contains,
}
use cache_hierarchy_simulato.Word.{u64_mod}
use cache_hierarchy_simulato.Config.{CacheConfig}
use cache_hierarchy_simulato.Memory.{World, MemoryLevel}
use cache_hierarchy_simulato.Cache.{Cache, Decoded, decode, lines_of}
use cache_hierarchy_simulato.Cache.Shape.{IsShaped}
use cache_hierarchy_simulato.Access.{find_way, count_access, pick_way, access}
use cache_hierarchy_simulato.Access.Branches.{after_fill, frame_of, goes_around}
use cache_hierarchy_simulato.Access.Sets.{missed-IsShaped, missed-lt, missed-find_way}
use cache_hierarchy_simulato.Access.Shape.{
  after_miss-SameFrames, count_access-IsShaped, set_index-lt,
}
use cache_hierarchy_simulato.Access.Transition.{
  Transition, start, parts, missed_cache, chosen, hit, around, fill, access-Transition,
}
use cache_hierarchy_simulato.Recency.{Stacks, update}
use cache_hierarchy_simulato.Recency.Fill.{missed-stack, hit-SetModels}
use cache_hierarchy_simulato.Recency.Access.{fill-LruModels}
use cache_hierarchy_simulato.Recency.Uses.{LruModels}
use cache_hierarchy_simulato.Insertion.{enter, access_rows}
use cache_hierarchy_simulato.Insertion.Twin.{
  touch_stack-verdict, touch_stack-enter, twin, FifoModels, twin-IsShaped, pick_way-twin, inserted,
  after_fill-twin, FifoModels-later, SameFrames-FifoModels, after_hit-FifoModels,
}

module _ {Double : Type 0} where
  -- A fill of the chosen frame lets the tag enter its row.
  fill-FifoModels :
      (rand : ℕ → ℕ) (draws : ℕ) (b : Bool) (d : Decoded) {n : ℕ} {c : Cache Double} {st : Stacks}
      → FifoModels n c st
      → IsShaped c
      → n + 1 < u64_mod
      → d.set_index < c.num_sets
      → find_way 0 d.tag (lines_of c d.set_index) ≡ none
      → contains d.tag (st d.set_index) ≡ false
      → FifoModels
          (suc n)
          (after_fill b d (pick_way rand c d.set_index draws).0 c)
          (update st d.set_index (enter c.cfg.associativity d.tag (st d.set_index)))
  fill-FifoModels rand draws b d {n} {c} {st} m shaped room lt missed out =
      let i = d.set_index in
      let p = m.policy in
      let (_, filled) =
        fill-LruModels rand draws b d m.models (twin-IsShaped c p m.is_fifo shaped) room lt
          missed in
      let way = (pick_way rand c i draws).0 in
      let rows = update st i (enter c.cfg.associativity d.tag (st i)) in
      let (policy, same) = after_fill-twin c p m.is_fifo b d way in
      record {
        policy = inserted p i way;
        is_fifo = policy;
        models =
            subst (λ (c' : Cache Double). LruModels (suc n) c' rows) same
              (subst (λ (v : ℕ). LruModels (suc n) (after_fill b d v (twin p c)) rows)
                (ap (λ (q : ℕ × ℕ). q.0) (pick_way-twin c p m.is_fifo rand i draws))
                (subst
                  (λ l.
                    LruModels (suc n)
                      (after_fill b d (pick_way rand (twin p c) i draws).0 (twin p c))
                      (update st i l))
                  (touch_stack-enter c.cfg.associativity d.tag (st i) out) filled));
      }

  module _ (rand : ℕ → ℕ) (addr : ℕ) (b : Bool) {n : ℕ} {c : Cache Double} {st : Stacks}
      (m : FifoModels n c st) (shaped : IsShaped c) (room : n + 1 < u64_mod) where
    abbrev specified : Bool × Stacks
    specified =
        let d = decode c addr in
        access_rows c.cfg.associativity (goes_around b c) d.set_index d.tag st

    started : FifoModels n (start rand addr b c) st
    unfolding count_access
    started =
        let old = m.models in
        record {
          policy = m.policy;
          is_fifo = m.is_fifo;
          models = record {
            policy = old.policy;
            is_lru = old.is_lru;
            uses = old.uses;
            sets = old.sets;
          };
        }

    found-row :
        (way : ℕ)
        → find_way 0 (parts rand addr b c).tag (lines_of c (parts rand addr b c).set_index)
          ≡ some way
        → contains (parts rand addr b c).tag (st (parts rand addr b c).set_index) ≡ true
    found-row way found =
        let d = parts rand addr b c in
        sym (touch_stack-verdict c.cfg.associativity d.tag (st d.set_index))
        ∙ (hit-SetModels (m.models.sets d.set_index (set_index-lt rand addr b shaped))
            (omega (arith, m.models.uses)) d.tag way (frame_of c d.set_index way) found refl refl).0

    missed-row :
        find_way 0 (parts rand addr b c).tag (lines_of c (parts rand addr b c).set_index) ≡ none
        → contains (parts rand addr b c).tag (st (parts rand addr b c).set_index) ≡ false
    missed-row missed =
        let d = parts rand addr b c in
        sym (touch_stack-verdict c.cfg.associativity d.tag (st d.set_index))
        ∙ missed-stack (m.models.sets d.set_index (set_index-lt rand addr b shaped))
            (omega (arith, m.models.uses)) d.tag missed

    Transition-FifoModels :
        {r : Bool} {c' : Cache Double}
        → Transition rand addr b c r c'
        → (r ≡ specified.0) × FifoModels (suc n) c' specified.1
    unfolding access_rows count_access decode
    Transition-FifoModels (hit way found) =
        let after =
          after_hit-FifoModels b (parts rand addr b c) way (count_access-IsShaped b shaped)
            (set_index-lt rand addr b shaped) started in
        rw (found-row way found) (refl, FifoModels-later after)
    Transition-FifoModels (around missed out) =
        let after =
          SameFrames-FifoModels started
            (after_miss-SameFrames (parts rand addr b c) (start rand addr b c)) in
        rw (missed-row missed, out) (refl, FifoModels-later after)
    Transition-FifoModels (fill draws missed here) =
        let d = parts rand addr b c in
        let same = after_miss-SameFrames d (start rand addr b c) in
        let after =
          fill-FifoModels rand draws b d (SameFrames-FifoModels started same)
            (missed-IsShaped rand addr b shaped) room (missed-lt rand addr b shaped)
            (missed-find_way rand addr b shaped missed) (missed-row missed) in
        let after' =
          subst
            (λ (k : ℕ).
              FifoModels (suc n)
                (after_fill b d (chosen rand addr b c draws) (missed_cache rand addr b c))
                (update st d.set_index (enter k d.tag (st d.set_index))))
            (ap (λ (g : CacheConfig Double). g.associativity) same.cfg) after in
        rw (missed-row missed, here) (refl, after')

    -- An access of a FIFO cache of a valid shape that filled its frames fewer than 2^64 - 1 times
    -- answers as the rows of its sets do, and leads to their state.
    pub access-FifoModels :
        {S : Type 0} (next : MemoryLevel S) (w : World S)
        → let r = access rand next addr b c w in
          (r.0 ≡ specified.0) × FifoModels (suc n) r.1 specified.1
    access-FifoModels next w = Transition-FifoModels (access-Transition rand addr b c next w)
