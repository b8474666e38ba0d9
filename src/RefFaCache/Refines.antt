-- ===== src/RefFaCache/Refines.antt =====
-- One call of RefFACache::touch against the stack.
use native.Mathlib.Nat.{mod-eq_of_lt}
use cache_hierarchy_simulato.Prelude.{
  ==_iff, ℕ, suc, ◌+◌, ◌<◌, ◌≡◌, inl, inr, refl, ap, sym, ◌∙◌, true, false, List, ◌∷◌, none, some,
  if◌then◌else◌, leb, arith, length, Bool-cases, Option-cases, is_some, contains,
}
use cache_hierarchy_simulato.Word.{incr, u64_mod}
use cache_hierarchy_simulato.RefFaCache.{Stamps, RefFaCache, find, refresh, erase, evict, touch}
use cache_hierarchy_simulato.RefFaCache.Maps.{
  find-cons, find-erase, erase-IsUnique, length-erase, find-refresh, refresh-IsUnique,
  length-refresh, IsRanked-le, erase-IsRanked,
}
use cache_hierarchy_simulato.RefFaCache.Stack.{
  remove, drop_last, touch_stack, contains-blocks, remove-blocks, length-blocks, Models,
}
use cache_hierarchy_simulato.RefFaCache.Evict.{evict-Models, find-evict}

module _ (b : ℕ) (r : RefFaCache) where
  pub touch-hit :
      (t : ℕ)
      → find b r.last_used ≡ some t
      → touch b r ≡ (
        true,
        record r { last_used = refresh b (incr r.clock) r.last_used; clock = incr r.clock },
      )
  unfolding touch
  touch-hit t h = rw (h, touch) refl

  abbrev pub kept_map : Stamps
  kept_map = if leb r.capacity (length r.last_used) then evict r.last_used else r.last_used

  pub touch-miss :
      find b r.last_used ≡ none
      → touch b r
        ≡ (false, record r { last_used = (b, incr r.clock) ∷ kept_map; clock = incr r.clock })
  unfolding touch
  touch-miss h = rw (h, touch) refl

module _ (b : ℕ) {r : RefFaCache} {l : List ℕ} (m : Models r l) (room : r.clock + 1 < u64_mod) where
  open m use {ranks, stack, unique, unique_ranks, ranked, same, size}

  hit-Models :
      (t : ℕ)
      → find b r.last_used ≡ some t
      → Models
          (record r { last_used = refresh b (incr r.clock) r.last_used; clock = incr r.clock })
          (b ∷ remove b l)
  hit-Models t h =
      let next : incr r.clock ≡ r.clock + 1 = mod-eq_of_lt room in
      let found = sym (same b) ∙ h in
      record {
        ranks = (b, incr r.clock) ∷ erase b ranks;
        stack = rw (stack, remove-blocks b ranks) refl;
        unique = refresh-IsUnique b (incr r.clock) r.last_used unique;
        unique_ranks = (
          find-erase b b ranks unique_ranks ∙ rw ((==_iff b b).1 refl) refl,
          erase-IsUnique b ranks unique_ranks,
        );
        ranked = (
          omega arith,
          erase-IsRanked b (incr r.clock) ranks
              (IsRanked-le (suc r.clock) (incr r.clock) ranks (omega arith) ranked),
        );
        same = λ x.
            find-refresh x b (incr r.clock) r.last_used
            ∙ ground (
              arith,
              find-cons x (b, incr r.clock) (erase b ranks),
              find-erase x b ranks unique_ranks,
              same x,
            );
        size =
            length-refresh b (incr r.clock) r.last_used ∙ size ∙ sym (length-erase b t ranks found);
      }

  insert-Models :
      find b r.last_used ≡ none
      → Models
          (record r { last_used = (b, incr r.clock) ∷ r.last_used; clock = incr r.clock })
          (b ∷ l)
  insert-Models h =
      let next : incr r.clock ≡ r.clock + 1 = mod-eq_of_lt room in
      record {
        ranks = (b, incr r.clock) ∷ ranks;
        stack = ap (λ (t : List ℕ). b ∷ t) stack;
        unique = (h, unique);
        unique_ranks = (sym (same b) ∙ h, unique_ranks);
        ranked = (omega arith, IsRanked-le (suc r.clock) (incr r.clock) ranks (omega arith) ranked);
        same = λ x. ground (
          arith,
          find-cons x (b, incr r.clock) r.last_used,
          find-cons x (b, incr r.clock) ranks,
          same x,
        );
        size = ap suc size;
      }

module _ (b : ℕ) {r : RefFaCache} {l : List ℕ} (m : Models r l) where
  size-stack : length r.last_used ≡ length l
  size-stack = m.size ∙ sym (length-blocks m.ranks) ∙ sym (ap length m.stack)

  contains-stack : contains b l ≡ is_some (find b r.last_used)
  contains-stack = ap (contains b) m.stack ∙ contains-blocks b m.ranks ∙ sym (ap is_some (m.same b))

  miss-Models :
      r.clock + 1 < u64_mod
      → find b r.last_used ≡ none
      → Models
          (record r { last_used = (b, incr r.clock) ∷ kept_map b r; clock = incr r.clock })
          (b ∷ (if leb r.capacity (length l) then drop_last l else l))
  miss-Models room h = elim (Bool-cases (leb r.capacity (length r.last_used))) [
    | inl full ↦
        rw (← size-stack, full)
          (insert-Models b (evict-Models r.capacity r.clock r.last_used l m) room
            (find-evict b r.last_used m.unique h))
    | inr space ↦ rw (← size-stack, space) (insert-Models b m room h)
  ]

  -- A touch of a reference model that holds the entries of a stack, in any order of iteration,
  -- gives the verdict of the stack and leads to the touched stack, if the clock does not wrap.
  pub touch-Models :
      r.clock + 1 < u64_mod
      → let s = touch_stack r.capacity b l in ((touch b r).0 ≡ s.0) × Models (touch b r).1 s.1
  unfolding touch_stack
  touch-Models room = elim (Option-cases (find b r.last_used)) [
    | inr (t, h) ↦
        let inside : contains b l ≡ true = contains-stack ∙ ap is_some h in
        rw (touch-hit b r t h, inside) (refl, hit-Models b m room t h)
    | inl h ↦
        let outside : contains b l ≡ false = contains-stack ∙ ap is_some h in
        rw (touch-miss b r h, outside) (refl, miss-Models room h)
  ]
