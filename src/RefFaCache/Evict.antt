-- ===== src/RefFaCache/Evict.antt =====
-- RefFACache::touch of src/cache.cpp when the model is full: the entry that it takes out.
use mathlib.Core.Option.{none-ne-some}
use mathlib.Core.Path.{subst, ap₂}
use cache_hierarchy_simulato.Prelude.{
  ℕ, suc, ◌≤◌, ◌≡◌, inl, inr, refl, ap, sym, ◌∙◌, List, [], ◌∷◌, Option, none, some, ◌==◌,
  if◌then◌else◌, arith, length,
}
use cache_hierarchy_simulato.RefFaCache.{Stamps, find, erase, oldest_from, evict}
use cache_hierarchy_simulato.RefFaCache.Maps.{
  IsUnique, IsRanked, find-erase, erase-IsUnique, length-erase, erase-IsRanked,
}
use cache_hierarchy_simulato.RefFaCache.Victim.{
  last_entry, last_entry-IsEntry, last_entry_oldest, victim-last_entry,
}
use cache_hierarchy_simulato.RefFaCache.Stack.{drop_last, blocks, drop_last-blocks, Models}

module _ (capacity clock : ℕ) where
  evict-stack :
      (entries ranks : Stamps)
      → IsUnique entries
      → IsUnique ranks
      → IsRanked (suc clock) ranks
      → ((x : ℕ) → find x entries ≡ find x ranks)
      → length entries ≡ length ranks
      → Models
          (record { last_used = evict entries; capacity = capacity; clock = clock })
          (drop_last (blocks ranks))
  unfolding evict drop_last
  evict-stack [] [] u u' r same size = record {
    ranks = [];
    stack = refl;
    unique = tt;
    unique_ranks = tt;
    ranked = tt;
    same = λ x. refl;
    size = refl;
  }
  evict-stack [] (d ∷ ranks) u u' r same size = absurd (omega arith)
  evict-stack (e ∷ entries) [] u u' r same size = absurd (omega arith)
  evict-stack (e ∷ entries) (d ∷ ranks) u u' r same size =
      let v = oldest_from e entries in
      let l = last_entry d ranks in
      let victim = victim-last_entry e d entries ranks (suc clock) u u' r same in
      let entry = last_entry-IsEntry d ranks u' in
      let old : find v.0 (e ∷ entries) ≡ some l.1 =
        same v.0 ∙ ap (λ k. find k (d ∷ ranks)) victim ∙ entry in
      record {
        ranks = erase l.0 (d ∷ ranks);
        stack = drop_last-blocks d ranks u';
        unique = erase-IsUnique v.0 (e ∷ entries) u;
        unique_ranks = erase-IsUnique l.0 (d ∷ ranks) u';
        ranked = erase-IsRanked l.0 (suc clock) (d ∷ ranks) r;
        same = λ x.
            find-erase x v.0 (e ∷ entries) u
            ∙ ap₂ (λ k (o : Option ℕ). if x == k then none else o) victim (same x)
            ∙ sym (find-erase x l.0 (d ∷ ranks) u');
        size = omega (
          arith,
          size,
          length-erase v.0 l.1 (e ∷ entries) old,
          length-erase l.0 l.1 (d ∷ ranks) entry,
        );
      }

  -- The eviction of the model drops the bottom of the stack, and no block comes in.
  pub evict-Models :
      (entries : Stamps) (l : List ℕ)
      → Models (record { last_used = entries; capacity = capacity; clock = clock }) l
      → Models
          (record { last_used = evict entries; capacity = capacity; clock = clock })
          (drop_last l)
  evict-Models entries l m =
      subst
        (λ s.
          Models (record { last_used = evict entries; capacity = capacity; clock = clock })
            (drop_last s))
        (sym m.stack) (evict-stack entries m.ranks m.unique m.unique_ranks m.ranked m.same m.size)

-- The eviction takes out the entry with the smallest stamp.
pub find-evict_least :
    (key t top : ℕ) (m ranks : Stamps)
    → IsUnique m
    → IsUnique ranks
    → IsRanked top ranks
    → ((x : ℕ) → find x m ≡ find x ranks)
    → find key m ≡ some t
    → ((x s : ℕ) → find x m ≡ some s → t ≤ s)
    → ((x : ℕ) → find x (evict m) ≡ (if x == key then none else find x m))
      × (suc (length (evict m)) ≡ length m)
unfolding evict find
find-evict_least key t top [] ranks u u' r same h least = absurd (none-ne-some t h)
find-evict_least key t top (e ∷ m) [] u u' r same h least =
    absurd (none-ne-some t (sym (same key) ∙ h))
find-evict_least key t top (e ∷ m) (d ∷ ranks) u u' r same h least =
    let v = oldest_from e m in
    let l = last_entry d ranks in
    let entry = last_entry-IsEntry d ranks u' in
    let le : t ≤ l.1 = least l.0 l.1 (same l.0 ∙ entry) in
    let victim : v.0 ≡ key =
      victim-last_entry e d m ranks top u u' r same
      ∙ elim (last_entry_oldest d ranks top key t r (sym (same key) ∙ h)) [
        | inl block ↦ sym block
        | inr newer ↦ absurd (omega arith)
      ] in
    (
      λ x. find-erase x v.0 (e ∷ m) u ∙ ap (λ k. if x == k then none else find x (e ∷ m)) victim,
      length-erase v.0 t (e ∷ m) (ap (λ k. find k (e ∷ m)) victim ∙ h),
    )

pub find-evict : (b : ℕ) (m : Stamps) → IsUnique m → find b m ≡ none → find b (evict m) ≡ none
unfolding evict
find-evict b [] u h = h
find-evict b (e ∷ m) u h =
    find-erase b (oldest_from e m).0 (e ∷ m) u
    ∙ ap (λ (o : Option ℕ). if b == (oldest_from e m).0 then none else o) h
    ∙ ground arith
