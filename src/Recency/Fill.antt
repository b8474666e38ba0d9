-- ===== src/Recency/Fill.antt =====
-- One access of an LRU set against its stack: the steps of a hit, of a fill of an empty frame and
-- of the eviction of the least recently used tag.
use mathlib.Core.Path.{subst}
use native.Mathlib.Nat.{mod-eq_of_lt}
use cache_hierarchy_simulato.Prelude.{
  ℕ, suc, ◌+◌, ◌-◌, ◌≤◌, ◌<◌, ◌≡◌, refl, ap, sym, ◌∙◌, true, false, ◌&&◌, List, none, some, ◌==◌,
  if◌then◌else◌, leb, arith, length, inl, inr, Option-cases, is_some, get_or, set, All, All-set,
  length-set,
}
use cache_hierarchy_simulato.Word.{incr, u64_mod}
use cache_hierarchy_simulato.Cache.{CacheLine, empty_line}
use cache_hierarchy_simulato.Replacement.{oldest}
use cache_hierarchy_simulato.Replacement.Victim.{oldest-IsFirstLeast}
use cache_hierarchy_simulato.RefFaCache.{RefFaCache, find, touch}
use cache_hierarchy_simulato.RefFaCache.Maps.{find-cons}
use cache_hierarchy_simulato.RefFaCache.Refines.{kept_map, touch-hit, touch-miss, touch-Models}
use cache_hierarchy_simulato.RefFaCache.Evict.{find-evict_least}
use cache_hierarchy_simulato.RefFaCache.Stack.{touch_stack, Models}
use cache_hierarchy_simulato.Access.{find_way, find_empty}
use cache_hierarchy_simulato.Recency.{entries}
use cache_hierarchy_simulato.Recency.Filled.{
  find-entries_fill, entries_fill-IsUnique, length-entries_fill,
}
use cache_hierarchy_simulato.Recency.Entries.{find-entries, entries-hit, find-entries_at}
use cache_hierarchy_simulato.Recency.Rows.{
  view, SetModels, Models-same, All-le, All-lt, entries-ge, full-valid, full-length,
  find_empty-free, free-room,
}

module _ {ways clock : ℕ} {ls : List CacheLine} {ts l : List ℕ} (m : SetModels ways clock ls ts l)
    (room : clock + 1 < u64_mod) where
  abbrev pub now : ℕ
  now = incr clock

  now-eq : now ≡ clock + 1
  now-eq = mod-eq_of_lt room

  rows : length ls ≡ length ts
  rows = m.frames ∙ sym m.stamps

  -- The row after a use of a frame.
  past-after : (i : ℕ) → All (λ t. t ≤ now) (set ts i now)
  past-after i =
      All-set _ ts i now (All-le clock now ts (omega (arith, now-eq)) m.past) (omega arith)

  module _ (tag : ℕ) where
    step :
        ((touch tag (view ways clock ls ts)).0 ≡ (touch_stack ways tag l).0)
        × Models (touch tag (view ways clock ls ts)).1 (touch_stack ways tag l).1
    step = touch-Models tag m.models room

    -- The use of the frame that holds the tag is a hit of the stack.
    pub hit-SetModels :
        (i : ℕ) (line : CacheLine)
        → find_way 0 tag ls ≡ some i
        → line.valid ≡ (get_or ls i empty_line).valid
        → line.tag ≡ (get_or ls i empty_line).tag
        → ((touch_stack ways tag l).0 ≡ true)
          × SetModels ways now (set ls i line) (set ts i now) (touch_stack ways tag l).1
    hit-SetModels i line found v t = elim (Option-cases (find tag (entries ls ts))) [
      | inl out ↦
          let held = find-entries 0 tag ls ts rows in
          let lost : false ≡ true = sym (ap is_some out) ∙ held ∙ ap is_some found in absurd (cc)
      | inr (s, entry) ↦
          let after = touch-hit tag (view ways clock ls ts) s entry in
          (
            sym step.0 ∙ ap (λ r. r.0) after,
            record {
              frames = length-set ls i line ∙ m.frames;
              stamps = length-set ts i now ∙ m.stamps;
              past = past-after i;
              models =
                  subst
                    (λ e.
                      Models (record { last_used = e; capacity = ways; clock = now })
                        (touch_stack ways tag l).1)
                    (sym
                      (entries-hit 0 tag i now line ls ts rows (found ∙ ap some (omega arith)) v t))
                    (subst (λ (r : RefFaCache). Models r (touch_stack ways tag l).1)
                      (ap (λ r. r.1) after) step.1);
            },
          )
    ]

    missed-entry : find_way 0 tag ls ≡ none → find tag (entries ls ts) ≡ none
    missed-entry missed = elim (Option-cases (find tag (entries ls ts))) [
      | inl out ↦ out
      | inr (s, entry) ↦
          let lost : true ≡ false =
            sym (ap is_some entry) ∙ find-entries 0 tag ls ts rows ∙ ap is_some missed in
          absurd (cc)
    ]

    -- A tag that no frame holds is not in the stack.
    pub missed-stack : find_way 0 tag ls ≡ none → (touch_stack ways tag l).0 ≡ false
    missed-stack missed =
        sym step.0 ∙ ap (λ r. r.0) (touch-miss tag (view ways clock ls ts) (missed-entry missed))

    -- The fill of a frame for a tag that no frame holds, where the entries after it are the new
    -- one and the ones that the reference model keeps, is a miss of the stack.
    fill-SetModels :
        (i : ℕ) (line : CacheLine)
        → find_way 0 tag ls ≡ none
        → i < length ls
        → line.valid ≡ true
        → line.tag ≡ tag
        → ((x : ℕ)
            → find x (kept_map tag (view ways clock ls ts)) ≡ (
                if (get_or ls i empty_line).valid && x == (get_or ls i empty_line).tag
                then none
                else find x (entries ls ts)))
        → length (kept_map tag (view ways clock ls ts))
            + (if (get_or ls i empty_line).valid then 1 else 0)
          ≡ length (entries ls ts)
        → ((touch_stack ways tag l).0 ≡ false)
          × SetModels ways now (set ls i line) (set ts i now) (touch_stack ways tag l).1
    fill-SetModels i line missed inside v t kept size =
        let out : find tag (entries ls ts) ≡ none = missed-entry missed in
        let out' : find line.tag (entries ls ts) ≡ none =
          ap (λ k. find k (entries ls ts)) t ∙ out in
        let after = touch-miss tag (view ways clock ls ts) out in
        (
          sym step.0 ∙ ap (λ r. r.0) after,
          record {
            frames = length-set ls i line ∙ m.frames;
            stamps = length-set ts i now ∙ m.stamps;
            past = past-after i;
            models =
                Models-same
                  (subst (λ (r : RefFaCache). Models r (touch_stack ways tag l).1)
                    (ap (λ r. r.1) after) step.1)
                  (λ x.
                    find-entries_fill x i now line ls ts rows inside m.models.unique v out'
                    ∙ rw (find-cons, kept x, t) refl)
                  (entries_fill-IsUnique i now line ls ts rows inside m.models.unique v out')
                  (omega (arith, size, length-entries_fill i now line ls ts rows inside v));
          },
        )

    -- The fill of an empty frame, and of the frame with the smallest stamp where none is empty.
    pub free-SetModels :
        (i : ℕ) (line : CacheLine)
        → find_way 0 tag ls ≡ none
        → find_empty 0 ls ≡ some i
        → line.valid ≡ true
        → line.tag ≡ tag
        → ((touch_stack ways tag l).0 ≡ false)
          × SetModels ways now (set ls i line) (set ts i now) (touch_stack ways tag l).1
    free-SetModels i line missed free v t =
        let (j, at, inside, empty) = find_empty-free 0 i ls free in
        let at' : i ≡ j = omega arith in
        let empty' : (get_or ls i empty_line).valid ≡ false = rw at' empty in
        let inside' : i < length ls = omega arith in
        let room : leb ways (length (entries ls ts)) ≡ false =
          ground (arith, free-room i ls ts inside' empty', m.frames) in
        fill-SetModels i line missed inside' v t (λ x. rw (room, empty') refl)
          (rw (room, empty') (omega arith))

    pub full-SetModels :
        (line : CacheLine)
        → find_way 0 tag ls ≡ none
        → find_empty 0 ls ≡ none
        → 0 < ways
        → line.valid ≡ true
        → line.tag ≡ tag
        → ((touch_stack ways tag l).0 ≡ false)
          × SetModels ways now
              (set ls (oldest ts) line)
              (set ts (oldest ts) now)
              (touch_stack ways tag l).1
    full-SetModels line missed full some_way v t =
        let i = oldest ts in
        let f =
          oldest-IsFirstLeast ts (omega (arith, m.stamps))
            (All-lt clock (u64_mod - 1) ts (omega arith) m.past) in
        let inside : i < length ls = omega (arith, f.inside, rows) in
        let valid = full-valid 0 ls i full inside in
        let crowd : leb ways (length (entries ls ts)) ≡ true =
          ground (arith, full-length 0 ls ts full rows, m.frames) in
        let entry = find-entries_at i ls ts rows inside m.models.unique valid in
        let (kept, size) =
          find-evict_least (get_or ls i empty_line).tag (get_or ts i 0) (suc clock) (entries ls ts)
            m.models.ranks m.models.unique m.models.unique_ranks m.models.ranked m.models.same entry
            (λ x s e. entries-ge (get_or ts i 0) x s ls ts f.least e) in
        fill-SetModels i line missed inside v t (λ x. rw (crowd, valid) (kept x))
          (rw (crowd, valid) (omega (arith, size)))
