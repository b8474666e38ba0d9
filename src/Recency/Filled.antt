-- ===== src/Recency/Filled.antt =====
-- The entries of a set when a frame is filled.
use cache_hierarchy_simulato.Prelude.{
  ℕ, zero, suc, ◌+◌, ◌<◌, ◌≡◌, refl, ap, ◌∙◌, true, false, ◌&&◌, List, [], ◌∷◌, none, some, ◌==◌,
  if◌then◌else◌, arith, length, inl, inr, Bool-cases, get_or, set,
}
use cache_hierarchy_simulato.Cache.{CacheLine, empty_line}
use cache_hierarchy_simulato.RefFaCache.{find}
use cache_hierarchy_simulato.RefFaCache.Maps.{IsUnique}
use cache_hierarchy_simulato.Recency.{entries}
use cache_hierarchy_simulato.Recency.Entries.{entries-cons, IsUnique-tail, fresh-tail, other-old}

-- The frame `i` is filled with a tag that no frame holds: its old entry goes, and the new one comes.
pub find-entries_fill :
    (x i now : ℕ) (line : CacheLine) (ls : List CacheLine) (ts : List ℕ)
    → length ls ≡ length ts
    → i < length ls
    → IsUnique (entries ls ts)
    → line.valid ≡ true
    → find line.tag (entries ls ts) ≡ none
    → find x (entries (set ls i line) (set ts i now)) ≡ (
        let old = get_or ls i empty_line in
        if x == line.tag
        then some now
        else (if old.valid && x == old.tag then none else find x (entries ls ts)))
unfolding entries
find-entries_fill x i now line [] ts h lt u v fresh = absurd (omega arith)
find-entries_fill x i now line (l ∷ ls) [] h lt u v fresh = absurd (omega arith)
find-entries_fill x zero now line (l ∷ ls) (t ∷ ts) h lt u v fresh =
    let (out, u') = IsUnique-tail l ls t ts u in
    let old = entries-cons x l ls t ts in
    entries-cons x line ls now ts
    ∙ rw (v, old)
        (elim (Bool-cases (l.valid && x == l.tag)) [
          | inl here ↦
              let same : x ≡ l.tag = ground arith in
              let gone : find x (entries ls ts) ≡ none =
                ap (λ k. find k (entries ls ts)) same ∙ out (ground arith) in
              rw (here, gone) refl
          | inr there ↦ rw there refl
        ])
find-entries_fill x (suc i) now line (l ∷ ls) (t ∷ ts) h lt u v fresh =
    let (out, u') = IsUnique-tail l ls t ts u in
    let (other, fresh') = fresh-tail line.tag l ls t ts fresh in
    let old = entries-cons x l ls t ts in
    let rest = find-entries_fill x i now line ls ts (omega arith) (omega arith) u' v fresh' in
    entries-cons x l (set ls i line) t (set ts i now)
    ∙ rw (rest, old)
        (elim (Bool-cases (l.valid && x == l.tag)) [
          | inl here ↦
              let same : x ≡ l.tag = ground arith in
              let not_new : (x == line.tag) ≡ false = ground arith in
              let not_old = other-old x i l ls t ts (omega arith) (omega arith) u here in
              rw (here, not_new, not_old) refl
          | inr there ↦ rw there refl
        ])

pub entries_fill-IsUnique :
    (i now : ℕ) (line : CacheLine) (ls : List CacheLine) (ts : List ℕ)
    → length ls ≡ length ts
    → i < length ls
    → IsUnique (entries ls ts)
    → line.valid ≡ true
    → find line.tag (entries ls ts) ≡ none
    → IsUnique (entries (set ls i line) (set ts i now))
unfolding entries
entries_fill-IsUnique i now line [] ts h lt u v fresh = absurd (omega arith)
entries_fill-IsUnique i now line (l ∷ ls) [] h lt u v fresh = absurd (omega arith)
entries_fill-IsUnique zero now line (l ∷ ls) (t ∷ ts) h lt u v fresh =
    rw v ((fresh-tail line.tag l ls t ts fresh).1, (IsUnique-tail l ls t ts u).1)
entries_fill-IsUnique (suc i) now line (l ∷ ls) (t ∷ ts) h lt u v fresh =
    let (out, u') = IsUnique-tail l ls t ts u in
    let (other, fresh') = fresh-tail line.tag l ls t ts fresh in
    let rest = entries_fill-IsUnique i now line ls ts (omega arith) (omega arith) u' v fresh' in
    elim (Bool-cases l.valid) [
      | inl valid ↦
          let after =
            find-entries_fill l.tag i now line ls ts (omega arith) (omega arith) u' v fresh' in
          rw valid (after ∙ rw (out valid) (ground arith), rest)
      | inr empty ↦ rw empty rest
    ]

pub length-entries_fill :
    (i now : ℕ) (line : CacheLine) (ls : List CacheLine) (ts : List ℕ)
    → length ls ≡ length ts
    → i < length ls
    → line.valid ≡ true
    → length (entries (set ls i line) (set ts i now))
        + (if (get_or ls i empty_line).valid then 1 else 0)
      ≡ suc (length (entries ls ts))
unfolding entries
length-entries_fill i now line [] ts h lt v = absurd (omega arith)
length-entries_fill i now line (l ∷ ls) [] h lt v = absurd (omega arith)
length-entries_fill zero now line (l ∷ ls) (t ∷ ts) h lt v = ground arith
length-entries_fill (suc i) now line (l ∷ ls) (t ∷ ts) h lt v =
    ground (arith, length-entries_fill i now line ls ts (omega arith) (omega arith) v)
