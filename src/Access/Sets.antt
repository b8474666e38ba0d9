-- ===== src/Access/Sets.antt =====
-- The lines of a set for each step of Cache::access, and the uniqueness of tags in a set.
use native.Mathlib.Decide.{ℕ_discrete}
use mathlib.Core.Path.{subst}
use cache_hierarchy_simulato.Prelude.{
  ℕ, ◌<◌, ◌≡◌, ◌≢◌, refl, ap, Bool, true, ◌&&◌, List, none, arith, length, inl, inr, Bool-cases,
  if◌then◌else◌, get_or, set, get_or-set_ne, get_or-set_self,
}
use cache_hierarchy_simulato.Config.{is_write_back}
use cache_hierarchy_simulato.Cache.{
  CacheLine, CacheSet, empty_set, Cache, Decoded, decode, lines_of, set_line,
}
use cache_hierarchy_simulato.Cache.Shape.{IsShaped}
use cache_hierarchy_simulato.Access.{find_way, count_access, touch_ref, record_hit, install}
use cache_hierarchy_simulato.Access.Branches.{
  after_hit, after_miss, after_fill, evicts_dirty, frame_of,
}
use cache_hierarchy_simulato.Access.Search.{IsUnique, IsUnique-set_fresh, IsUnique-set_same}
use cache_hierarchy_simulato.Access.Shape.{
  after_miss-SameFrames, count_access-IsShaped, set_index-lt, pick_way-lt, length-lines_of,
  after_miss-IsShaped,
}
use cache_hierarchy_simulato.Access.Transition.{
  Transition, start, parts, missed_cache, looked_up, chosen, hit, around, fill,
}

module _ {Double : Type 0} where
  -- Every set holds a tag at most once.
  abbrev pub HasUniqueTags : Cache Double → Type 0
  HasUniqueTags c = (i : ℕ) → IsUnique 0 (lines_of c i)

  pub lines_of-set_line_self :
      (c : Cache Double) (i way : ℕ) (line : CacheLine)
      → i < length c.sets
      → lines_of (set_line c i way line) i ≡ set (lines_of c i) way line
  unfolding set_line
  lines_of-set_line_self c i way line h =
      ap (λ (s : CacheSet). s.lines) (get_or-set_self c.sets i _ empty_set h)

  pub lines_of-set_line_ne :
      (c : Cache Double) (i k way : ℕ) (line : CacheLine)
      → i ≢ k
      → lines_of (set_line c i way line) k ≡ lines_of c k
  unfolding set_line
  lines_of-set_line_ne c i k way line h =
      ap (λ (s : CacheSet). s.lines) (get_or-set_ne c.sets i k _ empty_set h)

  -- The lines of every set after a hit and after a fill.
  pub lines_of-after_hit :
      (b : Bool) (d : Decoded) (way k : ℕ) (c : Cache Double)
      → lines_of (after_hit b d way c) k ≡ (
          if b && is_write_back c.cfg.write_policy
          then lines_of
              (set_line c d.set_index way (record (frame_of c d.set_index way) { dirty = true }))
              k
          else lines_of c k)
  unfolding after_hit record_hit touch_ref set_line
  lines_of-after_hit b d way k c = elim (Bool-cases (b && is_write_back c.cfg.write_policy)) [
    | inl e ↦ rw e refl
    | inr e ↦ rw e refl
  ]

  abbrev pub filled_line : Bool → Decoded → Cache Double → CacheLine
  filled_line b d c = record {
    valid = true;
    dirty = b && is_write_back c.cfg.write_policy;
    tag = d.tag;
  }

  pub lines_of-after_fill :
      (b : Bool) (d : Decoded) (way k : ℕ) (c : Cache Double)
      → lines_of (after_fill b d way c) k
        ≡ lines_of (set_line c d.set_index way (filled_line b d c)) k
  unfolding after_fill install set_line
  lines_of-after_fill b d way k c = elim (Bool-cases (evicts_dirty c d.set_index way)) [
    | inl e ↦ rw e refl
    | inr e ↦ rw e refl
  ]

  -- No operation changes how addresses are decoded.
  pub decode-after_hit :
      (b : Bool) (d : Decoded) (way a : ℕ) (c : Cache Double)
      → decode (after_hit b d way c) a ≡ decode c a
  unfolding decode after_hit record_hit touch_ref set_line
  decode-after_hit b d way a c = elim (Bool-cases (b && is_write_back c.cfg.write_policy)) [
    | inl e ↦ rw e refl
    | inr e ↦ rw e refl
  ]

  pub decode-after_fill :
      (b : Bool) (d : Decoded) (way a : ℕ) (c : Cache Double)
      → decode (after_fill b d way c) a ≡ decode c a
  unfolding decode after_fill install set_line
  decode-after_fill b d way a c = elim (Bool-cases (evicts_dirty c d.set_index way)) [
    | inl e ↦ rw e refl
    | inr e ↦ rw e refl
  ]

  pub decode-after_miss :
      (d : Decoded) (a : ℕ) (c : Cache Double) → decode (after_miss d c) a ≡ decode c a
  unfolding decode
  decode-after_miss d a c = let same = after_miss-SameFrames d c in ground arith

  module _ {c : Cache Double} (shaped : IsShaped c) (u : HasUniqueTags c) (i way : ℕ)
      (line : CacheLine) (lt : i < c.num_sets) where
    set_line-HasUniqueTags_same :
        line.valid ≡ (frame_of c i way).valid
        → line.tag ≡ (frame_of c i way).tag
        → HasUniqueTags (set_line c i way line)
    set_line-HasUniqueTags_same v t k = elim (ℕ_discrete i k) [
      | yes same ↦
          subst (λ (j : ℕ). IsUnique 0 (lines_of (set_line c i way line) j)) same
            (rw (lines_of-set_line_self c i way line (rw shaped.rows lt))
              (IsUnique-set_same line 0 (lines_of c i) way v t (u i)))
      | no other ↦ rw (lines_of-set_line_ne c i k way line other) (u k)
    ]

    set_line-HasUniqueTags_fresh :
        way < c.cfg.associativity
        → find_way 0 line.tag (lines_of c i) ≡ none
        → line.valid ≡ true
        → HasUniqueTags (set_line c i way line)
    set_line-HasUniqueTags_fresh h e v k = elim (ℕ_discrete i k) [
      | yes same ↦
          subst (λ (j : ℕ). IsUnique 0 (lines_of (set_line c i way line) j)) same
            (rw (lines_of-set_line_self c i way line (rw shaped.rows lt)) (
              IsUnique-set_fresh line 0 (lines_of c i) way (rw (length-lines_of shaped i lt) h) e v
                (u i)))
      | no other ↦ rw (lines_of-set_line_ne c i k way line other) (u k)
    ]

  pub lines_of-after_miss :
      (d : Decoded) (k : ℕ) (c : Cache Double) → lines_of (after_miss d c) k ≡ lines_of c k
  lines_of-after_miss d k c =
      ap (λ (t : List CacheSet). (get_or t k empty_set).lines) (after_miss-SameFrames d c).sets

  module _ (b : Bool) (d : Decoded) (way : ℕ) {c : Cache Double} (shaped : IsShaped c)
      (lt : d.set_index < c.num_sets) where
    after_hit-HasUniqueTags : HasUniqueTags c → HasUniqueTags (after_hit b d way c)
    after_hit-HasUniqueTags u k =
        rw (lines_of-after_hit b d way k c)
          (elim (Bool-cases (b && is_write_back c.cfg.write_policy)) [
            | inl e ↦ rw e (set_line-HasUniqueTags_same shaped u d.set_index way _ lt refl refl k)
            | inr e ↦ rw e (u k)
          ])

    after_fill-HasUniqueTags :
        way < c.cfg.associativity
        → find_way 0 d.tag (lines_of c d.set_index) ≡ none
        → HasUniqueTags c
        → HasUniqueTags (after_fill b d way c)
    after_fill-HasUniqueTags h missed u k = rw (lines_of-after_fill b d way k c) (
        set_line-HasUniqueTags_fresh shaped u d.set_index way (filled_line b d c) lt h missed refl
          k)

  pub after_miss-HasUniqueTags :
      (d : Decoded) (c : Cache Double) → HasUniqueTags c → HasUniqueTags (after_miss d c)
  after_miss-HasUniqueTags d c u k = rw (lines_of-after_miss d k c) (u k)

  module _ (rand : ℕ → ℕ) (addr : ℕ) (b : Bool) {c : Cache Double} (shaped : IsShaped c) where
    -- The cache in which a fill takes place is shaped, and does not hold the block.
    pub missed-IsShaped : IsShaped (missed_cache rand addr b c)
    missed-IsShaped = after_miss-IsShaped _ (count_access-IsShaped b shaped)

    pub missed-lt : (parts rand addr b c).set_index < (missed_cache rand addr b c).num_sets
    unfolding count_access
    missed-lt =
        let same = after_miss-SameFrames (parts rand addr b c) (start rand addr b c) in
        omega (arith, same.num_sets, set_index-lt rand addr b shaped)

    pub chosen-lt :
        (draws : ℕ) → chosen rand addr b c draws < (missed_cache rand addr b c).cfg.associativity
    chosen-lt draws = pick_way-lt missed-IsShaped rand _ draws missed-lt

    pub missed-find_way :
        looked_up rand addr b c ≡ none
        → find_way 0
            (parts rand addr b c).tag
            (lines_of (missed_cache rand addr b c) (parts rand addr b c).set_index)
          ≡ none
    missed-find_way e =
        rw
          (lines_of-after_miss (parts rand addr b c) (parts rand addr b c).set_index
            (start rand addr b c))
          e

    -- An access keeps the tags of every set unique.
    pub Transition-HasUniqueTags :
        {r : Bool} {c' : Cache Double}
        → HasUniqueTags c
        → Transition rand addr b c r c'
        → HasUniqueTags c'
    unfolding count_access
    Transition-HasUniqueTags u (hit way found) =
        after_hit-HasUniqueTags b _ way (count_access-IsShaped b shaped)
          (set_index-lt rand addr b shaped) u
    Transition-HasUniqueTags u (around missed out) = after_miss-HasUniqueTags _ _ u
    Transition-HasUniqueTags u (fill draws missed here) =
        after_fill-HasUniqueTags b _ _ missed-IsShaped missed-lt (chosen-lt draws)
          (missed-find_way missed) (after_miss-HasUniqueTags _ _ u)
