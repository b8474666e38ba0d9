-- ===== src/Access/Resident.antt =====
-- Which blocks are in the cache, and what a hit and a fill change of that.
use native.Mathlib.Decide.{ℕ_discrete}
use cache_hierarchy_simulato.Prelude.{
  is_some, ℕ, List, ◌+◌, ◌<◌, ◌≡◌, refl, Bool, true, false, not, ◌&&◌, ◌||◌, Option, none, some,
  arith, length, inl, inr, Bool-cases, ◌==◌, ==_iff, set,
}
use cache_hierarchy_simulato.Config.{is_write_back}
use cache_hierarchy_simulato.Cache.{CacheLine, Cache, Decoded, decode, lines_of, set_line}
use cache_hierarchy_simulato.Cache.Shape.{IsShaped}
use cache_hierarchy_simulato.Access.{find_way}
use cache_hierarchy_simulato.Access.Branches.{after_hit, after_miss, after_fill, frame_of}
use cache_hierarchy_simulato.Access.Search.{
  IsUnique, find_way-set_fresh, find_way-set_lost, find_way-set_kept, find_way-set_same,
}
use cache_hierarchy_simulato.Access.Shape.{length-lines_of}
use cache_hierarchy_simulato.Access.Sets.{
  HasUniqueTags, lines_of-set_line_self, lines_of-set_line_ne, lines_of-after_hit,
  lines_of-after_miss, lines_of-after_fill, decode-after_hit, decode-after_miss, decode-after_fill,
  filled_line,
}

Option-ℕ-discrete : Discrete (Option ℕ)
Option-ℕ-discrete = hlevel ℕ_discrete

abbrev found_at : ℕ → Option ℕ → Bool
found_at way none = false
found_at way (some w) = w == way

-- The same for one set.
is_some-find_way-set :
    (line : CacheLine) (lines : List CacheLine) (way tag : ℕ)
    → way < length lines
    → IsUnique 0 lines
    → find_way 0 line.tag lines ≡ none
    → line.valid ≡ true
    → is_some (find_way 0 tag (set lines way line)) ≡ (
        line.tag == tag
        || (is_some (find_way 0 tag lines) && not (found_at way (find_way 0 tag lines))))
is_some-find_way-set line lines way tag h u missed v = elim (ℕ_discrete line.tag tag) [
  | yes same ↦
      let fresh = find_way-set_fresh line 0 lines way h missed v in
      rw (← same, fresh) (ground arith)
  | no other ↦ elim (Option-ℕ-discrete (find_way 0 tag lines) (some (0 + way))) [
    | yes here ↦
        rw (find_way-set_lost line 0 tag lines way h here u (ground arith), here) (ground arith)
    | no there ↦ rw (find_way-set_kept line 0 tag lines way there (ground arith)) (ground arith)
  ]
]

-- Residency after a fill of the frame `way` for `d`, of a block with fields `d'` that was found at
-- `old` before.
abbrev pub residency : Decoded → Decoded → Option ℕ → ℕ → Bool
residency d d' old way =
    (d.set_index == d'.set_index && d.tag == d'.tag)
    || (is_some old && not (d'.set_index == d.set_index && found_at way old))

module _ {Double : Type 0} where
  -- The way that holds the block of an address, and whether there is one.
  abbrev pub way_of : Cache Double → ℕ → Option ℕ
  way_of c a = let d = decode c a in find_way 0 d.tag (lines_of c d.set_index)

  unfoldable pub resident : Cache Double → ℕ → Bool
  resident c a = is_some (way_of c a)

  -- Two addresses lie in the same block: the same set and the same tag.
  unfoldable pub same_block : Cache Double → ℕ → ℕ → Bool
  same_block c a a' =
      let d = decode c a in let d' = decode c a' in d.set_index == d'.set_index && d.tag == d'.tag

  -- The frame (i, way) is the one that holds the block of the address.
  unfoldable pub held_at : Cache Double → ℕ → ℕ → ℕ → Bool
  held_at c i way a = (decode c a).set_index == i && found_at way (way_of c a)

  way_of-set_line_same :
      {c : Cache Double}
      → IsShaped c
      → (i way a : ℕ) (line : CacheLine) → i < c.num_sets
      → line.valid ≡ (frame_of c i way).valid
      → line.tag ≡ (frame_of c i way).tag
      → find_way 0 (decode c a).tag (lines_of (set_line c i way line) (decode c a).set_index)
        ≡ way_of c a
  way_of-set_line_same {c} shaped i way a line lt v t = elim (ℕ_discrete i (decode c a).set_index) [
    | yes same ↦
        rw (← same, lines_of-set_line_self c i way line (rw shaped.rows lt))
          (find_way-set_same line 0 (decode c a).tag (lines_of c i) way v t)
    | no other ↦ rw (lines_of-set_line_ne c i (decode c a).set_index way line other) refl
  ]

  -- A hit keeps every block where it is.
  pub way_of-after_hit :
      {c : Cache Double}
      → IsShaped c
      → (b : Bool) (d : Decoded) (way a : ℕ) → d.set_index < c.num_sets
      → way_of (after_hit b d way c) a ≡ way_of c a
  way_of-after_hit {c} shaped b d way a lt =
      rw (decode-after_hit b d way a c, lines_of-after_hit b d way (decode c a).set_index c)
        (elim (Bool-cases (b && is_write_back c.cfg.write_policy)) [
          | inl e ↦ rw e (way_of-set_line_same shaped d.set_index way a _ lt refl refl)
          | inr e ↦ rw e refl
        ])

  pub way_of-after_miss :
      (d : Decoded) (a : ℕ) (c : Cache Double) → way_of (after_miss d c) a ≡ way_of c a
  way_of-after_miss d a c =
      rw (decode-after_miss d a c, lines_of-after_miss d (decode c a).set_index c) refl

  -- The block of the address has this set and tag.
  abbrev pub is_block : Cache Double → Decoded → ℕ → Bool
  is_block c d a = let d' = decode c a in d.set_index == d'.set_index && d.tag == d'.tag

  -- A fill makes the block resident, and drops the one that the frame held.
  pub resident-after_fill :
      {c : Cache Double}
      → IsShaped c
      → HasUniqueTags c
      → (b : Bool) (d : Decoded) (way a : ℕ) → d.set_index < c.num_sets
      → way < c.cfg.associativity
      → find_way 0 d.tag (lines_of c d.set_index) ≡ none
      → resident (after_fill b d way c) a
        ≡ (is_block c d a || (resident c a && not (held_at c d.set_index way a)))
  unfolding resident held_at
  resident-after_fill {c} shaped u b d way a lt h missed =
      let i = d.set_index in
      let new = filled_line b d c in
      let wide : way < length (lines_of c i) = rw (length-lines_of shaped i lt) h in
      rw (decode-after_fill b d way a c, lines_of-after_fill b d way (decode c a).set_index c)
        (elim (ℕ_discrete i (decode c a).set_index) [
          | yes same ↦
              let law =
                is_some-find_way-set new (lines_of c i) way (decode c a).tag wide (u i) missed
                  refl in
              rw (← same, lines_of-set_line_self c i way new (rw shaped.rows lt))
                (rw ((==_iff i i).1 refl) law)
          | no other ↦
              rw (lines_of-set_line_ne c i (decode c a).set_index way new other) (ground arith)
        ])
