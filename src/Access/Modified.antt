-- ===== src/Access/Modified.antt =====
-- The frames that hold a modified block, after the steps of an access.
use native.Mathlib.Decide.{ℕ_discrete}
use mathlib.Core.Path.{subst, ap₂}
use cache_hierarchy_simulato.Prelude.{
  ℕ, ◌<◌, ◌≡◌, ◌⊎◌, ap, sym, ◌∙◌, Bool, true, ◌&&◌, arith, length, inl, inr, Bool-cases, All-get_or,
  get_or, set, get_or-set_ne, get_or-set_self,
}
use cache_hierarchy_simulato.Config.{is_write_back}
use cache_hierarchy_simulato.Cache.{
  CacheLine, empty_line, empty_set, Cache, Decoded, victim_addr, lines_of, set_line,
}
use cache_hierarchy_simulato.Access.Branches.{
  store, evict_requests, evicts_dirty, frame_of, after_hit, after_fill,
}
use cache_hierarchy_simulato.Access.Dirty.{HasCleanFrames, IsClean, AllClean, writes_back}
use cache_hierarchy_simulato.Access.Sets.{
  lines_of-set_line_self, lines_of-set_line_ne, lines_of-after_hit, lines_of-after_fill,
  filled_line,
}
use cache_hierarchy_simulato.Access.Log.{IsSent}

module _ {Double : Type 0} where
  -- Frame `j` of set `i` holds a modified block with the tag.
  pub record IsModified (c : Cache Double) (i j tag : ℕ) : Type 0 where
    pub valid : (frame_of c i j).valid ≡ true
    pub dirty : (frame_of c i j).dirty ≡ true
    pub tagged : (frame_of c i j).tag ≡ tag

  pub IsModified-same :
      {c c' : Cache Double} {i j tag : ℕ}
      → frame_of c' i j ≡ frame_of c i j
      → IsModified c i j tag
      → IsModified c' i j tag
  IsModified-same same m = record {
    valid = ap (λ (l : CacheLine). l.valid) same ∙ m.valid;
    dirty = ap (λ (l : CacheLine). l.dirty) same ∙ m.dirty;
    tagged = ap (λ (l : CacheLine). l.tag) same ∙ m.tagged;
  }

  IsModified-moved :
      {c : Cache Double} {i i' j j' tag : ℕ}
      → i' ≡ i
      → j' ≡ j
      → IsModified c i j tag
      → IsModified c i' j' tag
  IsModified-moved {c} {i} {i'} {j} {j'} {tag} set place m =
      subst (λ x. IsModified c x j' tag) (sym set) (subst (λ y. IsModified c i y tag) (sym place) m)

  -- A write of a frame changes no other.
  pub frame_of-set_line :
      (c : Cache Double) (i way k j : ℕ) (line : CacheLine)
      → i < length c.sets
      → way < length (lines_of c i)
      → (frame_of (set_line c i way line) k j ≡ frame_of c k j)
        ⊎ ((i ≡ k) × (way ≡ j) × (frame_of (set_line c i way line) k j ≡ line))
  frame_of-set_line c i way k j line lt inside = elim (ℕ_discrete i k) [
    | no other ↦ inl (ap (λ l. get_or l j empty_line) (lines_of-set_line_ne c i k way line other))
    | yes same ↦
        let lines =
          ap (λ x. lines_of (set_line c i way line) x) (sym same)
          ∙ lines_of-set_line_self c i way line lt in
        elim (ℕ_discrete way j) [
          | no other ↦ inl (
              ap (λ l. get_or l j empty_line) lines
              ∙ get_or-set_ne (lines_of c i) way j line empty_line other
              ∙ ap (λ x. frame_of c x j) same)
          | yes here ↦ inr (
            same,
            here,
            ap (λ l. get_or l j empty_line) lines
                ∙ ap (λ x. get_or (set (lines_of c i) way line) x empty_line) (sym here)
                ∙ get_or-set_self (lines_of c i) way line empty_line inside,
          )
        ]
  ]

  pub after_hit-IsModified :
      (b : Bool) (d : Decoded) (way : ℕ) (c : Cache Double) {i j tag : ℕ}
      → d.set_index < length c.sets
      → way < length (lines_of c d.set_index)
      → IsModified c i j tag
      → IsModified (after_hit b d way c) i j tag
  after_hit-IsModified b d way c {i} {j} {tag} lt inside m =
      let lines = lines_of-after_hit b d way i c in
      let line = record (frame_of c d.set_index way) { dirty = true } in
      elim (Bool-cases (b && is_write_back c.cfg.write_policy)) [
        | inr e ↦ IsModified-same (ap (λ l. get_or l j empty_line) (rw e at lines)) m
        | inl e ↦
            let frame = ap (λ l. get_or l j empty_line) (rw e at lines) in
            elim (frame_of-set_line c d.set_index way i j line lt inside) [
              | inl same ↦ IsModified-same (frame ∙ same) m
              | inr (set, place, here) ↦
                  let m' = IsModified-moved set place m in
                  let now = frame ∙ here in
                  record {
                    valid = ap (λ (l : CacheLine). l.valid) now ∙ m'.valid;
                    dirty = ap (λ (l : CacheLine). l.dirty) now;
                    tagged = ap (λ (l : CacheLine). l.tag) now ∙ m'.tagged;
                  }
            ]
      ]

  module _ (b : Bool) (d : Decoded) (way : ℕ) (c : Cache Double) {i j tag : ℕ}
      (lt : d.set_index < length c.sets) (inside : way < length (lines_of c d.set_index))
      (clean : HasCleanFrames c) where
    -- A fill keeps the modified block, or writes it back.
    pub after_fill-IsModified :
        IsModified c i j tag
        → IsModified (after_fill b d way c) i j tag
          ⊎ IsSent (store (victim_addr c tag i)) (evict_requests d way c)
    after_fill-IsModified m =
        let frame = ap (λ l. get_or l j empty_line) (lines_of-after_fill b d way i c) in
        elim (frame_of-set_line c d.set_index way i j (filled_line b d c) lt inside) [
          | inl same ↦ inl (IsModified-same (frame ∙ same) m)
          | inr (set, place, here) ↦
              let m' : IsModified c d.set_index way tag = IsModified-moved set place m in
              let lines =
                All-get_or (AllClean (writes_back c)) c.sets d.set_index empty_set clean lt in
              let line =
                All-get_or (IsClean (writes_back c)) (lines_of c d.set_index) way empty_line lines
                  inside in
              let evicts : evicts_dirty c d.set_index way ≡ true =
                ground (arith, m'.valid, m'.dirty, line.clean_through) in
              inr
                (rw evicts (inl (ap₂ (λ t x. store (victim_addr c t x)) (sym m'.tagged) (sym set))))
        ]
