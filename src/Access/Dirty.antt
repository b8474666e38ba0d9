-- ===== src/Access/Dirty.antt =====
-- The dirty bits of the frames for each step of Cache::access.
use mathlib.Core.Path.{subst₂}
use cache_hierarchy_simulato.Prelude.{
  ℕ, ◌<◌, ◌≡◌, sym, Bool, true, false, not, ◌&&◌, arith, length, inl, inr, Bool-cases, All, All-set,
  All-get_or, get_or, List, some,
}
use cache_hierarchy_simulato.Config.{CacheConfig, is_write_back}
use cache_hierarchy_simulato.Cache.{
  CacheLine, CacheSet, empty_set, empty_line, Cache, Decoded, lines_of, set_line,
}
use cache_hierarchy_simulato.Cache.Shape.{IsShaped}
use cache_hierarchy_simulato.Access.{find_way, count_access, record_hit, touch_ref, install}
use cache_hierarchy_simulato.Access.Branches.{
  after_hit, after_miss, after_fill, frame_of, evicts_dirty,
}
use cache_hierarchy_simulato.Access.Search.{find_way-holds}
use cache_hierarchy_simulato.Access.Shape.{after_miss-SameFrames, set_index-lt}
use cache_hierarchy_simulato.Access.Sets.{filled_line, missed-IsShaped, missed-lt}
use cache_hierarchy_simulato.Access.Transition.{Transition, missed_cache, hit, around, fill}

pub record IsClean (write_back : Bool) (l : CacheLine) : Type 0 where
  pub valid_if_dirty : (l.dirty && not l.valid) ≡ false
  pub clean_through : (l.dirty && not write_back) ≡ false

abbrev pub AllClean : Bool → CacheSet → Type 0
AllClean wb s = All (IsClean wb) s.lines

found-valid :
    (tag way : ℕ) (lines : List CacheLine)
    → find_way 0 tag lines ≡ some way
    → (get_or lines way empty_line).valid ≡ true
found-valid tag way lines found =
    let (j, at, inside, match) = find_way-holds 0 tag lines way found in
    let same : way ≡ j = omega arith in rw same (ground arith)

module _ {Double : Type 0} where
  abbrev pub writes_back : Cache Double → Bool
  writes_back c = is_write_back c.cfg.write_policy

  abbrev pub HasCleanFrames : Cache Double → Type 0
  HasCleanFrames c = All (AllClean (writes_back c)) c.sets

  set_line-AllClean :
      (c : Cache Double) (wb : Bool) (i way : ℕ) (line : CacheLine)
      → i < length c.sets
      → All (AllClean wb) c.sets
      → IsClean wb line
      → All (AllClean wb) (set_line c i way line).sets
  unfolding set_line
  set_line-AllClean c wb i way line lt h p = All-set (AllClean wb) c.sets i _ h (
      All-set (IsClean wb) (lines_of c i) way line
        (All-get_or (AllClean wb) c.sets i empty_set h lt) p)

  after_hit-HasCleanFrames :
      (b : Bool) (d : Decoded) (way : ℕ) (c : Cache Double)
      → d.set_index < length c.sets
      → (frame_of c d.set_index way).valid ≡ true
      → HasCleanFrames c
      → HasCleanFrames (after_hit b d way c)
  unfolding after_hit record_hit touch_ref set_line
  after_hit-HasCleanFrames b d way c lt v h = elim (Bool-cases (b && writes_back c)) [
    | inl e ↦ rw e (
        set_line-AllClean c (writes_back c) d.set_index way
          (record (frame_of c d.set_index way) { dirty = true }) lt h
          (record { valid_if_dirty = ground arith; clean_through = ground arith }))
    | inr e ↦ rw e h
  ]

  pub after_miss-HasCleanFrames :
      (d : Decoded) (c : Cache Double) → HasCleanFrames c → HasCleanFrames (after_miss d c)
  after_miss-HasCleanFrames d c h =
      let same = after_miss-SameFrames d c in
      subst₂
        (λ (g : CacheConfig Double) (t : List CacheSet).
          All (AllClean (is_write_back g.write_policy)) t)
        (sym same.cfg) (sym same.sets) h

  after_fill-HasCleanFrames :
      (b : Bool) (d : Decoded) (way : ℕ) (c : Cache Double)
      → d.set_index < length c.sets
      → HasCleanFrames c
      → HasCleanFrames (after_fill b d way c)
  unfolding after_fill install set_line
  after_fill-HasCleanFrames b d way c lt h =
      let clean : IsClean (writes_back c) (filled_line b d c) = record {
        valid_if_dirty = ground arith;
        clean_through = ground arith;
      } in
      let done =
        set_line-AllClean c (writes_back c) d.set_index way (filled_line b d c) lt h clean in
      elim (Bool-cases (evicts_dirty c d.set_index way)) [ inl e ↦ rw e done | inr e ↦ rw e done ]

  module _ (rand : ℕ → ℕ) (addr : ℕ) (b : Bool) {c : Cache Double} (shaped : IsShaped c) where
    -- After an access a dirty frame is valid, and under write-through none is dirty.
    pub Transition-HasCleanFrames :
        {r : Bool} {c' : Cache Double}
        → HasCleanFrames c
        → Transition rand addr b c r c'
        → HasCleanFrames c'
    unfolding count_access
    Transition-HasCleanFrames h (hit way found) =
        after_hit-HasCleanFrames b _ way _ (rw shaped.rows (set_index-lt rand addr b shaped))
          (found-valid _ way _ found) h
    Transition-HasCleanFrames h (around missed out) = after_miss-HasCleanFrames _ _ h
    Transition-HasCleanFrames h (fill draws missed here) =
        after_fill-HasCleanFrames b _ _ (missed_cache rand addr b c)
          (rw (missed-IsShaped rand addr b shaped).rows (missed-lt rand addr b shaped))
          (after_miss-HasCleanFrames _ _ h)
