-- ===== src/Access/Sound.antt =====
-- The invariant of one cache, and what one access does to it and to the level below.
use mathlib.Core.Bool.{false≢true}
use cache_hierarchy_simulato.Prelude.{
  ℕ, zero, suc, sym, ◌∙◌, get_or, replicate, ◌≡◌, refl, Bool, false, List, [], ◌∷◌, inl, inr,
  Bool-cases, Option-cases, All-replicate, arith,
}
use cache_hierarchy_simulato.Config.{CacheConfig}
use cache_hierarchy_simulato.Memory.{World, MemoryLevel}
use cache_hierarchy_simulato.Cache.{Cache, ok, build, construct, empty_line, empty_set}
use cache_hierarchy_simulato.Cache.Shape.{IsShaped}
use cache_hierarchy_simulato.Cache.Construct.{IsWords, build-IsShaped, construct_inv}
use cache_hierarchy_simulato.Access.{access}
use cache_hierarchy_simulato.Access.Branches.{
  Request, load, send, goes_around, through_requests, access-hit, access-around, access-fill,
}
use cache_hierarchy_simulato.Access.Counters.{CountsAgree, Transition-CountsAgree}
use cache_hierarchy_simulato.Access.Dirty.{HasCleanFrames, Transition-HasCleanFrames}
use cache_hierarchy_simulato.Access.Sets.{HasUniqueTags, Transition-HasUniqueTags}
use cache_hierarchy_simulato.Access.Shape.{Transition-IsShaped}
use cache_hierarchy_simulato.Access.Transition.{start, looked_up, access-Transition}

empty_frames : (a j : ℕ) → (get_or (replicate a empty_line) j empty_line).valid ≡ false
empty_frames zero j = refl
empty_frames (suc a) zero = refl
empty_frames (suc a) (suc j) = empty_frames a j

pub fresh-invalid :
    (n a i j : ℕ)
    → (get_or
        (get_or (replicate n (record { lines = replicate a empty_line })) i empty_set).lines
        j
        empty_line).valid
      ≡ false
fresh-invalid zero a i j = refl
fresh-invalid (suc n) a zero j = empty_frames a j
fresh-invalid (suc n) a (suc i) j = fresh-invalid n a i j

module _ {Double : Type 0} where
  pub record IsSound (c : Cache Double) : Type 0 where
    pub shaped : IsShaped c
    pub unique : HasUniqueTags c
    pub clean : HasCleanFrames c
    pub counts : CountsAgree 0 c

  build-CountsAgree : (cfg : CacheConfig Double) (n : ℕ) → CountsAgree 0 (build cfg n)
  build-CountsAgree cfg n = ground arith

  pub build-IsSound :
      (cfg : CacheConfig Double) (n : ℕ) → IsShaped (build cfg n) → IsSound (build cfg n)
  build-IsSound cfg n shaped = record {
    shaped = shaped;
    unique = λ i j inside valid.
        absurd (false≢true (sym (fresh-invalid n cfg.associativity i j) ∙ valid));
    clean = All-replicate _ n _ (
        All-replicate _ cfg.associativity empty_line
          (record { valid_if_dirty = refl; clean_through = refl }));
    counts = build-CountsAgree cfg n;
  }

  -- A cache that the constructor returns satisfies the invariant.
  pub construct-IsSound :
      (cfg : CacheConfig Double) (null : Bool) {c : Cache Double}
      → IsWords cfg
      → construct cfg null ≡ ok c
      → IsSound c
  construct-IsSound cfg null {c} words e =
      let (n, built, accepted, _) = construct_inv cfg null c e in
      rw built (build-IsSound cfg n (build-IsShaped cfg words n accepted))

  module _ {S : Type 0} (rand : ℕ → ℕ) (next : MemoryLevel S) (addr : ℕ) (b : Bool)
      (c : Cache Double) (w : World S) where
    -- An access keeps the invariant (shape, at most one frame of a set for a tag, dirty frames
    -- valid and only under write-back, sums of the counters), whatever the level below does.
    pub access-IsSound : IsSound c → IsSound (access rand next addr b c w).1
    access-IsSound h =
        let t = access-Transition rand addr b c next w in
        record {
          shaped = Transition-IsShaped rand addr b h.shaped t;
          unique = Transition-HasUniqueTags rand addr b h.shaped h.unique t;
          clean = Transition-HasCleanFrames rand addr b h.shaped h.clean t;
          counts = Transition-CountsAgree rand addr b h.counts t;
        }

-- What every access of a level keeps, every row of calls keeps.
pub send-keeps {κ} :
    {S : Type 0} (next : MemoryLevel S) (I : S → Type κ)
    → ((addr : ℕ) (b : Bool) (w : World S) → I w.level → I (next addr b w).1.level)
    → (rs : List Request) (w : World S) → I w.level
    → I (send next rs w).level
unfolding send
send-keeps next I keep [] w h = h
send-keeps next I keep (r ∷ rs) w h =
    send-keeps next I keep rs (next r.addr r.is_write w).1 (keep r.addr r.is_write w h)

-- So does an access of a cache above the level.
pub access-keeps {κ} :
    {Double S : Type 0} (rand : ℕ → ℕ) (next : MemoryLevel S) (I : S → Type κ)
    → ((addr : ℕ) (b : Bool) (w : World S) → I w.level → I (next addr b w).1.level)
    → (addr : ℕ) (b : Bool) (c : Cache Double) (w : World S) → I w.level
    → I (access rand next addr b c w).2.level
access-keeps rand next I keep addr b c w h = elim (Option-cases (looked_up rand addr b c)) [
  | inr (way, found) ↦
      rw (access-hit rand next addr b c w way found)
        (send-keeps next I keep (through_requests addr b (start rand addr b c)) w h)
  | inl missed ↦ elim (Bool-cases (goes_around b (start rand addr b c))) [
    | inl out ↦ rw (access-around rand next addr b c w missed out) (send-keeps next I keep _ w h)
    | inr here ↦
        rw (access-fill rand next addr b c w missed here)
          (send-keeps next I keep _ _ (send-keeps next I keep (load addr ∷ []) w h))
  ]
]
