-- ===== src/Access/Branches.antt =====
-- Cache::access as three cases without the world: a hit, a store that goes around the cache, and a
-- fill. Later proofs go by these cases.
use cache_hierarchy_simulato.Prelude.{
  ℕ, Bool, true, false, not, ◌&&◌, List, [], ◌∷◌, ◌++◌, none, some, ◌≡◌, refl, arith, inl, inr,
  if◌then◌else◌, get_or, Bool-cases,
}
use cache_hierarchy_simulato.Word.{incr}
use cache_hierarchy_simulato.Config.{is_write_back, is_no_write_allocate}
use cache_hierarchy_simulato.Memory.{World, MemoryLevel}
use cache_hierarchy_simulato.Cache.{
  CacheLine, empty_line, Cache, Decoded, decode, victim_addr, lines_of, set_line,
}
use cache_hierarchy_simulato.Access.{
  find_way, count_access, classify, pick_way, record_hit, install, count_writeback, access_hit,
  write_back_victim, allocate, access_miss, access,
}

-- A call of the level below: the address, and whether it is a store.
pub record Request : Type 0 where
  pub addr : ℕ
  pub is_write : Bool

abbrev pub load : ℕ → Request
load addr = record { addr = addr; is_write = false }

abbrev pub store : ℕ → Request
store addr = record { addr = addr; is_write = true }

-- The world of the level below after a row of calls.
unfoldable pub send : {S : Type 0} → MemoryLevel S → List Request → World S → World S
send next [] w = w
send next (r ∷ rs) w = send next rs (next r.addr r.is_write w).1

pub send-append :
    {S : Type 0} (next : MemoryLevel S) (rs qs : List Request) (w : World S)
    → send next (rs ++ qs) w ≡ send next qs (send next rs w)
unfolding send
send-append next [] qs w = refl
send-append next (r ∷ rs) qs w = send-append next rs qs (next r.addr r.is_write w).1

module _ {Double : Type 0} where
  abbrev pub writes_through : Bool → Cache Double → Bool
  writes_through is_write c = is_write && not (is_write_back c.cfg.write_policy)

  abbrev pub goes_around : Bool → Cache Double → Bool
  goes_around is_write c = is_write && is_no_write_allocate c.cfg.alloc_policy

  abbrev pub frame_of : Cache Double → ℕ → ℕ → CacheLine
  frame_of c i way = get_or (lines_of c i) way empty_line

  -- A fill of this frame writes its old content back.
  abbrev pub evicts_dirty : Cache Double → ℕ → ℕ → Bool
  evicts_dirty c i way =
      let frame = frame_of c i way in frame.valid && frame.dirty && is_write_back c.cfg.write_policy

  unfoldable pub after_hit : Bool → Decoded → ℕ → Cache Double → Cache Double
  after_hit is_write d way c =
      let hit = record_hit d way c in
      if is_write && is_write_back c.cfg.write_policy
      then set_line hit d.set_index way (record (frame_of hit d.set_index way) { dirty = true })
      else hit

  unfoldable pub after_miss : Decoded → Cache Double → Cache Double
  after_miss d c =
      let s = c.stats in
      classify d.block_addr (record c { stats = record s { misses = incr s.misses } })

  unfoldable pub after_fill : Bool → Decoded → ℕ → Cache Double → Cache Double
  unfolding count_writeback
  after_fill is_write d way c =
      install is_write d way (if evicts_dirty c d.set_index way then count_writeback c else c)

  -- What a hit, and what a fill after its fetch, sends below.
  abbrev pub through_requests : ℕ → Bool → Cache Double → List Request
  through_requests addr is_write c = if writes_through is_write c then store addr ∷ [] else []

  abbrev pub evict_requests : Decoded → ℕ → Cache Double → List Request
  evict_requests d way c =
      if evicts_dirty c d.set_index way
      then store (victim_addr c (frame_of c d.set_index way).tag d.set_index) ∷ []
      else []

  module _ {S : Type 0} (rand : ℕ → ℕ) (next : MemoryLevel S) (addr : ℕ) (is_write : Bool) where
    module _ (d : Decoded) (way : ℕ) (c : Cache Double) (w : World S) where
      write_back_victim-eq : write_back_victim rand next d.set_index way c w ≡ (
        if evicts_dirty c d.set_index way then count_writeback c else c,
        send next (evict_requests d way c) w,
      )
      unfolding write_back_victim send
      write_back_victim-eq = elim (Bool-cases (evicts_dirty c d.set_index way)) [
        | inl e ↦ rw e refl
        | inr e ↦ rw e refl
      ]

      through-eq :
          (if writes_through is_write c then (next addr true w).1 else w)
          ≡ send next (through_requests addr is_write c) w
      unfolding send
      through-eq = elim (Bool-cases (writes_through is_write c)) [
        | inl e ↦ rw e refl
        | inr e ↦ rw e refl
      ]

    allocate-eq :
        (d : Decoded) (c : Cache Double) (w : World S)
        → let fetched = send next (load addr ∷ []) w in
          let pick = pick_way rand c d.set_index fetched.draws in
          allocate rand next addr is_write d c w ≡ (
            false,
            after_fill is_write d pick.0 c,
            send next
                (evict_requests d pick.0 c ++ through_requests addr is_write c)
                (record fetched { draws = pick.1 }),
          )
    unfolding allocate after_fill send
    allocate-eq d c w =
        let fetched = (next addr false w).1 in
        let pick = pick_way rand c d.set_index fetched.draws in
        let w' = record fetched { draws = pick.1 } in
        rw
          (
            write_back_victim-eq d pick.0 c w',
            through-eq d pick.0 c (send next (evict_requests d pick.0 c) w'),
            ← send-append next (evict_requests d pick.0 c) (through_requests addr is_write c) w',
          )
          refl

    module _ (c : Cache Double) (w : World S) where
      -- A hit returns true, updates the frame and forwards a store under write-through.
      pub access-hit :
          (way : ℕ)
          → let c₀ = count_access is_write c in
            let d = decode c₀ addr in
            find_way 0 d.tag (lines_of c₀ d.set_index) ≡ some way
            → access rand next addr is_write c w
              ≡ (true, after_hit is_write d way c₀, send next (through_requests addr is_write c₀) w)
      unfolding access access_hit after_hit send
      access-hit way found = rw (found, access) (ground arith)

      -- A store that misses under no-write-allocate goes below and changes no frame.
      pub access-around :
          let c₀ = count_access is_write c in
          let d = decode c₀ addr in
          find_way 0 d.tag (lines_of c₀ d.set_index) ≡ none
          → goes_around is_write c₀ ≡ true
          → access rand next addr is_write c w
            ≡ (false, after_miss d c₀, send next (store addr ∷ []) w)
      unfolding access access_miss after_miss send
      access-around missed around = rw (missed, access, access_miss, around) refl

      -- Any other miss fetches the block, chooses a way in the world after the fetch, writes the
      -- old content of the frame back if it is modified, and fills the frame.
      pub access-fill :
          let c₀ = count_access is_write c in
          let d = decode c₀ addr in
          let c₁ = after_miss d c₀ in
          let fetched = send next (load addr ∷ []) w in
          let pick = pick_way rand c₁ d.set_index fetched.draws in
          find_way 0 d.tag (lines_of c₀ d.set_index) ≡ none
          → goes_around is_write c₀ ≡ false
          → access rand next addr is_write c w ≡ (
            false,
            after_fill is_write d pick.0 c₁,
            send next
                (evict_requests d pick.0 c₁ ++ through_requests addr is_write c₁)
                (record fetched { draws = pick.1 }),
          )
      unfolding access access_miss after_miss
      access-fill missed here =
          let c₀ = count_access is_write c in
          let d = decode c₀ addr in
          rw (missed, access, access_miss, here) (allocate-eq d (after_miss d c₀) w)
