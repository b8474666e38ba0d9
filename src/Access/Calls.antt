-- ===== src/Access/Calls.antt =====
-- The calls that one Cache::access makes of the level below, as a row.
use cache_hierarchy_simulato.Prelude.{
  ℕ, ◌≡◌, refl, ap, Bool, List, [], ◌∷◌, ◌++◌, none, some, if◌then◌else◌, inl, inr, Bool-cases,
  Option-cases,
}
use cache_hierarchy_simulato.Memory.{World, MemoryLevel}
use cache_hierarchy_simulato.Cache.{Cache}
use cache_hierarchy_simulato.Access.{access, pick_way}
use cache_hierarchy_simulato.Access.Branches.{
  Request, load, store, send, goes_around, through_requests, evict_requests, access-hit,
  access-around, access-fill,
}
use cache_hierarchy_simulato.Access.Log.{recording}
use cache_hierarchy_simulato.Access.Transition.{start, parts, looked_up, missed_cache}

-- A row of calls in front of those before it, the newest first.
abbrev pub after_calls : List Request → List Request → List Request
after_calls [] before = before
after_calls (r ∷ rs) before = after_calls rs (r ∷ before)

module _ {κ} {S : Type 0} (next : MemoryLevel S) (Q : List Request → S → Type κ)
    (step : (r : Request) (w : World S) (before : List Request)
      → Q before w.level
      → Q (r ∷ before) (next r.addr r.is_write w).1.level) where
  send-keeps :
      (rs : List Request) (w : World S) (before : List Request)
      → Q before w.level
      → Q (after_calls rs before) (send next rs w).level
  unfolding send
  send-keeps [] w before q = q
  send-keeps (r ∷ rs) w before q =
      send-keeps rs (next r.addr r.is_write w).1 (r ∷ before) (step r w before q)

module _ {Double : Type 0} {S : Type 0} (rand : ℕ → ℕ) (next : MemoryLevel S) (addr : ℕ) (b : Bool)
    (c : Cache Double) (w : World S) where
  -- A hit forwards a store under write-through, a store that goes around the cache is sent below, and
  -- any other miss fetches the block, writes a modified victim back, and forwards a store under
  -- write-through.
  unfoldable pub calls : List Request
  calls = elim (looked_up rand addr b c) [
    | some way ↦ through_requests addr b (start rand addr b c)
    | none ↦
        if goes_around b (start rand addr b c)
        then store addr ∷ []
        else (let m = missed_cache rand addr b c in
            let d = parts rand addr b c in
            let fetched = send next (load addr ∷ []) w in
            let way = (pick_way rand m d.set_index fetched.draws).0 in
            load addr ∷ (evict_requests d way m ++ through_requests addr b m))
  ]

  -- What every call of the level below keeps is kept by an access, for exactly these calls.
  pub access-calls {κ} :
      (Q : List Request → S → Type κ)
      → ((r : Request) (v : World S) (before : List Request)
          → Q before v.level
          → Q (r ∷ before) (next r.addr r.is_write v).1.level)
      → (before : List Request) → Q before w.level
      → Q (after_calls calls before) (access rand next addr b c w).2.level
  unfolding calls
  access-calls Q step before q = elim (Option-cases (looked_up rand addr b c)) [
    | inr (way, found) ↦
        rw (access-hit rand next addr b c w way found, calls, found)
          (send-keeps next Q step (through_requests addr b (start rand addr b c)) w before q)
    | inl missed ↦ elim (Bool-cases (goes_around b (start rand addr b c))) [
      | inl out ↦
          rw (access-around rand next addr b c w missed out, calls, missed, out)
            (send-keeps next Q step (store addr ∷ []) w before q)
      | inr here ↦
          let m = missed_cache rand addr b c in
          let d = parts rand addr b c in
          let fetched = send next (load addr ∷ []) w in
          let pick = pick_way rand m d.set_index fetched.draws in
          rw (access-fill rand next addr b c w missed here, calls, missed, here)
            (send-keeps next Q step (evict_requests d pick.0 m ++ through_requests addr b m)
              (record fetched { draws = pick.1 }) (load addr ∷ before)
              (send-keeps next Q step (load addr ∷ []) w before q))
    ]
  ]

-- A level below that keeps a log has logged exactly the calls.
pub calls-recording :
    {Double : Type 0} {S : Type 0} (rand : ℕ → ℕ) (next : MemoryLevel S) (addr : ℕ) (b : Bool)
    (c : Cache Double) (w : World (S × List Request))
    → (access rand (recording next) addr b c w).2.level.1
      ≡ after_calls (calls rand (recording next) addr b c w) w.level.1
calls-recording rand next addr b c w =
    access-calls rand (recording next) addr b c w (λ before s. s.1 ≡ before)
      (λ r v before e. ap (λ log. r ∷ log) e) w.level.1 refl
