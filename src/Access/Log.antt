-- ===== src/Access/Log.antt =====
-- A level below that keeps a log of its calls.
use cache_hierarchy_simulato.Prelude.{◌≡◌, ◌⊎◌, refl, List, [], ◌∷◌, ◌++◌, inl, inr}
use cache_hierarchy_simulato.Memory.{World, MemoryLevel}
use cache_hierarchy_simulato.Access.Branches.{Request, send}

-- A level that also keeps a log of its calls, the newest first.
abbrev pub recording : {S : Type 0} → MemoryLevel S → MemoryLevel (S × List Request)
recording next addr is_write w =
    let (hit, below) = next addr is_write (record { draws = w.draws; level = w.level.0 }) in
    let call : Request = record { addr = addr; is_write = is_write } in
    (hit, record { draws = below.draws; level = (below.level, call ∷ w.level.1) })

abbrev pub IsSent : Request → List Request → Type 0
IsSent q [] = ⊥
IsSent q (r ∷ rs) = (q ≡ r) ⊎ IsSent q rs

module _ {S : Type 0} (next : MemoryLevel S) (q : Request) where
  send-keeps_log :
      (rs : List Request) (w : World (S × List Request))
      → IsSent q w.level.1
      → IsSent q (send (recording next) rs w).level.1
  unfolding send
  send-keeps_log [] w h = h
  send-keeps_log (r ∷ rs) w h = send-keeps_log rs (recording next r.addr r.is_write w).1 (inr h)

  pub send-logs :
      (rs : List Request) (w : World (S × List Request))
      → IsSent q rs
      → IsSent q (send (recording next) rs w).level.1
  unfolding send
  send-logs [] w h = absurd h
  send-logs (r ∷ rs) w (inl here) = send-keeps_log rs _ (inl here)
  send-logs (r ∷ rs) w (inr there) = send-logs rs _ there

pub IsSent-append : (q : Request) (rs qs : List Request) → IsSent q rs → IsSent q (rs ++ qs)
IsSent-append q [] qs h = absurd h
IsSent-append q (r ∷ rs) qs (inl here) = inl here
IsSent-append q (r ∷ rs) qs (inr there) = inr (IsSent-append q rs qs there)

pub IsSent-last : (q : Request) (rs : List Request) → IsSent q (rs ++ q ∷ [])
IsSent-last q [] = inl refl
IsSent-last q (r ∷ rs) = inr (IsSent-last q rs)

-- A world with an empty log.
abbrev pub unlogged : {S : Type 0} → World S → World (S × List Request)
unlogged w = record { draws = w.draws; level = (w.level, []) }
