-- ===== src/Hierarchy/Log.antt =====
-- The verbose log of src/hierarchy.cpp: a run with it and a run without it have the same state.
use mathlib.Core.Path.{ap₂}
use cache_hierarchy_simulato.Prelude.{
  ℕ, suc, ◌≡◌, refl, ap, sym, ◌∙◌, Bool, true, false, List, [], ◌∷◌, ◌++◌,
}
use cache_hierarchy_simulato.Trace.{Op, read, write, modify, instr}
use cache_hierarchy_simulato.Trace
use cache_hierarchy_simulato.Hierarchy.{Echo, CacheHierarchy, access_level, access, one, feed, run}

module _ {W : Type 0} (rand : ℕ → ℕ) {n : ℕ} where
  one-world :
      (v : Bool) (addr : ℕ) (b : Bool) (opc : ℕ) (h : CacheHierarchy W n)
      → ((one W rand v addr b opc h).0.world ≡ (access_level W rand (suc n) addr b h.world).1)
        × ((one W rand v addr b opc h).0.mem_time ≡ h.mem_time)
  unfolding one access
  one-world true addr b opc h = (refl, refl)
  one-world false addr b opc h = (refl, refl)

  -- Both hierarchies have the same levels, the same number of draws and the same memory time.
  pub record SameState (h h' : CacheHierarchy W n) : Type 0 where
    pub world : h.world ≡ h'.world
    pub mem_time : h.mem_time ≡ h'.mem_time

  one-SameState :
      (v v' : Bool) (addr : ℕ) (b : Bool) (opc : ℕ) {h h' : CacheHierarchy W n}
      → SameState h h'
      → SameState (one W rand v addr b opc h).0 (one W rand v' addr b opc h').0
  one-SameState v v' addr b opc {h} {h'} s =
      let (world, time) = one-world v addr b opc h in
      let (world', time') = one-world v' addr b opc h' in
      record {
        world = world ∙ ap (λ w. (access_level W rand (suc n) addr b w).1) s.world ∙ sym world';
        mem_time = time ∙ s.mem_time ∙ sym time';
      }

  feed-SameState :
      (v v' : Bool) (op : Op) (addr : ℕ) {h h' : CacheHierarchy W n}
      → SameState h h'
      → SameState (feed W rand v op addr h).0 (feed W rand v' op addr h').0
  unfolding feed
  feed-SameState v v' read addr s = one-SameState v v' addr false b'R' s
  feed-SameState v v' write addr s = one-SameState v v' addr true b'W' s
  feed-SameState v v' modify addr s =
      one-SameState v v' addr true b'W' (one-SameState v v' addr false b'R' s)
  feed-SameState v v' instr addr s = s

  pub run-SameState :
      (v v' : Bool) (trace : List Trace.Access) {h h' : CacheHierarchy W n}
      → SameState h h'
      → SameState (run W rand v trace h).0 (run W rand v' trace h').0
  unfolding run
  run-SameState v v' [] s = s
  run-SameState v v' (a ∷ rest) s = run-SameState v v' rest (feed-SameState v v' a.op a.addr s)

  feed-mem_time :
      (v : Bool) (op : Op) (addr : ℕ) (h : CacheHierarchy W n)
      → (feed W rand v op addr h).0.mem_time ≡ h.mem_time
  unfolding feed
  feed-mem_time v read addr h = (one-world v addr false b'R' h).1
  feed-mem_time v write addr h = (one-world v addr true b'W' h).1
  feed-mem_time v modify addr h =
      (one-world v addr true b'W' _).1 ∙ (one-world v addr false b'R' h).1
  feed-mem_time v instr addr h = refl

  pub run-mem_time :
      (v : Bool) (trace : List Trace.Access) (h : CacheHierarchy W n)
      → (run W rand v trace h).0.mem_time ≡ h.mem_time
  unfolding run
  run-mem_time v [] h = refl
  run-mem_time v (a ∷ rest) h = run-mem_time v rest _ ∙ feed-mem_time v a.op a.addr h

  one-quiet :
      (addr : ℕ) (b : Bool) (opc : ℕ) (h : CacheHierarchy W n)
      → (one W rand false addr b opc h).1 ≡ []
  unfolding one
  one-quiet addr b opc h = refl

  feed-quiet : (op : Op) (addr : ℕ) (h : CacheHierarchy W n) → (feed W rand false op addr h).1 ≡ []
  unfolding feed
  feed-quiet read addr h = one-quiet addr false b'R' h
  feed-quiet write addr h = one-quiet addr true b'W' h
  feed-quiet modify addr h =
      ap₂ (λ (xs ys : List Echo). xs ++ ys) (one-quiet addr false b'R' h)
        (one-quiet addr true b'W' _)
  feed-quiet instr addr h = refl

  pub run-quiet :
      (trace : List Trace.Access) (h : CacheHierarchy W n) → (run W rand false trace h).1 ≡ []
  unfolding run
  run-quiet [] h = refl
  run-quiet (a ∷ rest) h =
      ap₂ (λ (xs ys : List Echo). xs ++ ys) (feed-quiet a.op a.addr h) (run-quiet rest _)
