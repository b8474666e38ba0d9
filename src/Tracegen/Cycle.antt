-- ===== src/Tracegen/Cycle.antt =====
-- listwalk of scripts/tracegen.cpp: the linked nodes are one cycle through the shuffled order.
use native.Mathlib.Decide.{ℕ_discrete}
use native.Mathlib.Nat.{mod-lt, mod-add-mod, zero-mod}
use mathlib.Core.Path.{subst}
use cache_hierarchy_simulato.Prelude.{
  ℕ, zero, suc, ◌+◌, ◌*◌, ◌%◌, ◌<◌, ◌≡◌, refl, ap, sym, ◌∙◌, List, [], ◌∷◌, arith, length, get_or,
  set, replicate, get_or-set_self, get_or-set_ne, length-set, length-replicate,
}
use cache_hierarchy_simulato.Tracegen.{
  Emitted, load, Node, null_node, link, walk, identity_order, listwalk, for_loop,
}

-- What std::shuffle gives: every node stands at one place of the order.
pub record IsArrangement (nodes : ℕ) (order : List ℕ) : Type 0 where
  pub places : length order ≡ nodes
  pub inside : (i : ℕ) → i < nodes → get_or order i 0 < nodes
  pub once : (i j : ℕ) → i < nodes → j < nodes → get_or order i 0 ≡ get_or order j 0 → i ≡ j

-- The two loads from the node that stands at a place of the order.
abbrev pub visit : List ℕ → ℕ → ℕ → ℕ → List Emitted
visit order nodes base s =
    let p = get_or order (s % nodes) 0 in load (base + 16 * p) ∷ load (base + 16 * p + 8) ∷ []

module _ (order : List ℕ) (nodes : ℕ) (a : IsArrangement nodes order) where
  -- Node `order[j]` as the loop links it.
  linked : ℕ → Node
  linked j = record { next = get_or order ((j + 1) % nodes) 0; payload = j }

  length-link :
      (i count : ℕ) (pool : List Node) → length (link order nodes i count pool) ≡ length pool
  unfolding link
  length-link i zero pool = refl
  length-link i (suc count) pool = length-link (suc i) count _ ∙ length-set pool _ _

  link-linked :
      (i count : ℕ) (pool : List Node)
      → i + count ≡ nodes
      → length pool ≡ nodes
      → ((j : ℕ) → j < i → get_or pool (get_or order j 0) null_node ≡ linked j)
      → (j : ℕ) → j < nodes
      → get_or (link order nodes i count pool) (get_or order j 0) null_node ≡ linked j
  unfolding link linked
  link-linked i zero pool all size done j h = done j (omega arith)
  link-linked i (suc count) pool all size done j h =
      link-linked (suc i) count _ (omega arith) (length-set pool _ _ ∙ size)
        (λ k below. elim (ℕ_discrete i k) [
          | yes same ↦
              subst
                (λ k.
                  get_or (set pool (get_or order i 0) (linked i)) (get_or order k 0) null_node
                  ≡ linked k)
                same
                (get_or-set_self pool (get_or order i 0) (linked i) null_node
                  (omega (arith, size, a.inside i (omega arith))))
          | no other ↦
              get_or-set_ne pool (get_or order i 0) (get_or order k 0) _ null_node
                (λ e. other (a.once i k (omega arith) (omega arith) e))
              ∙ done k (omega arith)
        ])
        j h

  walk-visits :
      (base : ℕ) (pool : List Node)
      → 0 < nodes
      → ((j : ℕ) → j < nodes → get_or pool (get_or order j 0) null_node ≡ linked j)
      → (steps s : ℕ)
      → walk base pool steps (get_or order (s % nodes) 0)
        ≡ for_loop s steps (visit order nodes base)
  unfolding walk for_loop linked
  walk-visits base pool some_node done zero s = refl
  walk-visits base pool some_node done (suc steps) s =
      let next : (get_or pool (get_or order (s % nodes) 0) null_node).next
          ≡ get_or order (suc s % nodes) 0 =
        ap (λ (n : Node). n.next) (done (s % nodes) (mod-lt s some_node))
        ∙ ap (λ k. get_or order k 0) (mod-add-mod s nodes 1 ∙ ap (λ k. k % nodes) (omega arith)) in
      ap
        (λ es.
          load (base + 16 * get_or order (s % nodes) 0)
          ∷ load (base + 16 * get_or order (s % nodes) 0 + 8)
          ∷ es)
        (ap (walk base pool steps) next ∙ walk-visits base pool some_node done steps (suc s))

-- If shuffle leaves every node at one place, listwalk loads both fields of the nodes in the shuffled
-- order, and starts over after the last one: step s stands at place s modulo the number of nodes.
pub listwalk-visits :
    (shuffle : List ℕ → List ℕ) (base nodes steps : ℕ)
    → 0 < nodes
    → IsArrangement nodes (shuffle (identity_order nodes))
    → listwalk shuffle base nodes steps
      ≡ for_loop 0 steps (visit (shuffle (identity_order nodes)) nodes base)
unfolding listwalk
listwalk-visits shuffle base nodes steps some_node a =
    let order = shuffle (identity_order nodes) in
    let pool = link order nodes 0 nodes (replicate nodes null_node) in
    let done =
      link-linked order nodes a 0 nodes (replicate nodes null_node) (omega arith)
        (length-replicate nodes null_node) (λ j below. absurd (omega arith)) in
    ap (λ k. walk base pool steps (get_or order k 0)) (sym (zero-mod nodes))
    ∙ walk-visits order nodes a base pool some_node done steps 0
