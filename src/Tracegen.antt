-- ===== src/Tracegen.antt =====
-- scripts/tracegen.cpp: the four workloads, as the calls of emit that each makes. Counts that are int
-- or long in the code are natural numbers: a negative one runs no loop. Where the data structures
-- stand in memory, what std::shuffle makes of the order of the nodes and what the distribution draws
-- are parameters.
pub mod Scan
pub mod Loops
pub mod Matmul
pub mod Cycle
pub mod Command
pub mod Files
pub mod Footprint
pub mod Sweep
use cache_hierarchy_simulato.Prelude.{
  ℕ, zero, suc, ◌+◌, ◌*◌, ◌/◌, ◌%◌, List, [], ◌∷◌, ◌++◌, get_or, set, replicate,
}
use cache_hierarchy_simulato.Word.{u64}
use cache_hierarchy_simulato.Text.{Text}
use cache_hierarchy_simulato.Trace.Format.{emit}

-- One call of emit.
pub record Emitted : Type 0 where
  pub op : ℕ
  pub addr : ℕ
  pub size : ℕ

abbrev pub load : ℕ → Emitted
load addr = record { op = b'L'; addr = addr; size = 8 }

abbrev pub store : ℕ → Emitted
store addr = record { op = b'S'; addr = addr; size = 8 }

-- The lines that the calls print.
unfoldable pub print_lines : List Emitted → List Text
print_lines [] = []
print_lines (e ∷ es) = emit e.op e.addr e.size ∷ print_lines es

-- `for (i = first; i < first + count; ++i)`
unfoldable pub for_loop {ℓ} : {A : Type ℓ} → ℕ → ℕ → (ℕ → List A) → List A
for_loop first zero body = []
for_loop first (suc count) body = body first ++ for_loop (suc first) count body

-- The address of element (i, j) of an n by n matrix of doubles.
abbrev pub cell : ℕ → ℕ → ℕ → ℕ → ℕ
cell base n i j = base + 8 * u64 (i * n + j)

-- The body of the innermost loop of matmul.
abbrev pub multiply_add : ℕ → ℕ → ℕ → ℕ → ℕ → ℕ → ℕ → List Emitted
multiply_add a b c n i j k =
    load (cell a n i k) ∷ load (cell b n k j) ∷ load (cell c n i j) ∷ store (cell c n i j) ∷ []

-- matmul, with the three matrices at `a`, `b` and `c`
unfoldable pub matmul : ℕ → ℕ → ℕ → ℕ → List Emitted
matmul a b c n =
    for_loop 0 n (λ i. for_loop 0 n (λ j. for_loop 0 n (λ k. multiply_add a b c n i j k)))

-- A node of the pool; `next` is the index of the node that it points to.
pub record Node : Type 0 where
  pub next : ℕ
  pub payload : ℕ

abbrev pub null_node : Node
null_node = record { next = 0; payload = 0 }

-- The loop that links the nodes, from round `i` on.
unfoldable pub link : List ℕ → ℕ → ℕ → ℕ → List Node → List Node
link order nodes i zero pool = pool
link order nodes i (suc count) pool =
    link order nodes (suc i) count (
      set pool (get_or order i 0) (record { next = get_or order ((i + 1) % nodes) 0; payload = i }))

-- The walk of `steps` nodes from the node `p`, in a pool at `base` with 16 bytes for a node.
unfoldable pub walk : ℕ → List Node → ℕ → ℕ → List Emitted
walk base pool zero p = []
walk base pool (suc steps) p =
    load (base + 16 * p)
    ∷ load (base + 16 * p + 8)
    ∷ walk base pool steps (get_or pool p null_node).next

-- `order[i] = i`
abbrev pub identity_order : ℕ → List ℕ
identity_order nodes = for_loop 0 nodes (λ i. i ∷ [])

unfoldable pub listwalk : (List ℕ → List ℕ) → ℕ → ℕ → ℕ → List Emitted
listwalk shuffle base nodes steps =
    let order = shuffle (identity_order nodes) in
    let pool = link order nodes 0 nodes (replicate nodes null_node) in
    walk base pool steps (get_or order 0 0)

-- seqscan, with the array at `base`
unfoldable pub seqscan : ℕ → ℕ → ℕ → List Emitted
seqscan base bytes passes =
    for_loop 0 passes (λ pass. for_loop 0 (bytes / 8) (λ i. load (base + 8 * i) ∷ []))

-- randscan; `pick` gives the draws of the distribution.
unfoldable pub randscan : (ℕ → ℕ) → ℕ → ℕ → List Emitted
randscan pick base count = for_loop 0 count (λ i. load (base + 8 * pick i) ∷ [])
