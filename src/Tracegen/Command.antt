-- ===== src/Tracegen/Command.antt =====
-- scripts/tracegen.cpp: usage and main. Numbers that are int or long in the code are integers here; a
-- negative one becomes a huge size_t where a vector is made of it.
use Prim.Native.String.{String}
use cache_hierarchy_simulato.Prelude.{
  ℕ, zero, suc, ◌+◌, ◌*◌, ◌-◌, ◌^◌, ◌/◌, ltb, List, [], ◌∷◌, ◌++◌, ◌==◌, if◌then◌else◌,
}
use cache_hierarchy_simulato.Prelude.Int.{ℤ, pos, negsuc, pos_part, magnitude}
use cache_hierarchy_simulato.Text.{Text, codes}
use cache_hierarchy_simulato.Options.{is}
use cache_hierarchy_simulato.Trace.Format.{emit}
use cache_hierarchy_simulato.Tracegen.{Emitted, matmul, listwalk, seqscan, randscan}

-- What main of tracegen uses of its surroundings: atoi and atol, the addresses of the vectors, what
-- std::shuffle makes of an order, and the draws of the distribution over a number of elements.
pub record Machine : Type 0 where
  pub atoi : String → ℤ
  pub atol : String → ℤ
  pub a : ℕ
  pub b : ℕ
  pub c : ℕ
  pub pool : ℕ
  pub array : ℕ
  pub shuffle : List ℕ → List ℕ
  pub pick : ℕ → ℕ → ℕ

-- main returns 0 after calls of emit, or 2 after a message on stderr; a vector that is too long
-- throws, and a read outside of a vector is undefined.
pub data Ended : Type 0 where
  printed : List Emitted → Ended
  refused : Text → Ended
  uncaught undefined : Ended

unfoldable pub usage : Text
usage =
    codes "usage: tracegen matmul N | listwalk NODES STEPS | "
    ++ codes "seqscan BYTES PASSES | randscan BYTES COUNT\n"

-- The text on stdout.
unfoldable pub print_file : List Emitted → Text
print_file [] = []
print_file (e ∷ es) = emit e.op e.addr e.size ++ 10 ∷ print_file es

-- max_size() of a vector of elements of 8 bytes, whose bytes PTRDIFF_MAX counts. No vector of
-- listwalk, seqscan and randscan is longer if its length is not negative: an int of nodes of 16 bytes,
-- an eighth of a long of words.
abbrev pub max_elements : ℕ
max_elements = 2 ^ 60 - 1

-- The length of a vector of bytes / 8 elements: none is thrown for a negative number. The division
-- of the code rounds towards 0.
unfoldable pub with_elements : ℤ → (ℕ → Ended) → Ended
with_elements (pos bytes) body = body bytes
with_elements (negsuc n) body = if (n + 1) / 8 == 0 then body 0 else uncaught

module _ (m : Machine) where
  -- matmul, listwalk, seqscan and randscan with the arguments of main. The length of the matrices is
  -- static_cast<size_t>(n) * n, which is n^2 also for a negative n.
  unfoldable pub run_matmul : ℤ → Ended
  run_matmul n =
      if ltb max_elements (magnitude n * magnitude n)
      then uncaught
      else printed (matmul m.a m.b m.c (pos_part n))

  unfoldable pub run_listwalk : ℤ → ℤ → Ended
  run_listwalk (negsuc n) steps = uncaught
  run_listwalk (pos zero) steps = undefined
  run_listwalk (pos (suc n)) steps = printed (listwalk m.shuffle m.pool (suc n) (pos_part steps))

  unfoldable pub run_seqscan : ℤ → ℤ → Ended
  unfolding with_elements
  run_seqscan bytes passes =
      with_elements bytes (λ size. printed (seqscan m.array size (pos_part passes)))

  unfoldable pub run_randscan : ℤ → ℤ → Ended
  unfolding with_elements
  run_randscan bytes count = with_elements bytes λ size.
      if size / 8 == 0
      then (if pos_part count == 0 then printed [] else undefined)
      else printed (randscan (m.pick (size / 8)) m.array (pos_part count))

  -- main, with the arguments after argv[0]
  unfoldable pub main : List String → Ended
  unfolding run_matmul run_listwalk run_seqscan run_randscan
  main (kind ∷ x ∷ []) = if is kind "matmul" then run_matmul (m.atoi x) else refused usage
  main (kind ∷ x ∷ y ∷ []) =
      if is kind "listwalk"
      then run_listwalk (m.atoi x) (m.atoi y)
      else (if is kind "seqscan"
          then run_seqscan (m.atol x) (m.atoi y)
          else (if is kind "randscan" then run_randscan (m.atol x) (m.atol y) else refused usage))
  main _ = refused usage
