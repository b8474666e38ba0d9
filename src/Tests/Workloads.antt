-- ===== src/Tests/Workloads.antt =====
-- Small workloads.
use cache_hierarchy_simulato.Prelude.{
  List, [], arith, refl, suc, ℕ, length, ◌<◌, ◌∷◌, ◌≡◌, All, inl, inr, zero, get_or, sym, ap, ◌∙◌,
  ◌+◌, ◌*◌, ◌/◌, ◌-◌, false,
}
use cache_hierarchy_simulato.Prelude.Int.{pos, negsuc}
use cache_hierarchy_simulato.Word.{u64_mod}
use cache_hierarchy_simulato.Trace.Reader.{read_all, split_lines}
use cache_hierarchy_simulato.Trace.Stream.{records}
use cache_hierarchy_simulato.Hierarchy.{run}
use cache_hierarchy_simulato.Tracegen.{
  Emitted, print_lines, for_loop, matmul, identity_order, listwalk, randscan, seqscan,
}
use cache_hierarchy_simulato.Tracegen.Command.{
  Machine, printed, refused, uncaught, usage, print_file, main,
}
use cache_hierarchy_simulato.Tracegen.Files.{main-records}
use cache_hierarchy_simulato.Tracegen.Sweep.{run-seqscan}
use cache_hierarchy_simulato.Tracegen.Scan.{recorded, read_all-print_lines}
use cache_hierarchy_simulato.Tracegen.Cycle.{IsArrangement, visit, listwalk-visits}
use cache_hierarchy_simulato.Tests.{numbers, first, second, chain, first-IsWords, chain-built}

abbrev two_accesses : List Emitted
two_accesses =
    record { op = b'L'; addr = 4096; size = 8 } ∷ record { op = b'S'; addr = 4104; size = 8 } ∷ []

read_all-print_lines_example :
    read_all (suc (length (print_lines two_accesses))) (print_lines two_accesses)
    ≡ recorded two_accesses
read_all-print_lines_example =
    read_all-print_lines two_accesses
      ((inl refl, omega arith, refl), ((inr refl, omega arith, refl), tt))

-- The order 2, 0, 1.
abbrev rotated : List ℕ → List ℕ
rotated l = 2 ∷ 0 ∷ 1 ∷ []

rotated-lt : (i : ℕ) → i < 3 → get_or (2 ∷ 0 ∷ 1 ∷ []) i 0 < 3
rotated-lt zero h = omega arith
rotated-lt (suc zero) h = omega arith
rotated-lt (suc (suc zero)) h = omega arith
rotated-lt (suc (suc (suc i))) h = absurd (omega arith)

rotated-back : (i : ℕ) → i < 3 → get_or (1 ∷ 2 ∷ 0 ∷ []) (get_or (2 ∷ 0 ∷ 1 ∷ []) i 0) 0 ≡ i
rotated-back zero h = refl
rotated-back (suc zero) h = refl
rotated-back (suc (suc zero)) h = refl
rotated-back (suc (suc (suc i))) h = absurd (omega arith)

rotated-IsArrangement : IsArrangement 3 (rotated (identity_order 3))
rotated-IsArrangement = record {
  places = refl;
  inside = rotated-lt;
  once = λ i j h k e.
      sym (rotated-back i h) ∙ ap (λ p. get_or (1 ∷ 2 ∷ 0 ∷ []) p 0) e ∙ rotated-back j k;
}

listwalk-visits_example :
    listwalk rotated 4096 3 5 ≡ for_loop 0 5 (visit (rotated (identity_order 3)) 3 4096)
listwalk-visits_example = listwalk-visits rotated 4096 3 5 (omega arith) rotated-IsArrangement

-- Every argument is the number 16.
abbrev machine : Machine
machine = record {
  atoi = λ t. pos 16;
  atol = λ t. pos 16;
  a = 4096;
  b = 8192;
  c = 12288;
  pool = 4096;
  array = 4096;
  shuffle = λ l. l;
  pick = λ n i. 0;
}

scanned : main machine ("randscan" ∷ "16" ∷ "16" ∷ []) ≡ printed (randscan (λ i. 0) 4096 16)
unfolding main
scanned = refl

scanned-words : All (λ e. e.addr < u64_mod) (randscan (λ i. 0) 4096 16)
unfolding randscan for_loop
scanned-words = omega arith

main-records_example :
    let file = print_file (randscan (λ i. 0) 4096 16) in
    (split_lines file ≡ print_lines (randscan (λ i. 0) 4096 16))
    × (records (split_lines file) ≡ recorded (randscan (λ i. 0) 4096 16))
main-records_example =
    main-records machine ("randscan" ∷ "16" ∷ "16" ∷ []) (randscan (λ i. 0) 4096 16) scanned
      scanned-words

-- A matrix of 2^30 rows is too long, and one of -2 rows has no elements to touch.
too_long : main (record machine { atoi = λ t. pos 1073741824 }) ("matmul" ∷ "n" ∷ []) ≡ uncaught
unfolding main
too_long = refl

negative : main (record machine { atoi = λ t. negsuc 1 }) ("matmul" ∷ "-2" ∷ []) ≡ printed []
unfolding main matmul for_loop
negative = refl

-- A negative number of nodes, and a missing argument.
no_nodes : main (record machine { atoi = λ t. negsuc 0 }) ("listwalk" ∷ "-1" ∷ "3" ∷ []) ≡ uncaught
unfolding main
no_nodes = refl

no_steps : main machine ("listwalk" ∷ "3" ∷ []) ≡ refused usage
unfolding main
no_steps = refl

-- Twice the 40 bytes at 4100, in blocks of 8 bytes.
run-seqscan_example :
    let file = print_file (seqscan 4100 40 2) in
    (run ℕ numbers false (records (split_lines file)) chain.1).0.world.level.0.stats.compulsory
    ≡ suc ((4100 + 8 * (40 / 8 - 1)) / 8 - 4100 / 8)
run-seqscan_example =
    run-seqscan ℕ numbers first (second ∷ []) 100 0 {p = chain} false 4100 40 2 first-IsWords refl
      chain-built (omega arith) (omega arith) (omega arith) (omega arith) (omega arith)
