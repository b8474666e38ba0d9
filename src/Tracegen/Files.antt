-- ===== src/Tracegen/Files.antt =====
-- The file that scripts/tracegen.cpp prints, as the simulator reads it.
use Prim.Native.String.{String}
use mathlib.Core.Path.{subst}
use cache_hierarchy_simulato.Prelude.{
  ℕ, zero, suc, ◌+◌, ◌*◌, ◌/◌, ltb, ◌<◌, ◌≡◌, ◌⊎◌, inl, inr, refl, ap, ◌∙◌, Bool, true, false, List,
  [], ◌∷◌, ◌++◌, All, arith, ◌==◌, if◌then◌else◌, get_or,
}
use cache_hierarchy_simulato.Prelude.Int.{ℤ, pos, negsuc, pos_part, magnitude}
use cache_hierarchy_simulato.Word.{u64_mod}
use cache_hierarchy_simulato.Text.{Text, digit_value}
use cache_hierarchy_simulato.Trace.Reader.{split_lines}
use cache_hierarchy_simulato.Trace.Stream.{records}
use cache_hierarchy_simulato.Trace.Format.{print_number, emit}
use cache_hierarchy_simulato.Trace.Format.Digits.{AreDigits, AreDigits-le, print_number-AreDigits}
use cache_hierarchy_simulato.Options.{is}
use cache_hierarchy_simulato.Tracegen.{
  Emitted, Node, null_node, print_lines, matmul, listwalk, walk, seqscan, randscan,
}
use cache_hierarchy_simulato.Tracegen.Loops.{All-for_loop}
use cache_hierarchy_simulato.Tracegen.Scan.{IsDataAccess, recorded, records-print_lines}
use cache_hierarchy_simulato.Tracegen.Command.{
  Machine, Ended, printed, refused, uncaught, undefined, usage, print_file, max_elements,
  with_elements, run_matmul, run_listwalk, run_seqscan, run_randscan, main,
}

-- No character of the text ends a line.
abbrev IsLine : Text → Type 0
IsLine t = All (λ c. (c == 10) ≡ false) t

split_lines-line : (t rest : Text) → IsLine t → split_lines (t ++ 10 ∷ rest) ≡ t ∷ split_lines rest
unfolding split_lines
split_lines-line [] rest h = refl
split_lines-line (c ∷ cs) rest h = rw (split_lines, h.0, split_lines-line cs rest h.1) refl

digit-IsLine : (c : ℕ) → digit_value c < 16 → (c == 10) ≡ false
digit-IsLine c h = ground arith

digits-IsLine : (t s : Text) → AreDigits 16 t → IsLine s → IsLine (t ++ s)
digits-IsLine [] s h p = p
digits-IsLine (c ∷ cs) s h p = (digit-IsLine c h.0, digits-IsLine cs s h.1 p)

digits_last-IsLine : (t : Text) → AreDigits 16 t → IsLine t
digits_last-IsLine [] h = tt
digits_last-IsLine (c ∷ cs) h = (digit-IsLine c h.0, digits_last-IsLine cs h.1)

op-IsLine : (c : ℕ) → (c ≡ b'L') ⊎ (c ≡ b'S') → (c == 10) ≡ false
op-IsLine c kind = ground arith

emit-IsLine : (e : Emitted) → IsDataAccess e → IsLine (emit e.op e.addr e.size)
unfolding emit
emit-IsLine e (kind, word, size) =
    let address = print_number-AreDigits 16 e.addr (omega arith) (omega arith) in
    let digits = print_number-AreDigits 10 e.size (omega arith) (omega arith) in
    let bytes = AreDigits-le 10 (print_number 10 e.size) (omega arith) digits in
    (
      refl,
      (
        op-IsLine e.op kind,
        (
          refl,
          digits-IsLine (print_number 16 e.addr) (b',' ∷ print_number 10 e.size) address
              (refl, digits_last-IsLine (print_number 10 e.size) bytes),
        ),
      ),
    )

split_lines-print_file :
    (es : List Emitted) → All IsDataAccess es → split_lines (print_file es) ≡ print_lines es
unfolding print_file print_lines split_lines
split_lines-print_file [] h = refl
split_lines-print_file (e ∷ es) h =
    split_lines-line (emit e.op e.addr e.size) (print_file es) (emit-IsLine e h.0)
    ∙ ap (λ ls. emit e.op e.addr e.size ∷ ls) (split_lines-print_file es h.1)

-- A load or a store of 8 bytes.
abbrev MovesWord : Emitted → Type 0
MovesWord e = ((e.op ≡ b'L') ⊎ (e.op ≡ b'S')) × (e.size ≡ 8)

matmul-MovesWord : (a b c n : ℕ) → All MovesWord (matmul a b c n)
unfolding matmul
matmul-MovesWord a b c n = All-for_loop MovesWord 0 n _ λ i _ _.
    All-for_loop MovesWord 0 n _ λ j _ _.
      All-for_loop MovesWord 0 n _
        λ k _ _. ((inl refl, refl), ((inl refl, refl), ((inl refl, refl), ((inr refl, refl), tt))))

walk-MovesWord :
    (base : ℕ) (pool : List Node) (steps p : ℕ) → All MovesWord (walk base pool steps p)
unfolding walk
walk-MovesWord base pool zero p = tt
walk-MovesWord base pool (suc steps) p = (
  (inl refl, refl),
  ((inl refl, refl), walk-MovesWord base pool steps (get_or pool p null_node).next),
)

seqscan-MovesWord : (base bytes passes : ℕ) → All MovesWord (seqscan base bytes passes)
unfolding seqscan
seqscan-MovesWord base bytes passes =
    All-for_loop MovesWord 0 passes _
      λ pass _ _. All-for_loop MovesWord 0 (bytes / 8) _ λ i _ _. ((inl refl, refl), tt)

randscan-MovesWord : (pick : ℕ → ℕ) (base count : ℕ) → All MovesWord (randscan pick base count)
unfolding randscan
randscan-MovesWord pick base count =
    All-for_loop MovesWord 0 count _ λ i _ _. ((inl refl, refl), tt)

-- What is printed are loads and stores of 8 bytes.
abbrev Prints : Ended → Type 0
Prints (printed es) = All MovesWord es
Prints _ = Unit

if-Prints : (b : Bool) (x y : Ended) → Prints x → Prints y → Prints (if b then x else y)
if-Prints true x y h k = h
if-Prints false x y h k = k

with_elements-Prints :
    (bytes : ℤ) (body : ℕ → Ended) → ((n : ℕ) → Prints (body n)) → Prints (with_elements bytes body)
unfolding with_elements
with_elements-Prints (pos n) body h = h n
with_elements-Prints (negsuc n) body h = if-Prints ((n + 1) / 8 == 0) (body 0) uncaught (h 0) tt

module _ (m : Machine) where
  run_matmul-Prints : (n : ℤ) → Prints (run_matmul m n)
  unfolding run_matmul
  run_matmul-Prints n =
      if-Prints (ltb max_elements (magnitude n * magnitude n)) uncaught _ tt
        (matmul-MovesWord m.a m.b m.c (pos_part n))

  run_listwalk-Prints : (nodes steps : ℤ) → Prints (run_listwalk m nodes steps)
  unfolding run_listwalk listwalk
  run_listwalk-Prints (negsuc n) steps = tt
  run_listwalk-Prints (pos zero) steps = tt
  run_listwalk-Prints (pos (suc n)) steps = walk-MovesWord m.pool _ (pos_part steps) _

  run_seqscan-Prints : (bytes passes : ℤ) → Prints (run_seqscan m bytes passes)
  unfolding run_seqscan
  run_seqscan-Prints bytes passes =
      with_elements-Prints bytes (λ size. printed (seqscan m.array size (pos_part passes)))
        (λ size. seqscan-MovesWord m.array size (pos_part passes))

  run_randscan-Prints : (bytes count : ℤ) → Prints (run_randscan m bytes count)
  unfolding run_randscan
  run_randscan-Prints bytes count = with_elements-Prints bytes _ λ size.
      if-Prints (size / 8 == 0) _ _ (if-Prints (pos_part count == 0) (printed []) undefined tt tt)
        (randscan-MovesWord (m.pick (size / 8)) m.array (pos_part count))

  main-Prints : (args : List String) → Prints (main m args)
  unfolding main
  main-Prints [] = tt
  main-Prints (kind ∷ []) = tt
  main-Prints (kind ∷ x ∷ []) =
      if-Prints (is kind "matmul") (run_matmul m (m.atoi x)) (refused usage)
        (run_matmul-Prints (m.atoi x)) tt
  main-Prints (kind ∷ x ∷ y ∷ []) =
      if-Prints (is kind "listwalk") (run_listwalk m (m.atoi x) (m.atoi y)) _
        (run_listwalk-Prints (m.atoi x) (m.atoi y))
        (if-Prints (is kind "seqscan") (run_seqscan m (m.atol x) (m.atoi y)) _
          (run_seqscan-Prints (m.atol x) (m.atoi y))
          (if-Prints (is kind "randscan") (run_randscan m (m.atol x) (m.atol y)) (refused usage)
            (run_randscan-Prints (m.atol x) (m.atol y)) tt))
  main-Prints (kind ∷ x ∷ y ∷ z ∷ rest) = tt

words-IsDataAccess :
    (es : List Emitted) → All MovesWord es → All (λ e. e.addr < u64_mod) es → All IsDataAccess es
words-IsDataAccess [] h k = tt
words-IsDataAccess (e ∷ es) h k = ((h.0.0, k.0, h.0.1), words-IsDataAccess es h.1 k.1)

-- The text of loads and stores of 8 bytes at 64-bit addresses is read as these accesses.
pub file-records :
    (es : List Emitted) → All IsDataAccess es → records (split_lines (print_file es)) ≡ recorded es
file-records es accesses =
    ap records (split_lines-print_file es accesses) ∙ records-print_lines es accesses

-- If main of tracegen, whatever its arguments are, ends after calls of emit with 64-bit addresses, the
-- simulator splits the file that they print into exactly one line for each call, and reads these lines
-- as exactly these accesses, in order.
pub main-records :
    (m : Machine) (args : List String) (es : List Emitted)
    → main m args ≡ printed es
    → All (λ e. e.addr < u64_mod) es
    → (split_lines (print_file es) ≡ print_lines es)
      × (records (split_lines (print_file es)) ≡ recorded es)
main-records m args es ran words =
    let sized : All MovesWord es = subst (λ r. Prints r) ran (main-Prints m args) in
    let accesses = words-IsDataAccess es sized words in
    (split_lines-print_file es accesses, file-records es accesses)
