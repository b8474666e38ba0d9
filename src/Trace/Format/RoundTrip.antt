-- ===== src/Trace/Format/RoundTrip.antt =====
-- emit of scripts/tracegen.cpp against TraceReader::next.
use cache_hierarchy_simulato.Prelude.{
  ℕ, ◌^◌, ◌<◌, ◌≡◌, refl, ap, ◌∙◌, false, [], ◌∷◌, ◌++◌, none, some, ◌==◌, All, arith, length,
}
use cache_hierarchy_simulato.Word.{u64_mod}
use cache_hierarchy_simulato.Text.{Text, is_blank, digit_value, drop_blank, trim_end, stoull}
use cache_hierarchy_simulato.Trace.{Op}
use cache_hierarchy_simulato.Trace.Reader.{
  op_of, strip_cr, parse_op, split_comma, parse_size, parse_numbers, parse_line,
}
use cache_hierarchy_simulato.Trace.Format.{print_number, emit}
use cache_hierarchy_simulato.Trace.Format.Digits.{
  AreDigits, AreDigits-le, print_number-AreDigits, print_number-length, stoull-print_number,
}

digit_plain :
    (c : ℕ)
    → digit_value c < 16
    → ((c == 13) ≡ false) × ((c == b',') ≡ false) × (is_blank c ≡ false)
digit_plain c h = ground arith

-- No character of the text is a carriage return.
HasNoCr : Text → Type 0
HasNoCr t = All (λ c. (c == 13) ≡ false) t

digits-HasNoCr : (t s : Text) → AreDigits 16 t → HasNoCr s → HasNoCr (t ++ s)
unfolding HasNoCr
digits-HasNoCr [] s h p = p
digits-HasNoCr (c ∷ cs) s h p = ((digit_plain c h.0).0, digits-HasNoCr cs s h.1 p)

digits-HasNoCr_only : (t : Text) → AreDigits 16 t → HasNoCr t
unfolding HasNoCr
digits-HasNoCr_only [] h = tt
digits-HasNoCr_only (c ∷ cs) h = ((digit_plain c h.0).0, digits-HasNoCr_only cs h.1)

strip_cr-none : (t : Text) → HasNoCr t → strip_cr t ≡ t
unfolding strip_cr HasNoCr
strip_cr-none [] h = refl
strip_cr-none (c ∷ []) h = rw h.0 refl
strip_cr-none (c ∷ d ∷ cs) h = ap (λ t. c ∷ t) (strip_cr-none (d ∷ cs) h.1)

split_comma-digits : (t s : Text) → AreDigits 16 t → split_comma (t ++ b',' ∷ s) ≡ (t, s)
unfolding split_comma
split_comma-digits [] s h = refl
split_comma-digits (c ∷ cs) s h = rw (split_comma-digits cs s h.1, (digit_plain c h.0).1) refl

trim_end-cons : (c x : ℕ) (t xs : Text) → trim_end t ≡ x ∷ xs → trim_end (c ∷ t) ≡ c ∷ x ∷ xs
unfolding trim_end
trim_end-cons c x t xs e = rw e refl

trim_end-digits : (t : Text) → AreDigits 16 t → trim_end t ≡ t
unfolding trim_end
trim_end-digits [] h = refl
trim_end-digits (c ∷ []) h = rw (digit_plain c h.0).2 refl
trim_end-digits (c ∷ d ∷ cs) h = trim_end-cons c d (d ∷ cs) cs (trim_end-digits (d ∷ cs) h.1)

drop_blank-digits : (t : Text) → AreDigits 16 t → drop_blank (32 ∷ t) ≡ t
unfolding drop_blank
drop_blank-digits [] h = refl
drop_blank-digits (c ∷ cs) h = rw (digit_plain c h.0).2 refl

op_plain : (c : ℕ) (op : Op) → op_of c ≡ some op → ((c == 13) ≡ false) × (is_blank c ≡ false)
unfolding op_of
op_plain c op h = ground arith

parse_op-emit :
    (c : ℕ) (op : Op) (rest : Text) → op_of c ≡ some op → parse_op (32 ∷ c ∷ rest) ≡ some (op, rest)
unfolding parse_op drop_blank
parse_op-emit c op rest h = rw ((op_plain c op h).1, h) refl

parse_size-digits :
    (t : Text) (n : ℕ) → 0 < length t → n < 2 ^ 32 → stoull 10 t ≡ some n → parse_size t ≡ some n
unfolding parse_size
parse_size-digits [] n some_digit h e = absurd (omega arith)
parse_size-digits (c ∷ cs) n some_digit h e = rw e (ap some (omega arith))

-- The numbers of a line, once its operation is known.
parse_numbers-digits :
    (op : Op) (a s : Text) (addr size : ℕ)
    → 0 < length a
    → stoull 16 a ≡ some addr
    → parse_size s ≡ some size
    → elim a [ [] ↦ none | c ∷ cs ↦ parse_numbers op (c ∷ cs) s ]
      ≡ some (record { op = op; addr = addr; size = size })
unfolding parse_numbers
parse_numbers-digits op [] s addr size some_digit e e' = absurd (omega arith)
parse_numbers-digits op (c ∷ cs) s addr size some_digit e e' = rw (parse_numbers, e, e') refl

-- The parts of a line, put together.
parse_line-parts :
    (line rest a : Text) (op : Op) (addr size : ℕ)
    → parse_op (strip_cr line) ≡ some (op, rest)
    → trim_end (drop_blank (split_comma rest).0) ≡ a
    → 0 < length a
    → stoull 16 a ≡ some addr
    → parse_size (split_comma rest).1 ≡ some size
    → parse_line line ≡ some (record { op = op; addr = addr; size = size })
unfolding parse_line
parse_line-parts line rest a op addr size h trim some_digit e e' =
    rw (parse_line, h, trim)
      (parse_numbers-digits op a (split_comma rest).1 addr size some_digit e e')

split_comma-blank : (t s : Text) → AreDigits 16 t → split_comma (32 ∷ (t ++ b',' ∷ s)) ≡ (32 ∷ t, s)
unfolding split_comma
split_comma-blank t s h = rw (split_comma-digits t s h) refl

-- A line that tracegen prints for a character that names an operation, a 64-bit address and a
-- 32-bit size is read as the record of that operation, address and size.
pub parse_line-emit :
    (c : ℕ) (op : Op) (addr size : ℕ)
    → op_of c ≡ some op
    → addr < u64_mod
    → size < 2 ^ 32
    → parse_line (emit c addr size) ≡ some (record { op = op; addr = addr; size = size })
unfolding emit HasNoCr
parse_line-emit c op addr size named word small =
    let a = print_number 16 addr in
    let s = print_number 10 size in
    let hex = print_number-AreDigits 16 addr (omega arith) (omega arith) in
    let dec =
      AreDigits-le 10 s (omega arith)
        (print_number-AreDigits 10 size (omega arith) (omega arith)) in
    let no_cr : HasNoCr s = digits-HasNoCr_only s dec in
    let plain : HasNoCr (emit c addr size) =
      (refl, ((op_plain c op named).0, (refl, digits-HasNoCr a (b',' ∷ s) hex (refl, no_cr)))) in
    let rest = 32 ∷ (a ++ b',' ∷ s) in
    let split = split_comma-blank a s hex in
    parse_line-parts (emit c addr size) rest a op addr size
      (ap parse_op (strip_cr-none (emit c addr size) plain) ∙ parse_op-emit c op rest named)
      (rw split (ap trim_end (drop_blank-digits a hex) ∙ trim_end-digits a hex))
      (print_number-length 16 addr (omega arith) (omega arith))
      (stoull-print_number 16 addr (omega arith) (omega arith) word)
      (rw split (
        parse_size-digits s size (print_number-length 10 size (omega arith) (omega arith)) small
          (stoull-print_number 10 size (omega arith) (omega arith) (omega arith))))
