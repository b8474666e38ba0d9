-- ===== src/Trace/Reader.antt =====
-- src/trace_reader.cpp: opName and TraceReader::next. The stream is the list of the lines that
-- std::getline has still to return; the caller does not look at its record after `false`.
use mathlib.Core.Option
use cache_hierarchy_simulato.Prelude.{
  ℕ, zero, suc, ◌%◌, ◌^◌, List, [], ◌∷◌, Option, none, some, ◌==◌, if◌then◌else◌,
}
use cache_hierarchy_simulato.Text.{Text, codes, drop_blank, trim_end, stoull}
use cache_hierarchy_simulato.Trace.{Op, read, write, modify, instr, Access}

unfoldable pub op_name : Op → Text
op_name read = codes "R"
op_name write = codes "W"
op_name modify = codes "M"
op_name instr = codes "I"

-- The lines of a file as getline splits them.
unfoldable pub split_lines : Text → List Text
split_lines [] = []
split_lines (c ∷ cs) =
    if c == 10
    then [] ∷ split_lines cs
    else elim (split_lines cs) [ [] ↦ (c ∷ []) ∷ [] | l ∷ ls ↦ (c ∷ l) ∷ ls ]

-- `if (!line.empty() && line.back() == '\r') line.pop_back();`
unfoldable pub strip_cr : Text → Text
strip_cr [] = []
strip_cr (c ∷ []) = if c == 13 then [] else c ∷ []
strip_cr (c ∷ d ∷ cs) = c ∷ strip_cr (d ∷ cs)

-- The switch on the operation character.
unfoldable pub op_of : ℕ → Option Op
op_of c =
    if c == b'L'
    then some read
    else (if c == b'S'
        then some write
        else (if c == b'M'
            then some modify
            else (if c == b'I'
                then some instr
                else (if c == b'R' then some read else (if c == b'W' then some write else none)))))

-- The operation, and the rest of the line after its character.
unfoldable pub parse_op : Text → Option (Op × Text)
parse_op [] = none
parse_op (c ∷ cs) = if c == b'I' then some (instr, cs) else elim (drop_blank (c ∷ cs)) [
  | [] ↦ none
  | x ∷ rest ↦ Option.map (λ op. (op, rest)) (op_of x)
]

-- What stands before and after the first comma; nothing after it if there is none.
unfoldable pub split_comma : Text → Text × Text
split_comma [] = ([], [])
split_comma (c ∷ cs) =
    let (before, after) = split_comma cs in if c == b',' then ([], cs) else (c ∷ before, after)

-- The size, 1 if there is none, as a 32-bit number.
unfoldable pub parse_size : Text → Option ℕ
parse_size [] = some 1
parse_size (c ∷ cs) = Option.map (λ n. n % 2 ^ 32) (stoull 10 (c ∷ cs))

-- The two numbers of a record; none where the `catch` skips the line.
unfoldable pub parse_numbers : Op → Text → Text → Option Access
unfolding parse_size
parse_numbers op addr size = elim (stoull 16 addr) [
  | none ↦ none
  | some a ↦ Option.map (λ s. record { op = op; addr = a; size = s }) (parse_size size)
]

-- The body of the loop: the record of a line, none where it says `continue`.
unfoldable pub parse_line : Text → Option Access
unfolding strip_cr split_comma
parse_line line = elim (parse_op (strip_cr line)) [
  | none ↦ none
  | some p ↦
      let (addr, size) = split_comma p.1 in
      elim (trim_end (drop_blank addr)) [ [] ↦ none | c ∷ cs ↦ parse_numbers p.0 (c ∷ cs) size ]
]

-- TraceReader::next
unfoldable pub next : List Text → Option (Access × List Text)
next [] = none
next (line ∷ lines) = elim (parse_line line) [ none ↦ next lines | some a ↦ some (a, lines) ]

-- `while (reader.next(a))` of main, with the records that it hands to `feed`.
unfoldable pub read_all : ℕ → List Text → List Access
read_all zero lines = []
read_all (suc fuel) lines = elim (next lines) [ none ↦ [] | some p ↦ p.0 ∷ read_all fuel p.1 ]
