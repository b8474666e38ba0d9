-- ===== src/Tests/Parsing.antt =====
-- The reader of traces and the printer of numbers at concrete texts.
use cache_hierarchy_simulato.Prelude.{List, [], arith, refl, some, ◌∷◌, ◌≡◌}
use cache_hierarchy_simulato.Trace.{read, write, modify, instr}
use cache_hierarchy_simulato.Text.{Text, codes, stoull, trim_end, drop_blank}
use cache_hierarchy_simulato.Trace.Reader.{op_of, parse_line, parse_op, parse_numbers, read_all}
use cache_hierarchy_simulato.Trace.Format.{emit, print_number, print_loop}
use cache_hierarchy_simulato.Trace.Format.Digits.{stoull-print_number}
use cache_hierarchy_simulato.Trace.Format.RoundTrip.{parse_line-emit}
use cache_hierarchy_simulato.Trace.Stream.{records, read_all-records}

store_named : op_of b'S' ≡ some write
unfolding op_of
store_named = refl

parse_line-emit_example :
    parse_line (emit b'S' 140737488355327 8)
    ≡ some (record { op = write; addr = 140737488355327; size = 8 })
parse_line-emit_example =
    parse_line-emit b'S' write 140737488355327 8 store_named (omega arith) (omega arith)

stoull-print_number_example : stoull 16 (print_number 16 48879) ≡ some 48879
stoull-print_number_example = stoull-print_number 16 48879 (omega arith) (omega arith) (omega arith)

printed : print_number 16 48879 ≡ codes "beef"
unfolding print_number print_loop
printed = refl

abbrev file : List Text
file = codes "I 0400d7d4,8" ∷ codes " L 7f,8" ∷ [] ∷ codes "==note" ∷ codes " M 1F" ∷ []

read_all-records_example : read_all 6 file ≡ records file
read_all-records_example = read_all-records 6 file (omega arith)

file-records : records file ≡ (
    record { op = instr; addr = 67164116; size = 8 }
    ∷ record { op = read; addr = 127; size = 8 }
    ∷ record { op = modify; addr = 31; size = 1 }
    ∷ [])
unfolding records parse_line parse_op parse_numbers op_of stoull trim_end drop_blank
file-records = refl

-- What follows the digits is ignored, and a sign is accepted.
malformed :
    (parse_line (codes " L 7fzz,8") ≡ some (record { op = read; addr = 127; size = 8 }))
    × (parse_line (codes " L -1,8")
        ≡ some (record { op = read; addr = 18446744073709551615; size = 8 }))
unfolding parse_line parse_op parse_numbers op_of stoull trim_end drop_blank
malformed = (refl, refl)
