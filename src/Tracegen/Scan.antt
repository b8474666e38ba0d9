-- ===== src/Tracegen/Scan.antt =====
-- What the simulator reads of the text that tracegen prints.
use cache_hierarchy_simulato.Prelude.{
  ℕ, suc, ◌<◌, ◌≡◌, ◌⊎◌, inl, inr, refl, ap, ◌∙◌, List, [], ◌∷◌, some, All, arith, length, ◌==◌,
  if◌then◌else◌,
}
use cache_hierarchy_simulato.Word.{u64_mod}
use cache_hierarchy_simulato.Trace.{read, write, Access}
use cache_hierarchy_simulato.Trace.Reader.{op_of, read_all}
use cache_hierarchy_simulato.Trace.Stream.{records, read_all-records}
use cache_hierarchy_simulato.Trace.Format.RoundTrip.{parse_line-emit}
use cache_hierarchy_simulato.Tracegen.{Emitted, print_lines}

-- A load or store of 8 bytes at a 64-bit address.
abbrev pub IsDataAccess : Emitted → Type 0
IsDataAccess e = ((e.op ≡ b'L') ⊎ (e.op ≡ b'S')) × (e.addr < u64_mod) × (e.size ≡ 8)

-- The record of the simulator for a call of emit.
abbrev pub recorded : List Emitted → List Access
recorded [] = []
recorded (e ∷ es) =
    record { op = if e.op == b'L' then read else write; addr = e.addr; size = e.size } ∷ recorded es

op_of-data : (c : ℕ) → (c ≡ b'L') ⊎ (c ≡ b'S') → op_of c ≡ some (if c == b'L' then read else write)
unfolding op_of
op_of-data c (inl h) = ground arith
op_of-data c (inr h) = ground arith

pub records-print_lines :
    (es : List Emitted) → All IsDataAccess es → records (print_lines es) ≡ recorded es
unfolding records print_lines
records-print_lines [] h = refl
records-print_lines (e ∷ es) ((kind, word, size), h) =
    let line =
      parse_line-emit e.op (if e.op == b'L' then read else write) e.addr e.size
        (op_of-data e.op kind) word (omega arith) in
    rw (line, records)
      (ap
        (λ (found : List Access).
          record { op = if e.op == b'L' then read else write; addr = e.addr; size = e.size }
          ∷ found)
        (records-print_lines es h))

-- The simulator reads the lines of a workload whose calls of emit are loads and stores of 8 bytes at
-- 64-bit addresses as exactly these accesses, in order.
pub read_all-print_lines :
    (es : List Emitted)
    → All IsDataAccess es
    → read_all (suc (length (print_lines es))) (print_lines es) ≡ recorded es
read_all-print_lines es h =
    read_all-records (suc (length (print_lines es))) (print_lines es) (omega arith)
    ∙ records-print_lines es h
