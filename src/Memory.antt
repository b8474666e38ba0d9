-- ===== src/Memory.antt =====
-- include/memory.h and src/memory.cpp: the interface MemoryLevel and its terminal level Memory.
use cache_hierarchy_simulato.Prelude.{ℕ, Bool, true, if◌then◌else◌}
use cache_hierarchy_simulato.Word.{incr}

-- A level of type S with the state of the process that it reads: the calls of std::rand() so far.
pub record World (S : Type 0) : Type 0 where
  pub draws : ℕ
  pub level : S

-- The virtual method `access(addr, isWrite)` of a level: its result, and the state after it.
abbrev pub MemoryLevel : Type 0 → Type 0
MemoryLevel S = ℕ → Bool → World S → Bool × World S

pub record Memory : Type 0 where
  pub reads : ℕ
  pub writes : ℕ

unfoldable pub access : MemoryLevel Memory
access addr is_write w =
    let m = w.level in
    (
      true,
      record w {
        level =
            if is_write
            then record m { writes = incr m.writes }
            else record m { reads = incr m.reads };
      },
    )
