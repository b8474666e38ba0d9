-- ===== src/Trace.antt =====
-- include/trace_reader.h: Op and Access, one record of a memory trace.
pub mod Reader
pub mod Format
pub mod Stream
use cache_hierarchy_simulato.Prelude.{ℕ}

pub data Op : Type 0 where
  read write modify instr : Op

pub record Access : Type 0 where
  pub op : Op
  pub addr : ℕ
  pub size : ℕ
