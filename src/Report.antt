-- ===== src/Report.antt =====
-- The reports: the rates of include/stats.h, Cache::report of src/cache.cpp, Memory::report of
-- src/memory.cpp, replName of src/replacement.cpp, and computeAMAT and the two reports of
-- src/hierarchy.cpp. A report is the text that it writes. `double` is an interface of the operations
-- that the code uses, and `show` prints one on a stream of the given format.
pub mod Stream
pub mod Json
pub mod Amat
pub mod Runs
use Prim.Native.String.{String}
use cache_hierarchy_simulato.Prelude.{
  ℕ, zero, suc, Bool, true, false, List, [], ◌∷◌, ◌++◌, ◌||◌, ◌==◌, if◌then◌else◌,
}
use cache_hierarchy_simulato.Config.{
  ReplacementType, lru, fifo, random, WritePolicy, write_back, write_through, AllocPolicy,
  write_allocate, no_write_allocate, CacheConfig, Stats,
}
use cache_hierarchy_simulato.Text.{Text, codes}
use cache_hierarchy_simulato.Memory.{Memory}
use cache_hierarchy_simulato.Cache.{Cache}
use cache_hierarchy_simulato.Trace.Format.{print_number}
use cache_hierarchy_simulato.Report.Stream.{
  StreamFormat, radix, set_hex, set_dec, set_fixed, restore_flags,
}
use cache_hierarchy_simulato.Hierarchy.{Levels, Echo, CacheHierarchy}

pub record Double (W : Type 0) : Type 0 where
  pub nought : W
  pub hundred : W
  pub of_u64 : ℕ → W
  pub add : W → W → W
  pub mul : W → W → W
  pub div : W → W → W

-- `label << text` and `label << number`
unfoldable pub labelled : String → Text → Text
labelled label t = codes label ++ t

abbrev pub field : StreamFormat → String → ℕ → Text
field f label n = labelled label (print_number (radix f) n)

-- replName of src/replacement.cpp, and replStr of src/hierarchy.cpp
abbrev pub repl_name : ReplacementType → String
repl_name lru = "LRU"
repl_name fifo = "FIFO"
repl_name random = "Random"

abbrev pub repl_str : ReplacementType → String
repl_str lru = "lru"
repl_str fifo = "fifo"
repl_str random = "random"

abbrev pub write_name : WritePolicy → String
write_name write_back = "back"
write_name write_through = "through"

abbrev pub alloc_name : AllocPolicy → String
alloc_name write_allocate = "allocate"
alloc_name no_write_allocate = "no-allocate"

-- Memory::report
abbrev pub report_memory : StreamFormat → Memory → Text
report_memory f m = field f "Memory: reads=" m.reads ++ field f " writes=" m.writes ++ codes "\n"

module _ {W : Type 0} (d : Double W) where
  -- `total ? double(count) / double(total) : 0.0`
  abbrev pub rate : ℕ → ℕ → W
  rate count total = if total == 0 then d.nought else d.div (d.of_u64 count) (d.of_u64 total)

  -- Stats::missRate and Stats::hitRate
  unfoldable pub miss_rate : Stats → W
  miss_rate s = rate s.misses s.accesses

  unfoldable pub hit_rate : Stats → W
  hit_rate s = rate s.hits s.accesses

  -- CacheHierarchy::computeAMAT: the fold from the memory upwards
  unfoldable pub amat_levels : (n : ℕ) → W → Levels W n → W
  amat_levels zero mem_time m = mem_time
  amat_levels (suc n) mem_time s =
      d.add s.0.cfg.hit_time (d.mul (miss_rate s.0.stats) (amat_levels n mem_time s.1))

  unfoldable pub compute_amat : {n : ℕ} → CacheHierarchy W n → W
  unfolding amat_levels
  compute_amat {n} h = amat_levels (suc n) h.mem_time h.world.level

  module _ (show : StreamFormat → W → Text) where
    -- `label << rate * 100.0 << "%"`
    abbrev percent : StreamFormat → String → W → Text
    percent f label r = codes label ++ (show f (d.mul r d.hundred) ++ codes "%")

    organisation : Cache W → String
    organisation c =
        if c.cfg.associativity == 1
        then "direct-mapped"
        else (if c.num_sets == 1 then "fully-associative" else "set-associative")

    -- Cache::report
    unfoldable pub report : StreamFormat → Cache W → Text × StreamFormat
    unfolding organisation
    report f c =
        let s = c.stats in
        let g = set_fixed f in
        let text =
          codes c.cfg.name
          ++ (labelled " (" (codes (organisation c)))
          ++ (field f ", size=" c.cfg.size_bytes ++ codes "B")
          ++ (field f ", block=" c.cfg.block_size ++ codes "B")
          ++ field f ", sets=" c.num_sets
          ++ field f ", assoc=" c.cfg.associativity
          ++ (labelled ", repl=" (codes (repl_name c.cfg.replacement)))
          ++ (labelled ", write=" (codes (write_name c.cfg.write_policy)))
          ++ (labelled ", alloc=" (codes (alloc_name c.cfg.alloc_policy)))
          ++ codes ")\n"
          ++ field f "  bits: offset=" c.offset_bits
          ++ field f " index=" c.index_bits
          ++ (field f " tag=" c.tag_bits ++ codes "\n")
          ++ field g "  accesses=" s.accesses
          ++ field g " hits=" s.hits
          ++ field g " misses=" s.misses
          ++ field g " (reads=" s.reads
          ++ field g " writes=" s.writes
          ++ (field g " writebacks=" s.writebacks ++ codes ")")
          ++ percent g "  hitRate=" (hit_rate s)
          ++ (percent g " missRate=" (miss_rate s) ++ codes "\n")
          ++ (if c.cfg.classify_3c
              then field g "  3C: compulsory=" s.compulsory
                ++ field g " capacity=" s.capacity
                ++ (field g " conflict=" s.conflict ++ codes "\n")
              else []) in
        (text, restore_flags f g)

    -- The first loop of reportAll, with the memory after it.
    report_levels : StreamFormat → (n : ℕ) → ℕ → Levels W n → Text × StreamFormat
    report_levels f zero total m = (report_memory f m, f)
    report_levels f (suc n) total s =
        let (text, g) = report f s.0 in
        let (rest, k) = report_levels g n total s.1 in
        (
          text
              ++ percent g "  global missRate=" (rate s.0.stats.misses total)
              ++ (field g " (misses / " total ++ codes " CPU accesses)\n")
              ++ rest,
          k,
        )

    hit_times : StreamFormat → (n : ℕ) → Levels W n → Text
    hit_times f zero m = []
    hit_times f (suc n) s =
        codes ", "
        ++ codes s.0.cfg.name
        ++ (labelled "-hit=" (show f s.0.cfg.hit_time))
        ++ hit_times f n s.1

    -- CacheHierarchy::reportAll
    unfoldable pub report_all : StreamFormat → {n : ℕ} → CacheHierarchy W n → Text × StreamFormat
    unfolding report_levels hit_times
    report_all f {n} h =
        let levels = h.world.level in
        let (text, g) = report_levels (set_fixed f) (suc n) levels.0.stats.accesses levels in
        (
          text
              ++ (labelled "AMAT = " (show g (compute_amat h)))
              ++ (labelled " cycles (mem=" (show g h.mem_time))
              ++ hit_times g (suc n) levels
              ++ codes ")\n",
          restore_flags f g,
        )

-- The line of the verbose log that CacheHierarchy::one writes, and the stream after it.
unfoldable pub echo_line : StreamFormat → Echo → Text × StreamFormat
echo_line f e =
    let address_format = set_hex f in
    let set_format = set_dec address_format in
    let tag_format = set_hex set_format in
    (
      field f "#" e.number
          ++ (labelled " " (e.opcode ∷ []))
          ++ field address_format " addr=0x" e.addr
          ++ field address_format " blk=0x" e.block
          ++ field set_format " set=" e.set_index
          ++ field tag_format " tag=0x" e.tag
          ++ codes " -> "
          ++ codes (if e.hit then "HIT" else "MISS")
          ++ codes "\n",
      set_dec tag_format,
    )
