-- ===== src/Report/Json.antt =====
-- CacheHierarchy::reportJson of src/hierarchy.cpp. The text is one JSON object and the end of a line.
pub mod Escape
pub mod Scan
pub mod Balance
use Prim.Native.String.{String}
use cache_hierarchy_simulato.Prelude.{
  ℕ, zero, suc, Bool, true, false, List, [], ◌∷◌, ◌++◌, ◌||◌, ◌==◌, if◌then◌else◌,
}
use cache_hierarchy_simulato.Text.{Text, codes}
use cache_hierarchy_simulato.Memory.{Memory}
use cache_hierarchy_simulato.Cache.{Cache}
use cache_hierarchy_simulato.Hierarchy.{Levels, CacheHierarchy}
use cache_hierarchy_simulato.Report.Stream.{StreamFormat, restore_flags}
use cache_hierarchy_simulato.Report.{
  Double, labelled, field, repl_str, write_name, alloc_name, rate, miss_rate, hit_rate,
  compute_amat,
}

-- jsonEscape
unfoldable pub json_escape : Text → Text
json_escape [] = []
json_escape (c ∷ cs) =
    if c == b'\\' || c == b'"' then b'\\' ∷ c ∷ json_escape cs else c ∷ json_escape cs

-- `label << "\"" << text << "\""`
unfoldable pub quoted : String → Text → Text
quoted label text = labelled label (b'"' ∷ (text ++ (b'"' ∷ [])))

module _ {W : Type 0} (d : Double W) (show : StreamFormat → W → Text) (f : StreamFormat) where
  -- The object of one level, in a hierarchy that has served `total` accesses.
  unfoldable pub json_level : ℕ → Cache W → Text
  json_level total c =
      let s = c.stats in
      quoted "{\"name\":" (codes c.cfg.name)
      ++ field f ",\"size\":" c.cfg.size_bytes
      ++ field f ",\"block\":" c.cfg.block_size
      ++ field f ",\"assoc\":" c.cfg.associativity
      ++ quoted ",\"repl\":" (codes (repl_str c.cfg.replacement))
      ++ quoted ",\"write\":" (codes (write_name c.cfg.write_policy))
      ++ quoted ",\"alloc\":" (codes (alloc_name c.cfg.alloc_policy))
      ++ labelled ",\"hitTime\":" (show f c.cfg.hit_time)
      ++ labelled ",\"classify3c\":" (codes (if c.cfg.classify_3c then "true" else "false"))
      ++ field f ",\"accesses\":" s.accesses
      ++ field f ",\"hits\":" s.hits
      ++ field f ",\"misses\":" s.misses
      ++ field f ",\"reads\":" s.reads
      ++ field f ",\"writes\":" s.writes
      ++ field f ",\"writebacks\":" s.writebacks
      ++ labelled ",\"hitRate\":" (show f (hit_rate d s))
      ++ labelled ",\"missRate\":" (show f (miss_rate d s))
      ++ labelled ",\"globalMissRate\":" (show f (rate d s.misses total))
      ++ field f ",\"compulsory\":" s.compulsory
      ++ field f ",\"capacity\":" s.capacity
      ++ field f ",\"conflict\":" s.conflict
      ++ codes "}"

  -- The end of the array of levels, and the memory.
  unfoldable pub json_memory : Memory → Text
  json_memory m =
      field f "],\"memory\":{\"reads\":" m.reads ++ field f ",\"writes\":" m.writes ++ codes "}"

  -- The levels after the first one, each after a comma.
  unfoldable pub json_below : (n : ℕ) → ℕ → Levels W n → Text
  json_below zero total m = json_memory m
  json_below (suc n) total s = codes "," ++ json_level total s.0 ++ json_below n total s.1

module _ {W : Type 0} (d : Double W) (show : StreamFormat → W → Text) where
  -- CacheHierarchy::reportJson
  unfoldable pub report_json :
      StreamFormat → {n : ℕ} → Text → CacheHierarchy W n → Text × StreamFormat
  report_json f {n} path h =
      let total = h.world.level.0.stats.accesses in
      let g = record f { precision = 10 } in
      let text =
        quoted "{\"trace\":" (json_escape path)
        ++ (codes ",\"levels\":["
            ++ json_level d show g total h.world.level.0
            ++ json_below d show g n total h.world.level.1
            ++ labelled ",\"memTime\":" (show g h.mem_time)
            ++ labelled ",\"amat\":" (show g (compute_amat d h))
            ++ codes "}\n") in
      (text, restore_flags f g)
