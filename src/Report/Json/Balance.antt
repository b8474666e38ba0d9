-- ===== src/Report/Json/Balance.antt =====
-- The quotes and the brackets of the JSON report.
use Prim.Native.String.{String}
use cache_hierarchy_simulato.Prelude.{
  ℕ, zero, suc, ◌≡◌, refl, Bool, true, false, List, [], ◌∷◌, some, All, if◌then◌else◌, arith,
}
use cache_hierarchy_simulato.Config.{
  ReplacementType, lru, fifo, random, WritePolicy, write_back, write_through, AllocPolicy,
  write_allocate, no_write_allocate,
}
use cache_hierarchy_simulato.Text.{Text, codes}
use cache_hierarchy_simulato.Memory.{Memory}
use cache_hierarchy_simulato.Cache.{Cache}
use cache_hierarchy_simulato.Hierarchy.{Levels, CacheHierarchy}
use cache_hierarchy_simulato.Report.Stream.{StreamFormat}
use cache_hierarchy_simulato.Report.{Double, labelled, repl_str, write_name, alloc_name}
use cache_hierarchy_simulato.Report.Json.{json_level, json_memory, json_below, report_json}
use cache_hierarchy_simulato.Report.Json.Scan.{
  outside, read_char, scan, Leads, ◌▹◌, is_plain, plain-Keeps, is_literal, literal-scan,
  escaped-scan, labelled-Leads, field-Leads, quoted-Leads,
}

repl-literal : (r : ReplacementType) → All (λ c. is_literal c ≡ true) (codes (repl_str r))
repl-literal lru = (refl, (refl, (refl, tt)))
repl-literal fifo = ground arith
repl-literal random = ground arith

write-literal : (w : WritePolicy) → All (λ c. is_literal c ≡ true) (codes (write_name w))
write-literal write_back = ground arith
write-literal write_through = ground arith

alloc-literal : (a : AllocPolicy) → All (λ c. is_literal c ≡ true) (codes (alloc_name a))
alloc-literal write_allocate = ground arith
alloc-literal no_write_allocate = ground arith

truth-plain : (b : Bool) → All (λ c. is_plain c ≡ true) (codes (if b then "true" else "false"))
truth-plain true = ground arith
truth-plain false = ground arith

-- The names of the levels stand between quotes as they are.
abbrev pub HasLiteralNames : (W : Type 0) (n : ℕ) → Levels W n → Type 0
HasLiteralNames W zero m = Unit
HasLiteralNames W (suc n) s =
    All (λ k. is_literal k ≡ true) (codes s.0.cfg.name) × HasLiteralNames W n s.1

module _ {W : Type 0} (d : Double W) (show : StreamFormat → W → Text)
    (show_plain : (f : StreamFormat) (x : W) → All (λ c. is_plain c ≡ true) (show f x))
    (f : StreamFormat) where
  show-Leads :
      (label : String) (x : W) {depth : List ℕ}
      → scan (codes label) (outside, depth) ≡ some (outside, depth)
      → Leads (labelled label (show f x)) (outside, depth) (outside, depth)
  show-Leads label x {depth} p =
      labelled-Leads label _ p ((plain-Keeps (show_plain f x)).keep depth)

  level-Leads :
      (total : ℕ) (c : Cache W) (depth : List ℕ)
      → All (λ k. is_literal k ≡ true) (codes c.cfg.name)
      → Leads (json_level d show f total c) (outside, depth) (outside, depth)
  unfolding json_level scan read_char
  level-Leads total c depth name =
      quoted-Leads _ _ refl (literal-scan (codes c.cfg.name) _ name)
      ▹ field-Leads f _ _ refl
      ▹ field-Leads f _ _ refl
      ▹ field-Leads f _ _ refl
      ▹ quoted-Leads _ _ refl (literal-scan _ _ (repl-literal c.cfg.replacement))
      ▹ quoted-Leads _ _ refl (literal-scan _ _ (write-literal c.cfg.write_policy))
      ▹ quoted-Leads _ _ refl (literal-scan _ _ (alloc-literal c.cfg.alloc_policy))
      ▹ show-Leads _ _ refl
      ▹ labelled-Leads _ _ refl ((plain-Keeps (truth-plain c.cfg.classify_3c)).keep _)
      ▹ field-Leads f _ _ refl
      ▹ field-Leads f _ _ refl
      ▹ field-Leads f _ _ refl
      ▹ field-Leads f _ _ refl
      ▹ field-Leads f _ _ refl
      ▹ field-Leads f _ _ refl
      ▹ show-Leads _ _ refl
      ▹ show-Leads _ _ refl
      ▹ show-Leads _ _ refl
      ▹ field-Leads f _ _ refl
      ▹ field-Leads f _ _ refl
      ▹ field-Leads f _ _ refl
      ▹ record { scanned = refl }

  memory-Leads :
      (m : Memory) (depth : List ℕ)
      → Leads (json_memory d show f m) (outside, b'[' ∷ depth) (outside, depth)
  unfolding json_memory scan read_char
  memory-Leads m depth = field-Leads f _ _ refl ▹ field-Leads f _ _ refl ▹ record { scanned = refl }

  below-Leads :
      (n total : ℕ) (s : Levels W n) (depth : List ℕ)
      → HasLiteralNames W n s
      → Leads (json_below d show f n total s) (outside, b'[' ∷ depth) (outside, depth)
  unfolding json_below scan read_char
  below-Leads zero total m depth names = memory-Leads m depth
  below-Leads (suc n) total s depth names =
      let comma : Leads (codes ",") (outside, b'[' ∷ depth) (outside, b'[' ∷ depth) = record {
        scanned = refl;
      } in
      comma ▹ level-Leads total s.0 (b'[' ∷ depth) names.0 ▹ below-Leads n total s.1 depth names.1

module _ {W : Type 0} (d : Double W) (show : StreamFormat → W → Text)
    (show_plain : (f : StreamFormat) (x : W) → All (λ c. is_plain c ≡ true) (show f x)) where
  -- If doubles are printed without quotes and brackets, and the levels have names without quotes
  -- and backslashes, then in the JSON report every string is closed and every bracket is closed by
  -- its counterpart, whatever the path of the trace and the format of the stream are.
  pub scan-report_json :
      (f : StreamFormat) {n : ℕ} (path : Text) (h : CacheHierarchy W n)
      → HasLiteralNames W (suc n) h.world.level
      → scan ((report_json d show f path h).0) (outside, []) ≡ some (outside, [])
  unfolding report_json scan read_char
  scan-report_json f {n} path h names =
      let g = record f { precision = 10 } in
      let total = h.world.level.0.stats.accesses in
      let levels : Leads (codes ",\"levels\":[") (outside, b'{' ∷ []) (outside, b'[' ∷ b'{' ∷ []) =
        record { scanned = refl } in
      let whole : Leads ((report_json d show f path h).0) (outside, []) (outside, []) =
        quoted-Leads _ _ refl (escaped-scan path _)
        ▹ (levels
            ▹ level-Leads d show show_plain g total h.world.level.0 _ names.0
            ▹ below-Leads d show show_plain g n total h.world.level.1 _ names.1
            ▹ show-Leads d show show_plain g _ _ refl
            ▹ show-Leads d show show_plain g _ _ refl
            ▹ record { scanned = refl }) in
      whole.scanned
