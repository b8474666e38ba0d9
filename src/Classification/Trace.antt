-- ===== src/Classification/Trace.antt =====
-- The compulsory misses of the first level for a whole trace.
use mathlib.Core.Path.{subst}
use native.Mathlib.Nat.{mod-eq_of_lt}
use cache_hierarchy_simulato.Prelude.{
  ℕ, suc, ◌+◌, ◌/◌, ◌≤◌, ◌<◌, ◌≡◌, refl, ap, sym, ◌∙◌, Bool, true, false, List, [], ◌∷◌,
  if◌then◌else◌, contains, arith, length, inl, inr, Option-cases,
}
use cache_hierarchy_simulato.Word.{u64_mod, incr}
use cache_hierarchy_simulato.Config.{CacheConfig}
use cache_hierarchy_simulato.RefFaCache.Verdicts.{Models-empty}
use cache_hierarchy_simulato.Memory.{World, MemoryLevel}
use cache_hierarchy_simulato.Cache.{Cache, Decoded, decode, ok, build, lines_of}
use cache_hierarchy_simulato.Cache.Shape.{IsShaped}
use cache_hierarchy_simulato.Cache.Construct.{IsWords, build-IsShaped}
use cache_hierarchy_simulato.Cache.Decode.{decode-arithmetic}
use cache_hierarchy_simulato.Access
use cache_hierarchy_simulato.Access.{find_way}
use cache_hierarchy_simulato.Access.Search.{find_way-holds}
use cache_hierarchy_simulato.Access.Resident.{resident}
use cache_hierarchy_simulato.Access.Residency.{access-resident}
use cache_hierarchy_simulato.Access.Sound.{IsSound, build-IsSound, access-IsSound, fresh-invalid}
use cache_hierarchy_simulato.Access.Transition.{access-Transition}
use cache_hierarchy_simulato.Classification.{Tally, count_class, stack_of, distinct, miss_class}
use cache_hierarchy_simulato.Classification.Shadow.{tally, Transition-SameGeometry}
use cache_hierarchy_simulato.Classification.History.{Tracks, total_lines, access-classified}
use cache_hierarchy_simulato.Trace.{Op, read, write, modify, instr}
use cache_hierarchy_simulato.Trace
use cache_hierarchy_simulato.Hierarchy.First.{references, run-first}
use cache_hierarchy_simulato.Hierarchy.{CacheHierarchy, construct_hierarchy, run}

-- The blocks of a row of addresses.
abbrev pub blocks_of : ℕ → List ℕ → List ℕ
blocks_of size [] = []
blocks_of size (a ∷ before) = (a / size) ∷ blocks_of size before

pub length-blocks_of : (size : ℕ) (l : List ℕ) → length (blocks_of size l) ≡ length l
length-blocks_of size [] = refl
length-blocks_of size (a ∷ l) = ap suc (length-blocks_of size l)

distinct-le : (h : List ℕ) → distinct h ≤ length h
unfolding distinct
distinct-le [] = omega arith
distinct-le (b ∷ h) = ground (arith, distinct-le h)

-- The compulsory misses grow at a block that the history does not hold.
first_touch :
    (r : Bool) (size : ℕ) (h : List ℕ) (b : ℕ) (t : Tally)
    → (r ≡ true → contains b h ≡ true)
    → (if r then t else count_class (miss_class size h b) t).compulsory
      ≡ (if contains b h then t.compulsory else incr t.compulsory)
unfolding miss_class
first_touch true size h b t known = rw (known refl) refl
first_touch false size h b t known = ground arith

distinct-grows :
    (b : ℕ) (h : List ℕ) (count : ℕ)
    → count ≡ distinct h
    → length h + 1 < u64_mod
    → (if contains b h then count else incr count) ≡ distinct (b ∷ h)
unfolding distinct
distinct-grows b h count same room =
    let tick : incr count ≡ count + 1 = mod-eq_of_lt (omega (arith, distinct-le h)) in ground arith

module _ {Double : Type 0} (size : ℕ) where
  -- The cache has served the accesses to the addresses, the newest first.
  pub record Served (before : List ℕ) (c : Cache Double) : Type 0 where
    pub sound : IsSound c
    pub block : (a : ℕ) → (decode c a).block_addr ≡ a / size
    pub tracks : Tracks (blocks_of size before) c
    pub first_touches : c.stats.compulsory ≡ distinct (blocks_of size before)

  pub access-Served :
      {S : Type 0} (rand : ℕ → ℕ) (next : MemoryLevel S) (addr : ℕ) (b : Bool) (c : Cache Double)
      (w : World S) (before : List ℕ)
      → length before + 1 < u64_mod
      → Served before c
      → Served (addr ∷ before) (Access.access rand next addr b c w).1
  access-Served rand next addr b c w before room s =
      let h = blocks_of size before in
      let room' : length h + 1 < u64_mod = omega (arith, length-blocks_of size before) in
      let (counters, tracks) =
        access-classified rand addr b s.tracks room' next w s.sound.shaped s.sound.unique in
      let b' = (decode c addr).block_addr in
      let known : (Access.access rand next addr b c w).0 ≡ true → contains b' h ≡ true =
        λ e. s.tracks.held addr (sym (access-resident rand next addr b c w) ∙ e) in
      let step =
        first_touch (Access.access rand next addr b c w).0 (total_lines c) h b' (tally c) known in
      let same = Transition-SameGeometry rand addr b (access-Transition rand addr b c next w) in
      record {
        sound = access-IsSound rand next addr b c w s.sound;
        block = λ a. ap (λ (d : Decoded). d.block_addr) (same.fields a) ∙ s.block a;
        tracks =
            subst (λ (k : ℕ). Tracks (k ∷ h) (Access.access rand next addr b c w).1) (s.block addr)
              tracks;
        first_touches =
            ap (λ (t : Tally). t.compulsory) counters
            ∙ step
            ∙ distinct-grows b' h c.stats.compulsory s.first_touches room'
            ∙ ap (λ (k : ℕ). distinct (k ∷ h)) (s.block addr);
      }

module _ {Double : Type 0} (cfg : CacheConfig Double) (n : ℕ)
    (shaped : IsShaped (build cfg n)) where
  fresh-resident : (a : ℕ) → resident (build cfg n) a ≡ false
  unfolding resident
  fresh-resident a =
      let d = decode (build cfg n) a in
      let lines = lines_of (build cfg n) d.set_index in
      elim (Option-cases (find_way 0 d.tag lines)) [
        | inl missed ↦ rw missed refl
        | inr (way, found) ↦
            let (j, _, _, match) = find_way-holds 0 d.tag lines way found in
            let invalid = fresh-invalid n cfg.associativity d.set_index j in absurd (ground arith)
      ]

  pub fresh-Tracks : cfg.classify_3c ≡ true → Tracks [] (build cfg n)
  unfolding stack_of
  fresh-Tracks on = record {
    model = record { last_used = []; capacity = cfg.size_bytes / cfg.block_size; clock = 0 };
    enabled = rw on refl;
    stack = Models-empty (cfg.size_bytes / cfg.block_size);
    clock = refl;
    lines = refl;
    seen = λ b. refl;
    held = λ a e. absurd (ground (arith, fresh-resident a));
  }

  pub build-Served : cfg.classify_3c ≡ true → Served cfg.block_size [] (build cfg n)
  unfolding distinct
  build-Served on = record {
    sound = build-IsSound cfg n shaped;
    block = λ a.
        ap (λ (d : Decoded). d.block_addr) (decode-arithmetic (build cfg n) shaped a)
        ∙ ap (λ (k : ℕ). a / k) (sym shaped.block);
    tracks = fresh-Tracks on;
    first_touches = refl;
  }

module _ (Double : Type 0) where
  -- In a hierarchy that the constructor returns, whose first level classifies its misses and holds
  -- 64-bit words, the compulsory misses of the first level are, after a trace of fewer than 2^64
  -- CPU accesses, the different blocks that the trace accesses: they depend neither on the size
  -- and the associativity nor on any policy, nor on std::rand().
  pub run-compulsory :
      (rand : ℕ → ℕ) (cfg : CacheConfig Double) (cfgs : List (CacheConfig Double))
      (mem_time : Double) (draws : ℕ) {p : (n : ℕ) × CacheHierarchy Double n} (verbose : Bool)
      (trace : List Trace.Access)
      → IsWords cfg
      → cfg.classify_3c ≡ true
      → construct_hierarchy Double (cfg ∷ cfgs) mem_time draws ≡ ok p
      → length (references trace []) < u64_mod
      → (run Double rand verbose trace p.1).0.world.level.0.stats.compulsory
        ≡ distinct (blocks_of cfg.block_size (references trace []))
  run-compulsory rand cfg cfgs mem_time draws {p} verbose trace words on e room =
      let served =
        run-first Double rand (Served cfg.block_size)
          (λ S next addr b c w before. access-Served cfg.block_size rand next addr b c w before) cfg
          cfgs mem_time draws verbose trace
          (λ k accepted. build-Served cfg k (build-IsShaped cfg words k accepted) on) e room in
      served.first_touches
