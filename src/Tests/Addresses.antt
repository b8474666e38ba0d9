-- ===== src/Tests/Addresses.antt =====
-- The arithmetic of addresses, the constructor and the search for a victim at concrete values.
use cache_hierarchy_simulato.Prelude.{
  List, [], arith, false, refl, suc, true, ℕ, ◌*◌, ◌+◌, ◌<◌, ◌-◌, ◌^◌, ◌↔◌, ◌∷◌, ◌≡◌, ◌≤◌,
}
use cache_hierarchy_simulato.Word.{u64}
use cache_hierarchy_simulato.Geometry.{log2u, is_pow2, log2u_loop}
use cache_hierarchy_simulato.Geometry.Log2.{log2u_bounds, is_pow2_iff}
use cache_hierarchy_simulato.Geometry.Rounds.{log2u_loop-rounds}
use cache_hierarchy_simulato.Config.{CacheConfig}
use cache_hierarchy_simulato.Replacement.{oldest}
use cache_hierarchy_simulato.Replacement.Victim.{IsFirstLeast, oldest-IsFirstLeast}
use cache_hierarchy_simulato.Cache.{
  decode, victim_addr, ok, failed, division_by_zero, build, construct,
}
use cache_hierarchy_simulato.Cache.Shape.{IsShaped}
use cache_hierarchy_simulato.Cache.Construct.{
  IsWords, construct-IsShaped, construct-accepts, construct-wrapped,
}
use cache_hierarchy_simulato.Cache.Decode.{decode_fields, victim_addr-decode, decode-victim_addr}
use cache_hierarchy_simulato.Tests.{first, small, first-IsWords, small-built, small-IsShaped}

construct-IsShaped_example :
    IsShaped small × (small.cfg ≡ first) × (32 ≡ small.num_sets * u64 (8 * 2))
construct-IsShaped_example = construct-IsShaped first false first-IsWords small-built

construct-accepts_example : construct first false ≡ ok (build first 2)
construct-accepts_example =
    construct-accepts first 3 1 first-IsWords refl (omega arith) (omega arith) refl

-- 2^32 ways of 2^32 bytes
abbrev huge : CacheConfig ℕ
huge = record first { size_bytes = 1; block_size = 4294967296; associativity = 4294967296 }

huge-IsWords : IsWords huge
huge-IsWords = record { size = omega arith; block = omega arith; ways = omega arith }

construct-wrapped_example : (construct huge false ≡ failed division_by_zero) ↔ (
    (0 < 1)
    × (0 < 4294967296)
    × ((o : ℕ) × (4294967296 ≡ 2 ^ o) × (o < 64) × ((k : ℕ) × (4294967296 ≡ k * 2 ^ (64 - o)))))
construct-wrapped_example = construct-wrapped huge huge-IsWords

-- The constructor divides by zero.
huge-fails : construct huge false ≡ failed division_by_zero
huge-fails =
    (construct-wrapped huge huge-IsWords).1
      (omega arith, omega arith, (32, refl, omega arith, (1, refl)))

decode_fields_example :
    let d = decode small 29 in
    (d.offset < 8)
    × (d.set_index < 2)
    × (d.block_addr ≡ d.tag * 2 + d.set_index)
    × (d.block_addr * 8 + d.offset ≡ 29)
decode_fields_example = decode_fields small small-IsShaped 29

victim_addr-decode_example :
    let d = decode small 29 in victim_addr small d.tag d.set_index + d.offset ≡ 29
victim_addr-decode_example = victim_addr-decode small small-IsShaped 29 (omega arith)

decode-victim_addr_example :
    decode small (victim_addr small 5 1)
    ≡ record { offset = 0; block_addr = 11; set_index = 1; tag = 5 }
unfolding log2u
decode-victim_addr_example = decode-victim_addr small small-IsShaped 5 1 (omega arith) (omega arith)

abbrev stamps : List ℕ
stamps = 3 ∷ 1 ∷ 4 ∷ 1 ∷ []

oldest-IsFirstLeast_example : IsFirstLeast stamps (oldest stamps)
oldest-IsFirstLeast_example =
    oldest-IsFirstLeast stamps (omega arith)
      (omega arith, (omega arith, (omega arith, (omega arith, tt))))

log2u_bounds_example : (2 ^ log2u 100 ≤ 100) × (100 < 2 ^ suc (log2u 100))
log2u_bounds_example = log2u_bounds 100 (omega arith) (omega arith)

is_pow2_iff_example : (is_pow2 96 ≡ true) ↔ (96 ≡ 2 ^ log2u 96)
is_pow2_iff_example = is_pow2_iff 96 (omega arith)

log2u_loop-rounds_example : log2u_loop 70 100 0 ≡ log2u 100
log2u_loop-rounds_example = log2u_loop-rounds 70 100 (omega arith) (omega arith)
