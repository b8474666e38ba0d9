-- ===== src/Cache/Decode.antt =====
-- The arithmetic of decode, and of the address of an evicted block.
use native.Mathlib.Nat.{
  div-add-mod', mod-lt, mul-div_cancel, mul-mod_left, mod-eq_of_lt, add-mul-div_right,
  mul-add-mod_self_right, add_comm, div-eq_of_lt,
}
use mathlib.Core.Path.{ap₂}
use cache_hierarchy_simulato.Prelude.{
  ℕ, ◌+◌, ◌*◌, ◌/◌, ◌%◌, ◌^◌, ◌≤◌, ◌<◌, ◌≡◌, refl, ap, sym, ◌∙◌, arith,
}
use cache_hierarchy_simulato.Word.{u64_mod, shl}
use cache_hierarchy_simulato.Word.Masks.{pow-pos, mask_word, bit_and-mask, bit_or-fields}
use cache_hierarchy_simulato.Cache.{Cache, decode, victim_addr}
use cache_hierarchy_simulato.Cache.Shape.{IsShaped}

module _ {Double : Type 0} (c : Cache Double) (shaped : IsShaped c) where
  open shaped use {block, sets_pow, fits}

  -- The masks and shifts are remainders and quotients.
  pub decode-arithmetic :
      (addr : ℕ)
      → decode c addr ≡ record {
        offset = addr % 2 ^ c.offset_bits;
        block_addr = addr / 2 ^ c.offset_bits;
        set_index = addr / 2 ^ c.offset_bits % 2 ^ c.index_bits;
        tag = addr / 2 ^ c.offset_bits / 2 ^ c.index_bits;
      }
  unfolding decode
  decode-arithmetic addr =
      let low = mask_word c.offset_bits c.cfg.block_size (omega arith) block in
      let index = mask_word c.index_bits c.num_sets (omega arith) sets_pow in
      rw
        (
          low,
          index,
          bit_and-mask c.offset_bits addr,
          bit_and-mask c.index_bits (addr / 2 ^ c.offset_bits),
        )
        refl

  -- The address that the eviction rebuilds, as long as it fits 64 bits.
  pub victim_addr-arithmetic :
      (tag i : ℕ)
      → i < c.num_sets
      → (tag * 2 ^ c.index_bits + i) * 2 ^ c.offset_bits < u64_mod
      → victim_addr c tag i ≡ (tag * 2 ^ c.index_bits + i) * 2 ^ c.offset_bits
  unfolding victim_addr
  victim_addr-arithmetic tag i h wide =
      let small : i < 2 ^ c.index_bits = omega arith in
      let one : tag * 2 ^ c.index_bits + i ≤ (tag * 2 ^ c.index_bits + i) * 2 ^ c.offset_bits =
        grind (arith, pow-pos c.offset_bits) in
      let inner : shl tag c.index_bits ≡ tag * 2 ^ c.index_bits = mod-eq_of_lt (omega arith) in
      rw (inner, bit_or-fields c.index_bits tag i small) (mod-eq_of_lt wide)

  -- The fields of an address that a cache of a valid shape decodes: the offset lies in a block,
  -- the index is one of the sets, and
  -- the block address is put together from tag and index as the address is from block and offset.
  pub decode_fields :
      (addr : ℕ)
      → let d = decode c addr in
        (d.offset < c.cfg.block_size)
        × (d.set_index < c.num_sets)
        × (d.block_addr ≡ d.tag * c.num_sets + d.set_index)
        × (d.block_addr * c.cfg.block_size + d.offset ≡ addr)
  decode_fields addr =
      let o = 2 ^ c.offset_bits in
      let i = 2 ^ c.index_bits in
      rw (decode-arithmetic addr, block, sets_pow)
        (
          mod-lt addr (pow-pos c.offset_bits),
          mod-lt (addr / o) (pow-pos c.index_bits),
          sym (div-add-mod' (addr / o) i),
          div-add-mod' addr o,
        )

  -- In a cache of a valid shape, the address that is rebuilt from the tag and the index of a 64-bit
  -- address, plus the offset, is the address.
  pub victim_addr-decode :
      (addr : ℕ)
      → addr < u64_mod
      → let d = decode c addr in victim_addr c d.tag d.set_index + d.offset ≡ addr
  victim_addr-decode addr h =
      let d = decode c addr in
      let (_, index, whole, start) = decode_fields addr in
      let parts : d.block_addr ≡ d.tag * 2 ^ c.index_bits + d.set_index =
        whole ∙ ap (λ (t : ℕ). d.tag * t + d.set_index) sets_pow in
      let b = ap₂ ◌*◌ parts block in
      omega (arith, victim_addr-arithmetic d.tag d.set_index index (omega arith), start, b)

  -- In a cache of a valid shape, the write-back of a frame in set `i`, if its address fits 64 bits,
  -- reaches the same set and tag when it is decoded by a cache
  -- of this geometry, at the start of the block.
  pub decode-victim_addr :
      (tag i : ℕ)
      → i < c.num_sets
      → (tag * 2 ^ c.index_bits + i) * 2 ^ c.offset_bits < u64_mod
      → decode c (victim_addr c tag i)
        ≡ record { offset = 0; block_addr = tag * c.num_sets + i; set_index = i; tag = tag }
  decode-victim_addr tag i h wide =
      let o = 2 ^ c.offset_bits in
      let n = 2 ^ c.index_bits in
      let b = tag * n + i in
      let small : i < n = omega arith in
      let quotient : b * o / o ≡ b = mul-div_cancel b (pow-pos c.offset_bits) in
      let low : b * o % o ≡ 0 = mul-mod_left b o in
      let index : b % n ≡ i = mul-add-mod_self_right tag n i ∙ mod-eq_of_lt small in
      let upper : b / n ≡ tag =
        ap (λ (t : ℕ). t / n) (add_comm (tag * n) i)
        ∙ add-mul-div_right i tag (pow-pos c.index_bits)
        ∙ omega (arith, div-eq_of_lt small) in
      rw
        (
          victim_addr-arithmetic tag i h wide,
          decode-arithmetic (b * o),
          quotient,
          low,
          index,
          upper,
          sets_pow,
        )
        refl
