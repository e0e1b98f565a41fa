-- ===== src/Sizeclass/Slab.antt =====
-- From an interior pointer to its object: `slab_index`, `start_of_object`, `index_in_object`,
-- `remaining_bytes` and `is_start_of_object` on a slab of a small class.
use snmalloc.Base.{ℕ, ◌+◌, ◌-◌, ◌*◌, ◌/◌, ◌%◌, ◌^◌, ◌≤◌, ◌<◌, ◌≡◌, refl, ◌↔◌, Bool, true, false}
use snmalloc.Base.{
  arith, ltb, bit_and, bit_and_mask, bit_and_high, pow_pos, pow_mono, ltb→lt, lt→ltb,
}
use snmalloc.Bits.{word, sub_word}
use snmalloc.Sizeclass.{from_small_class, fast, fast_small, small_entry, num_small_sizeclasses}
use snmalloc.Sizeclass.{sizeclass_to_size, sizeclass_to_slab_size, sizeclass_to_size_const}
use snmalloc.Sizeclass.{slab_index, start_of_object}
use snmalloc.Sizeclass.{is_start_of_object, sizeclass_full_to_slab_size}
use snmalloc.Sizeclass.Table.{entry, slab_bits, div_mult_shift_lem}
use snmalloc.Sizeclass.Reciprocal.{reciprocal_div, reciprocal_mod}
use native.Mathlib.Nat.{mod-lt, mod-le, mod-eq_of_lt, div-add-mod', mul-lt-mul_of_pos_right}
use native.Mathlib.Nat.{
  mul-le-mul_right, le_of_lt, div-le_self, mul-add-div_right, mul-add-mod_self_right, div-eq_of_lt,
  mul-mod_left,
}

-- The largest multiple of `z` into the block of `s` that is not above the address.
object_start :
    (addr s z : ℕ)
    → 0 < z
    → 0 < s
    → let start = addr - addr % s % z in
      (start ≤ addr) × (addr < start + z) × (start / s ≡ addr / s) × (start % s % z ≡ 0)
object_start addr s z some_z some_s =
    let o = addr % s in
    let o_small : o < s = mod-lt addr some_s in
    let rest : o - o % z ≡ o / z * z = omega (arith, div-add-mod' o z) in
    let shape : addr - o % z ≡ addr / s * s + o / z * z =
      omega (arith, div-add-mod' o z, div-add-mod' addr s) in
    let small : o / z * z < s = omega (arith, rest, o_small) in
    (
      omega arith,
      omega (arith, mod-lt o some_z, mod-le o z, mod-le addr s),
      rw (shape, mul-add-div_right some_s (addr / s) (o / z * z), div-eq_of_lt small) (omega arith),
      rw (shape, mul-add-mod_self_right (addr / s) s (o / z * z), mod-eq_of_lt small)
          (mul-mod_left (o / z) z),
    )

module _ (strict : Bool) (sc : ℕ) (small : sc < num_small_sizeclasses) where
  pub size : ℕ
  size = sizeclass_to_size_const sc

  pub slab : ℕ
  slab = 2 ^ slab_bits strict sc

  pub fast-from_small_class : fast strict (from_small_class sc) ≡ fast_small strict sc
  unfolding fast from_small_class
  fast-from_small_class =
      let wrapped : (64 + sc) % 128 ≡ 64 + sc = omega arith in
      let tagged : ltb (64 + sc) 64 ≡ false = ground arith in
      let untag : 64 + sc - 64 ≡ sc = omega arith in
      let within : ltb sc 44 ≡ true = lt→ltb sc 44 small in rw (wrapped, tagged, untag, within)

  pub sizeclass_to_size_lem : sizeclass_to_size strict sc ≡ size
  unfolding sizeclass_to_size fast_small small_entry size
  sizeclass_to_size_lem = refl

  mask_lem : (fast_small strict sc).slab_mask ≡ slab - 1
  unfolding fast_small small_entry slab slab_bits
  mask_lem = refl

  pub sizeclass_to_slab_size_lem : sizeclass_to_slab_size strict sc ≡ slab
  unfolding sizeclass_to_slab_size slab
  sizeclass_to_slab_size_lem = omega (arith, mask_lem, pow_pos (slab_bits strict sc))

  div_mult_lem : (fast_small strict sc).div_mult ≡ (2 ^ 54 - 1) / size + 1
  unfolding fast_small small_entry size
  div_mult_lem = rw (div_mult_shift_lem strict) refl

  mod_zero_mult_lem : (fast_small strict sc).mod_zero_mult ≡ (word - 1) / size + 1
  unfolding fast_small small_entry size
  mod_zero_mult_lem = refl

  slab_fits : (16 ≤ size) × (size ≤ 65536) × (slab ≤ 2 ^ 20)
  unfolding size slab
  slab_fits =
      let e = entry strict sc small in
      omega (arith, e.some_size, e.size_le, pow_mono (slab_bits strict sc) 20 e.slab_le)

  slab_pos : 0 < slab
  unfolding slab
  slab_pos = pow_pos (slab_bits strict sc)

  offset_lem : (addr : ℕ) → bit_and addr (slab - 1) ≡ addr % slab
  unfolding slab
  offset_lem addr = bit_and_mask (slab_bits strict sc) addr

  offset-lt : (addr : ℕ) → addr % slab < slab
  unfolding slab
  offset-lt addr = mod-lt addr (pow_pos (slab_bits strict sc))

  divides : (n : ℕ) → n < slab → (n * ((2 ^ 54 - 1) / size + 1)) % word / 2 ^ 54 ≡ n / size
  unfolding size slab
  divides n h =
      let e = entry strict sc small in
      let no_wrap = mul-lt-mul_of_pos_right {k = (2 ^ 54 - 1) / size + 1} h (omega arith) in
      let exact : (n * ((2 ^ 54 - 1) / size + 1)) % word ≡ n * ((2 ^ 54 - 1) / size + 1) =
        mod-eq_of_lt (omega (arith, no_wrap, e.product_fits)) in
      rw exact (
        reciprocal_div (2 ^ 54) size n (omega (arith, e.some_size)) (omega arith)
          (omega (arith, mul-le-mul_right size (le_of_lt h), e.div_fits)))

  -- The reciprocal multiplication computes the index by division, for every address.
  slab_index_lem :
      (addr : ℕ)
      → slab_index strict (from_small_class sc) addr
        ≡ addr % sizeclass_to_slab_size strict sc / sizeclass_to_size strict sc
  unfolding slab_index
  slab_index_lem addr =
      rw
        (
          fast-from_small_class,
          mask_lem,
          div_mult_lem,
          div_mult_shift_lem strict,
          offset_lem addr,
          sizeclass_to_slab_size_lem,
          sizeclass_to_size_lem,
        )
        (divides (addr % slab) (offset-lt addr))

  multiple_iff :
      (n : ℕ)
      → n < slab
      → ((n * ((word - 1) / size + 1)) % word < (word - 1) / size + 1) ↔ (n % size ≡ 0)
  unfolding size slab
  multiple_iff n h =
      let e = entry strict sc small in
      let le : n / size + 1 ≤ slab + 1 = omega (arith, div-le_self n size) in
      reciprocal_mod word size n (omega (arith, e.some_size))
        (omega (arith, mul-le-mul_right (size * size) le, e.mod_fits))

  size_lem : (fast_small strict sc).size ≡ size
  unfolding fast_small small_entry size
  size_lem = refl

  clear_lem : (addr : ℕ) → addr < word → bit_and addr (word - 1 - (slab - 1)) ≡ addr - addr % slab
  unfolding slab
  clear_lem addr lt =
      let k = slab_bits strict sc in
      let e = entry strict sc small in
      let high : word - 1 - (2 ^ k - 1) ≡ word - 2 ^ k =
        omega (arith, pow_pos k, pow_mono k 20 e.slab_le) in
      rw high (bit_and_high 64 k addr (omega (arith, e.slab_le)) lt)

  pub start_lem :
      (addr : ℕ)
      → addr < word
      → start_of_object strict (from_small_class sc) addr ≡ addr - addr % slab % size
  unfolding start_of_object
  start_lem addr lt =
      let total : (addr - addr % slab) + addr % slab / size * size ≡ addr - addr % slab % size =
        omega (arith, div-add-mod' (addr % slab) size, mod-le addr slab) in
      rw
        (
          slab_index_lem addr,
          fast-from_small_class,
          mask_lem,
          clear_lem addr lt,
          sizeclass_to_slab_size_lem,
          sizeclass_to_size_lem,
          size_lem,
          total,
        )
        (mod-eq_of_lt (omega arith))

  -- For every address of the slab's region, `start_of_object` is the start of the object that
  -- holds it: at most the address, less than the object's size below it, on the same slab, and a
  -- multiple of the size from the slab's start.
  pub start_of_object_lem :
      (addr : ℕ)
      → addr < word
      → let start = start_of_object strict (from_small_class sc) addr in
        (start ≤ addr)
        × (addr < start + sizeclass_to_size strict sc)
        × (start / sizeclass_to_slab_size strict sc ≡ addr / sizeclass_to_slab_size strict sc)
        × (start % sizeclass_to_slab_size strict sc % sizeclass_to_size strict sc ≡ 0)
  start_of_object_lem addr lt =
      rw (start_lem addr lt, sizeclass_to_slab_size_lem, sizeclass_to_size_lem)
        (object_start addr slab size (omega (arith, slab_fits)) (slab_pos))

  slab_size_lem : sizeclass_full_to_slab_size strict (from_small_class sc) ≡ slab
  unfolding sizeclass_full_to_slab_size
  slab_size_lem = rw (fast-from_small_class, mask_lem) (omega (arith, slab_fits, slab_pos))

  is_start_eq :
      (addr : ℕ)
      → is_start_of_object strict (from_small_class sc) addr
        ≡ ltb (addr % slab * ((word - 1) / size + 1) % word) ((word - 1) / size + 1)
  unfolding is_start_of_object
  is_start_eq addr =
      let low : sub_word slab 1 ≡ slab - 1 = omega (arith, slab_fits, slab_pos) in
      rw (slab_size_lem, low, fast-from_small_class, mod_zero_mult_lem, offset_lem addr) refl

  -- The wrapped multiplication tells the starts of objects from interior addresses.
  pub is_start_of_object_iff :
      (addr : ℕ)
      → addr < word
      → (is_start_of_object strict (from_small_class sc) addr ≡ true)
        ↔ (start_of_object strict (from_small_class sc) addr ≡ addr)
  is_start_of_object_iff addr lt =
      let iff = multiple_iff (addr % slab) (offset-lt addr) in
      rw (is_start_eq addr, start_lem addr lt)
        (
          (λ h. omega (arith, iff.0 (ltb→lt _ _ h))),
          (λ h. lt→ltb _ _ (iff.1 (omega (arith, h, mod-le (addr % slab) size, mod-le addr slab)))),
        )
