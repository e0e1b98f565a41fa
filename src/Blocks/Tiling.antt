-- ===== src/Blocks/Tiling.antt =====
-- The blocks lie side by side and cover the range.
use snmalloc.Base.{
  ℕ, zero, suc, ◌+◌, ◌-◌, ◌*◌, ◌/◌, ◌%◌, ◌^◌, ◌≤◌, ◌<◌, ◌≡◌, arith, inl, inr, true, false,
}
use snmalloc.Base.{List, [], ◌∷◌, pow_pos, pow_mono, lt-or-le, leb}
use snmalloc.Bits.{word, ctz, clz, align_up, align_down}
use snmalloc.Bits.Align.{align_up_lem, align_down_bounds}
use snmalloc.Bits.Leading.{clz-IsWidth}
use snmalloc.Bits.Trailing.{ctz_lem}
use snmalloc.Bits.ExpMant.Aligned.{pow_dvd}
use snmalloc.Blocks.{block_bits, blocks_loop, range_to_pow_2_blocks}
use native.Mathlib.Nat.{
  dvd_trans, dvd-add, dvd-sub, dvd_of_mod-eq-zero, mod-eq-zero_of_dvd, le_of_dvd, div-add-mod',
}
use Prim.Native.Nat.{◌∣◌, min}

-- The blocks from one address to another, side by side, each as large as a power of two that is
-- at least `2 ^ min_bits` and divides its address.
pub data IsTiled (min_bits : ℕ) : ℕ → ℕ → List (ℕ × ℕ) → Type 0 where
  tiled_nil : {at : ℕ} → IsTiled min_bits at at []
  tiled_cons :
      {at end : ℕ} {blocks : List (ℕ × ℕ)} (k : ℕ)
      → min_bits ≤ k
      → at % 2 ^ k ≡ 0
      → IsTiled min_bits (at + 2 ^ k) end blocks
      → IsTiled min_bits at end ((at, 2 ^ k) ∷ blocks)

module _ (m : ℕ) (m_lt : m < 64) where
  -- The block at the start of a range.
  block_bits_lem :
      (base length : ℕ)
      → 0 < base
      → base < word
      → length < word
      → 2 ^ m ∣ base
      → 2 ^ m ≤ length
      → let k = block_bits base length in (m ≤ k) × (2 ^ k ∣ base) × (2 ^ k ≤ length)
  unfolding block_bits
  block_bits_lem base length pos base_lt length_lt aligned enough =
      let c = ctz_lem base m pos base_lt in
      let w = clz-IsWidth length (omega (arith, pow_pos m)) length_lt in
      let k = min (ctz base) (63 - clz length) in
      let deep : m ≤ 63 - clz length = elim (lt-or-le (63 - clz length) m) [
        | inl h ↦
            absurd (omega (arith, w.0.below, pow_mono (64 - clz length) m (omega (arith, w.1))))
        | inr h ↦ h
      ] in
      let shape : 64 - clz length - 1 ≡ 63 - clz length = omega arith in
      let above : 2 ^ (63 - clz length) ≤ length = rw shape at w.0.above in
      (
        omega (arith, c.1 aligned, deep),
        dvd_trans (2 ^ k) (pow_dvd k (ctz base) (omega arith)) c.0,
        omega (arith, above, pow_mono k (63 - clz length) (omega arith)),
      )

  blocks_loop-IsTiled :
      (fuel base length : ℕ)
      → 0 < base
      → base + length < word
      → 2 ^ m ∣ base
      → 2 ^ m ∣ length
      → length ≤ fuel * 2 ^ m
      → IsTiled m base (base + length) (blocks_loop m fuel base length)
  unfolding blocks_loop
  blocks_loop-IsTiled zero base length pos fits aligned whole enough =
      let none : length ≡ 0 = omega arith in
      let there : base + 0 ≡ base = omega arith in rw (none, there) tiled_nil
  blocks_loop-IsTiled (suc fuel) base length pos fits aligned whole enough =
      elim (lt-or-le length (2 ^ m)) [
        | inl h ↦
            let none : length ≡ 0 = elim (lt-or-le 0 length) [
              | inl some ↦ absurd (omega (arith, le_of_dvd some whole))
              | inr empty ↦ omega arith
            ] in
            let test : leb (2 ^ m) length ≡ false = ground arith in
            let there : base + length ≡ base = omega arith in rw (test, there) tiled_nil
        | inr h ↦
            let test : leb (2 ^ m) length ≡ true = ground arith in
            let k = block_bits base length in
            let block = block_bits_lem base length pos (omega arith) (omega arith) aligned h in
            let large = pow_mono m k block.0 in
            let next : (base + 2 ^ k) % word ≡ base + 2 ^ k = omega (arith, block.2) in
            let less : (length + word - 2 ^ k) % word ≡ length - 2 ^ k =
              omega (arith, block.2, pow_pos k) in
            let end : base + 2 ^ k + (length - 2 ^ k) ≡ base + length = omega (arith, block.2) in
            let rest =
              blocks_loop-IsTiled fuel (base + 2 ^ k) (length - 2 ^ k) (omega arith)
                (omega (arith, block.2)) (dvd-add (2 ^ m) aligned (pow_dvd m k block.0))
                (dvd-sub (2 ^ m) whole (pow_dvd m k block.0)) (omega (arith, large, block.2)) in
            rw (test, next, less)
              (tiled_cons k block.0 (mod-eq-zero_of_dvd (2 ^ k) block.1) (rw end at rest))
      ]

-- For a range that fits the address space, whose start is not 0 and can be rounded up to a multiple
-- of `2 ^ min_bits` within the range, the blocks are side by side from the start, rounded up, to the
-- end, rounded down; the size of each is a power of two that is at least `2 ^ min_bits` and divides
-- its address.
pub range_to_pow_2_blocks-IsTiled :
    (min_bits base length : ℕ)
    → min_bits < 64
    → 0 < base
    → base + length < word
    → base + 2 ^ min_bits ≤ word
    → align_up base (2 ^ min_bits) ≤ align_down (base + length) (2 ^ min_bits)
    → IsTiled min_bits
        (align_up base (2 ^ min_bits))
        (align_down (base + length) (2 ^ min_bits))
        (range_to_pow_2_blocks min_bits base length)
unfolding range_to_pow_2_blocks
range_to_pow_2_blocks-IsTiled m base length m_lt pos fits room inside =
    let start = align_up base (2 ^ m) in
    let end = align_down (base + length) (2 ^ m) in
    let up = align_up_lem base m m_lt (omega (arith, pow_pos m)) in
    let down = align_down_bounds (base + length) m fits m_lt in
    let wrap : (base + length) % word ≡ base + length = omega arith in
    let size : (end + word - start) % word ≡ end - start = omega (arith, down.1) in
    let start_aligned = dvd_of_mod-eq-zero (2 ^ m) up.0 in
    let whole = dvd-sub (2 ^ m) (dvd_of_mod-eq-zero (2 ^ m) down.0) start_aligned in
    let exact : end - start ≤ (end - start) / 2 ^ m * 2 ^ m =
      omega (arith, div-add-mod' (end - start) (2 ^ m), mod-eq-zero_of_dvd (2 ^ m) whole) in
    let all : start + (end - start) ≡ end = omega (arith, inside) in
    rw (wrap, size)
      (rw all at (
        blocks_loop-IsTiled m m_lt ((end - start) / 2 ^ m) start (end - start) (omega (arith, up.1))
          (omega (arith, inside, down.1)) start_aligned whole exact))
