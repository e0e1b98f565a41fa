-- ===== src/Blocks.antt =====
-- src/snmalloc/backend_helpers/range_helpers.h: `range_to_pow_2_blocks`, which splits a range of
-- addresses into blocks whose size is a power of two that divides their address.
pub mod Tiling
mod Tests
use snmalloc.Base.{ℕ, zero, suc, ◌+◌, ◌-◌, ◌/◌, ◌%◌, ◌^◌, List, [], ◌∷◌, leb, if◌then◌else◌}
use snmalloc.Bits.{word, bits, one_at_bit, sub_word, clz, ctz, align_up, align_down}
use Prim.Native.Nat.{min}

-- The exponent of the block at `base`.
unfoldable pub block_bits : (base length : ℕ) → ℕ
block_bits base length = min (ctz base) (bits - 1 - clz length)

-- The blocks with which the loop calls `f`, in order, each its address and its size. Every round
-- takes a multiple of `2 ^ min_bits` off the length, so that many rounds are enough.
unfoldable pub blocks_loop : (min_bits fuel base length : ℕ) → List (ℕ × ℕ)
blocks_loop min_bits zero base length = []
blocks_loop min_bits (suc fuel) base length =
    let align = one_at_bit (block_bits base length) in
    let rest = blocks_loop min_bits fuel ((base + align) % word) (sub_word length align) in
    if leb (one_at_bit min_bits) length then (base, align) ∷ rest else []

-- A difference of pointers is a `size_t`.
unfoldable pub range_to_pow_2_blocks : (min_bits base length : ℕ) → List (ℕ × ℕ)
range_to_pow_2_blocks min_bits base length =
    let end = align_down ((base + length) % word) (one_at_bit min_bits) in
    let start = align_up base (one_at_bit min_bits) in
    let size = sub_word end start in blocks_loop min_bits (size / one_at_bit min_bits) start size
