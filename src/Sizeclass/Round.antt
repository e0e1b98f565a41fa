-- ===== src/Sizeclass/Round.antt =====
-- Rounding a request up: `size_to_sizeclass_full`, `round_size`, `natural_alignment`,
-- `aligned_size` and the chunk sizes of large requests.
pub mod Laws
pub mod Aligned
use snmalloc.Base.{ℕ, zero, suc, ◌+◌, ◌-◌, ◌*◌, ◌/◌, ◌%◌, ◌^◌, ◌≤◌, ◌<◌, ◌≡◌, refl, ap, ◌∙◌, arith}
use snmalloc.Base.{if◌then◌else◌, ltb, leb, ◌==◌, Bool, true, false, lt-or-le, inl, inr, bit_or}
use snmalloc.Base.{pow_pos, pow_mono, bit_and_mask, bit_and}
use snmalloc.Bits.{word, bits, one_at_bit, sub_word, clz, ctz, next_pow2, next_pow2_bits}
use snmalloc.Bits.{from_exp_mant, to_exp_mant_const}
use snmalloc.Sizeclass.{Sizeclass, from_small_class, from_large_class, is_small_sizeclass}
use snmalloc.Sizeclass.{sizeclass_to_size, sizeclass_full_to_size, min_chunk_bits, fast, fast_large}
use snmalloc.Sizeclass.Lookup.{size_to_sizeclass, size_to_sizeclass-eq}

unfoldable pub size_to_sizeclass_full : ℕ → Sizeclass
size_to_sizeclass_full size =
    if is_small_sizeclass size
    then from_small_class (size_to_sizeclass size)
    else from_large_class (clz (sub_word size 1))

unfoldable pub round_size : Bool → ℕ → ℕ
round_size strict size =
    if is_small_sizeclass size
    then sizeclass_to_size strict (size_to_sizeclass size)
    else if size == 0
    then sizeclass_to_size strict (size_to_sizeclass 1)
    else if ltb (one_at_bit (bits - 1)) size
    then size
    else next_pow2 size

unfoldable pub natural_alignment : Bool → ℕ → ℕ
natural_alignment strict size =
    let rsize = round_size strict size in if size == 0 then 1 else one_at_bit (ctz rsize)

unfoldable pub aligned_size : ℕ → ℕ → ℕ
aligned_size alignment size =
    let result = (bit_or (sub_word alignment 1) (sub_word size 1) + 1) % word in
    if is_small_sizeclass result
    then result
    else if result == 0
    then if ltb result size then word - 1 else result
    else result

unfoldable pub large_size_to_chunk_size : ℕ → ℕ
large_size_to_chunk_size size = next_pow2 size

unfoldable pub large_size_to_chunk_sizeclass : ℕ → ℕ
large_size_to_chunk_sizeclass size = next_pow2_bits size - min_chunk_bits
