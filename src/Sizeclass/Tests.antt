-- ===== src/Sizeclass/Tests.antt =====
-- The size classes at concrete inputs.
use snmalloc.Base.{◌+◌, ◌/◌, ◌%◌, ◌^◌, ◌≤◌, ◌<◌, ◌≡◌, ◌↔◌, refl, arith, true, false}
use snmalloc.Bits.{clz_const, to_exp_mant_const, from_exp_mant, next_pow2_bits_const}
use snmalloc.Sizeclass.{sizeclass_to_size, sizeclass_to_slab_size, from_small_class}
use snmalloc.Sizeclass.{start_of_object, is_start_of_object, is_small_sizeclass}
use snmalloc.Sizeclass.{sizeclass_to_slab_object_count, small_entry, fast_small}
use snmalloc.Sizeclass.{div_mult_shift, max_capacity, size_to_sizeclass_const}
use snmalloc.Sizeclass.Slab.{start_of_object_lem, is_start_of_object_iff}
use snmalloc.Sizeclass.Lookup.{size_to_sizeclass, size_to_sizeclass-eq}
use snmalloc.Sizeclass.Round.{round_size, aligned_size}
use snmalloc.Sizeclass.Round.Aligned.{round_size-aligned_size}

class_six :
    (sizeclass_to_size false 6 ≡ 112)
    × (sizeclass_to_slab_size false 6 ≡ 16384)
    × (sizeclass_to_slab_object_count true 6 ≡ 146)
unfolding sizeclass_to_size sizeclass_to_slab_size sizeclass_to_slab_object_count fast_small
    small_entry from_exp_mant next_pow2_bits_const clz_const div_mult_shift max_capacity
class_six = (refl, refl, refl)

start_of_object_lem_example :
    let start = start_of_object false (from_small_class 6) 100_000 in
    (start ≤ 100_000)
    × (100_000 < start + sizeclass_to_size false 6)
    × (start / sizeclass_to_slab_size false 6 ≡ 100_000 / sizeclass_to_slab_size false 6)
    × (start % sizeclass_to_slab_size false 6 % sizeclass_to_size false 6 ≡ 0)
start_of_object_lem_example = start_of_object_lem false 6 (omega arith) 100_000 (omega arith)

is_start_of_object_iff_example :
    (is_start_of_object true (from_small_class 6) 16_496 ≡ true)
    ↔ (start_of_object true (from_small_class 6) 16_496 ≡ 16_496)
is_start_of_object_iff_example = is_start_of_object_iff true 6 (omega arith) 16_496 (omega arith)

size_to_sizeclass-eq_example : size_to_sizeclass 100 ≡ size_to_sizeclass_const 100
size_to_sizeclass-eq_example = size_to_sizeclass-eq 100 (omega arith) (omega arith)

round_size-aligned_size_example :
    (100 ≤ round_size false (aligned_size (2 ^ 5) 100))
    × (round_size false (aligned_size (2 ^ 5) 100) % 2 ^ 5 ≡ 0)
round_size-aligned_size_example =
    round_size-aligned_size false 5 100 (omega arith) (omega arith) (omega arith)

-- A request of no bytes is rounded to the least size, whatever its alignment.
no_bytes : aligned_size (2 ^ 5) 0 ≡ 0
unfolding aligned_size is_small_sizeclass from_exp_mant
no_bytes = refl

least_size : round_size false 0 ≡ 16
unfolding round_size is_small_sizeclass from_exp_mant sizeclass_to_size fast_small small_entry
    to_exp_mant_const clz_const
least_size = rw (size_to_sizeclass-eq 1 (omega arith) (omega arith)) refl
