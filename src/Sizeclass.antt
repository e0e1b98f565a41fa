-- ===== src/Sizeclass.antt =====
-- src/snmalloc/ds_core/sizeclassconfig.h, sizeclassstatic.h, mitigations/allocconfig.h and
-- ds/sizeclasstable.h: the sizes of the size classes and the tables that the fast paths read, for
-- a 64-bit target with 48 address bits and the default settings. `strict` is the mitigation
-- `random_larger_thresholds`, which a build turns on or off.
pub mod Reciprocal
pub mod Table
pub mod Slab
pub mod Lookup
pub mod Round
mod Tests
use snmalloc.Base.{ℕ, zero, suc, ◌+◌, ◌-◌, ◌*◌, ◌/◌, ◌%◌, ◌^◌, bit_and, bit_or, List, [], ◌∷◌}
use snmalloc.Base.{Bool, true, false, ◌&&◌, ltb, leb, ◌==◌, if◌then◌else◌, not, get_or}
use snmalloc.Bits.{word, bits, sub_word, complement, one_at_bit, mask_bits, to_exp_mant_const}
use snmalloc.Bits.{from_exp_mant, next_pow2_bits_const, clz, ctz, next_pow2, next_pow2_bits}
use Prim.Native.Nat.{min, max}

abbrev pub intermediate_bits : ℕ
intermediate_bits = 2

abbrev pub min_alloc_step_bits : ℕ
min_alloc_step_bits = 4

abbrev pub min_alloc_step_size : ℕ
min_alloc_step_size = 16

abbrev pub min_alloc_size : ℕ
min_alloc_size = 16

abbrev pub min_chunk_bits : ℕ
min_chunk_bits = 14

abbrev pub max_small_sizeclass_bits : ℕ
max_small_sizeclass_bits = 16

abbrev pub max_small_sizeclass_size : ℕ
max_small_sizeclass_size = one_at_bit max_small_sizeclass_bits

-- The fewest objects on a slab.
abbrev pub min_object_count : Bool → ℕ
min_object_count strict = if strict then 13 else 4

abbrev pub size_to_sizeclass_const : ℕ → ℕ
size_to_sizeclass_const size = to_exp_mant_const intermediate_bits min_alloc_step_bits size

abbrev pub sizeclass_to_size_const : ℕ → ℕ
sizeclass_to_size_const sc = from_exp_mant intermediate_bits min_alloc_step_bits sc

-- `size_to_sizeclass_const max_small_sizeclass_size + 1`; `Table` shows that equation.
abbrev pub num_small_sizeclasses : ℕ
num_small_sizeclasses = 44

unfoldable pub is_small_sizeclass : ℕ → Bool
is_small_sizeclass size =
    ltb (sub_word size 1) (sizeclass_to_size_const (num_small_sizeclasses - 1))

-- The tagged union `sizeclass_t`: small classes carry the tag bit, large classes do not.
abbrev pub tag_sizeclass_bits : ℕ
tag_sizeclass_bits = 6

abbrev pub tag : ℕ
tag = one_at_bit tag_sizeclass_bits

pub record Sizeclass : Type 0 where
  pub value : ℕ

unfoldable pub from_small_class : ℕ → Sizeclass
from_small_class sc = record { value = tag + sc }

unfoldable pub from_large_class : ℕ → Sizeclass
from_large_class large_class = record { value = large_class }

unfoldable pub as_small : Sizeclass → ℕ
as_small sc = bit_and sc.value (tag - 1)

unfoldable pub as_large : Sizeclass → ℕ
as_large sc = bits - bit_and sc.value (tag - 1)

unfoldable pub is_small : Sizeclass → Bool
is_small sc = not (bit_and sc.value tag == 0)

unfoldable pub is_default : Sizeclass → Bool
is_default sc = sc.value == 0

-- What the first loop of the constructor of `SizeClassTable` computes for a small class.
pub record SmallEntry : Type 0 where
  pub size : ℕ
  pub slab_mask : ℕ
  pub capacity : ℕ
  pub waking : ℕ

unfoldable pub small_entry : Bool → ℕ → SmallEntry
small_entry strict sc =
    let rsize = from_exp_mant intermediate_bits min_alloc_step_bits sc in
    let slab_bits = max (next_pow2_bits_const (min_object_count strict * rsize)) min_chunk_bits in
    let mask = mask_bits slab_bits in
    let cap = (mask + 1) / rsize % 2 ^ 16 in
    record {
      size = rsize;
      slab_mask = mask;
      capacity = cap;
      waking = if strict then cap / 4 else min (cap / 4) 32;
    }

-- The largest capacity of the classes from `0` to `left - 1`.
unfoldable pub max_capacity : Bool → ℕ → ℕ
max_capacity strict zero = 0
max_capacity strict (suc left) = max (max_capacity strict left) (small_entry strict left).capacity

unfoldable pub div_mult_shift : Bool → ℕ
div_mult_shift strict = bits - next_pow2_bits_const (max_capacity strict num_small_sizeclasses)

-- `sizeclass_data_fast`.
pub record FastData : Type 0 where
  pub size : ℕ
  pub slab_mask : ℕ
  pub div_mult : ℕ
  pub mod_zero_mult : ℕ

-- The second loop adds the reciprocals.
unfoldable pub fast_small : Bool → ℕ → FastData
fast_small strict sc =
    let e = small_entry strict sc in
    record {
      size = e.size;
      slab_mask = e.slab_mask;
      div_mult = mask_bits (div_mult_shift strict) / e.size + 1;
      mod_zero_mult = (word - 1) / e.size + 1;
    }

-- The third loop, for a large class.
unfoldable pub fast_large : ℕ → FastData
fast_large sizeclass =
    let lsc = from_large_class sizeclass in
    let size = if sizeclass == 0 then 0 else one_at_bit (as_large lsc) in
    record { size = size; slab_mask = sub_word size 1; div_mult = 0; mod_zero_mult = 1 }

-- The length of the tables over all classes, a power of two.
abbrev pub sizeclass_rep_size : ℕ
sizeclass_rep_size = one_at_bit (tag_sizeclass_bits + 1)

-- `fast`, with the wrapped index of `ModArray`: the entries of the table that no loop fills are zero.
unfoldable pub fast : Bool → Sizeclass → FastData
fast strict sc =
    let index = sc.value % sizeclass_rep_size in
    if ltb index tag
    then fast_large index
    else if ltb (index - tag) num_small_sizeclasses
    then fast_small strict (index - tag)
    else record { size = 0; slab_mask = 0; div_mult = 0; mod_zero_mult = 0 }

unfoldable pub sizeclass_to_size : Bool → ℕ → ℕ
sizeclass_to_size strict sc = (fast_small strict sc).size

unfoldable pub sizeclass_to_slab_size : Bool → ℕ → ℕ
sizeclass_to_slab_size strict sc = (fast_small strict sc).slab_mask + 1

unfoldable pub sizeclass_full_to_size : Bool → Sizeclass → ℕ
sizeclass_full_to_size strict sc = (fast strict sc).size

unfoldable pub sizeclass_full_to_slab_size : Bool → Sizeclass → ℕ
sizeclass_full_to_slab_size strict sc = ((fast strict sc).slab_mask + 1) % word

unfoldable pub threshold_for_waking_slab : Bool → ℕ → ℕ
threshold_for_waking_slab strict sc = (small_entry strict sc).waking

unfoldable pub sizeclass_to_slab_object_count : Bool → ℕ → ℕ
sizeclass_to_slab_object_count strict sc = (small_entry strict sc).capacity

unfoldable pub sizeclass_to_slab_sizeclass : Bool → ℕ → ℕ
sizeclass_to_slab_sizeclass strict sc =
    next_pow2_bits (sizeclass_to_slab_size strict sc) - min_chunk_bits

unfoldable pub slab_sizeclass_to_size : ℕ → ℕ
slab_sizeclass_to_size sizeclass = one_at_bit (min_chunk_bits + sizeclass)

unfoldable pub slab_index : Bool → Sizeclass → ℕ → ℕ
slab_index strict sc addr =
    let meta = fast strict sc in
    let offset = bit_and addr meta.slab_mask in
    (offset * meta.div_mult) % word / 2 ^ div_mult_shift strict

unfoldable pub start_of_object : Bool → Sizeclass → ℕ → ℕ
start_of_object strict sc addr =
    let meta = fast strict sc in
    let slab_start = bit_and addr (complement meta.slab_mask) in
    (slab_start + slab_index strict sc addr * meta.size) % word

unfoldable pub index_in_object : Bool → Sizeclass → ℕ → ℕ
index_in_object strict sc addr = sub_word addr (start_of_object strict sc addr)

unfoldable pub remaining_bytes : Bool → Sizeclass → ℕ → ℕ
remaining_bytes strict sc addr = sub_word (fast strict sc).size (index_in_object strict sc addr)

unfoldable pub is_start_of_object : Bool → Sizeclass → ℕ → Bool
is_start_of_object strict sc addr =
    let meta = fast strict sc in
    let offset = bit_and addr (sub_word (sizeclass_full_to_slab_size strict sc) 1) in
    ltb ((offset * meta.mod_zero_mult) % word) meta.mod_zero_mult
