-- ===== src/Sizeclass/Table.antt =====
-- The bounds that every entry of the tables keeps, checked class by class for both settings.
use snmalloc.Base.{ℕ, ◌+◌, ◌-◌, ◌*◌, ◌/◌, ◌^◌, ◌≤◌, ◌<◌, ◌≡◌, refl, Bool, true, false, ◌&&◌}
use snmalloc.Base.{arith, leb, all_below, all_below_sound, ◌↔◌}
use snmalloc.Bits.{word, clz_const, next_pow2_bits_const, to_exp_mant_const, from_exp_mant}
use snmalloc.Sizeclass.{min_object_count, num_small_sizeclasses, max_small_sizeclass_size}
use snmalloc.Sizeclass.{min_chunk_bits, small_entry, fast_small, div_mult_shift, max_capacity}
use snmalloc.Sizeclass.{
  sizeclass_to_size, is_small_sizeclass, size_to_sizeclass_const, sizeclass_to_size_const,
}
use Prim.Native.Nat.{max}

pub num_small_sizeclasses_lem :
    size_to_sizeclass_const max_small_sizeclass_size + 1 ≡ num_small_sizeclasses
unfolding to_exp_mant_const clz_const
num_small_sizeclasses_lem = refl

pub div_mult_shift_lem : (strict : Bool) → div_mult_shift strict ≡ 54
unfolding div_mult_shift next_pow2_bits_const clz_const max_capacity small_entry from_exp_mant
div_mult_shift_lem true = refl
div_mult_shift_lem false = refl

-- The exponent of a class's slab size.
unfoldable pub slab_bits : Bool → ℕ → ℕ
slab_bits strict sc =
    max (next_pow2_bits_const (min_object_count strict * sizeclass_to_size_const sc)) min_chunk_bits

entry_ok : Bool → ℕ → Bool
entry_ok strict sc =
    let size = sizeclass_to_size_const sc in
    let k = slab_bits strict sc in
    let n = 2 ^ k / size in
    leb 16 size
    && leb size 65536
    && leb 14 k
    && leb k 20
    && leb n 1024
    && leb (min_object_count strict) n
    && leb (2 ^ k * size) (2 ^ 54)
    && leb (2 ^ k * ((2 ^ 54 - 1) / size + 1)) word
    && leb ((2 ^ k + 1) * (size * size)) word

entries_ok : (strict : Bool) → all_below num_small_sizeclasses (entry_ok strict) ≡ true
unfolding all_below entry_ok slab_bits from_exp_mant next_pow2_bits_const clz_const
entries_ok true = refl
entries_ok false = refl

-- What holds of every small class.
pub record IsEntry (strict : Bool) (sc : ℕ) : Type 0 where
  pub some_size : 16 ≤ sizeclass_to_size_const sc
  pub size_le : sizeclass_to_size_const sc ≤ 65536
  pub chunk_le : 14 ≤ slab_bits strict sc
  pub slab_le : slab_bits strict sc ≤ 20
  pub count_le : 2 ^ slab_bits strict sc / sizeclass_to_size_const sc ≤ 1024
  pub le_count : min_object_count strict ≤ 2 ^ slab_bits strict sc / sizeclass_to_size_const sc
  pub div_fits : 2 ^ slab_bits strict sc * sizeclass_to_size_const sc ≤ 2 ^ 54
  pub product_fits :
      2 ^ slab_bits strict sc * ((2 ^ 54 - 1) / sizeclass_to_size_const sc + 1) ≤ word
  pub mod_fits :
      (2 ^ slab_bits strict sc + 1) * (sizeclass_to_size_const sc * sizeclass_to_size_const sc)
      ≤ word

pub entry : (strict : Bool) (sc : ℕ) → sc < num_small_sizeclasses → IsEntry strict sc
unfolding entry_ok
entry strict sc h =
    let checked =
      all_below_sound num_small_sizeclasses (entry_ok strict) sc (entries_ok strict) h in
    ground (arith, checked)

pub largest_size : from_exp_mant 2 4 43 ≡ 65536
unfolding from_exp_mant
largest_size = refl

-- The test of a small size: 0 wraps around and fails it.
pub is_small_sizeclass_iff :
    (size : ℕ) → size < word → (is_small_sizeclass size ≡ true) ↔ (0 < size) × (size ≤ 65536)
unfolding is_small_sizeclass
is_small_sizeclass_iff size lt = rw largest_size (ground arith)

pub sizeclass_to_size-eq :
    (strict : Bool) (sc : ℕ) → sizeclass_to_size strict sc ≡ from_exp_mant 2 4 sc
unfolding sizeclass_to_size fast_small small_entry
sizeclass_to_size-eq strict sc = refl
