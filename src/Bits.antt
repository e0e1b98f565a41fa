-- ===== src/Bits.antt =====
-- src/snmalloc/ds_core/bits.h: the bit routines over `size_t`, for BITS = 64. A `size_t` is a
-- native number below 2 ^ 64; where the C++ wraps, the wrap is written out.
pub mod Leading
pub mod Trailing
pub mod Align
pub mod ExpMant
mod Tests
use snmalloc.Base.{ℕ, zero, suc, ◌+◌, ◌-◌, ◌*◌, ◌/◌, ◌%◌, ◌^◌, bit_and, bit_or}
use snmalloc.Base.{Bool, true, false, ◌&&◌, not, ltb, leb, ◌==◌, if◌then◌else◌}

abbrev pub bits : ℕ
bits = 64

-- 2 ^ BITS, one more than the largest `size_t`.
abbrev pub word : ℕ
word = 2 ^ 64

-- Subtraction and complement of a `size_t`.
abbrev pub sub_word : ℕ → ℕ → ℕ
sub_word a b = (a + word - b) % word

abbrev pub complement : ℕ → ℕ
complement a = word - 1 - a

-- Defined for a shift below 64, which the source asserts.
abbrev pub one_at_bit : ℕ → ℕ
one_at_bit shift = 2 ^ shift

abbrev pub mask_bits : ℕ → ℕ
mask_bits n = one_at_bit n - 1

-- The loop of `clz_const`, with `i + 1` rounds left when it looks at bit `i`.
pub clz_loop : ℕ → ℕ → ℕ → ℕ
clz_loop zero x n = n
clz_loop (suc i) x n =
    let rest = clz_loop i x (n + 1) in if bit_and x (one_at_bit i) == one_at_bit i then n else rest

unfoldable pub clz_const : ℕ → ℕ
unfolding clz_loop
clz_const x = clz_loop bits x 0

-- The loop of `ctz_const`, with `left` rounds left when it looks at bit `i`.
pub ctz_loop : ℕ → ℕ → ℕ → ℕ → ℕ
ctz_loop zero i x n = n
ctz_loop (suc left) i x n =
    let rest = ctz_loop left (i + 1) x (n + 1) in
    if bit_and x (one_at_bit i) == one_at_bit i then n else rest

unfoldable pub ctz_const : ℕ → ℕ
unfolding ctz_loop
ctz_const x = ctz_loop bits 0 x 0

-- The number of binary digits of `x`, by halving; `fuel` halvings are enough below 2 ^ fuel.
pub bit_width : ℕ → ℕ → ℕ
bit_width zero x = 0
bit_width (suc fuel) x = let rest = bit_width fuel (x / 2) in if x == 0 then 0 else suc rest

-- `clz` is the compiler's count of leading zeros, which is undefined on 0; so are the functions
-- below where they pass it 0.
unfoldable pub clz : ℕ → ℕ
unfolding bit_width
clz x = bits - bit_width bits x

-- The number of factors of 2.
pub twos : ℕ → ℕ → ℕ
twos zero x = 0
twos (suc fuel) x = let rest = twos fuel (x / 2) in if x % 2 == 0 then suc rest else 0

-- `ctz` is the compiler's count of trailing zeros, which is undefined on 0.
unfoldable pub ctz : ℕ → ℕ
unfolding twos
ctz x = twos bits x

unfoldable pub is_pow2 : ℕ → Bool
is_pow2 x = bit_and x (sub_word x 1) == 0

unfoldable pub next_pow2 : ℕ → ℕ
next_pow2 x = if leb x 2 then x else one_at_bit (bits - clz (x - 1))

unfoldable pub next_pow2_bits : ℕ → ℕ
next_pow2_bits x = if x == 1 then 0 else bits - clz (sub_word x 1)

unfoldable pub next_pow2_const : ℕ → ℕ
next_pow2_const x = if leb x 2 then x else one_at_bit (bits - clz_const (x - 1))

unfoldable pub prev_pow2_const : ℕ → ℕ
prev_pow2_const x = if leb x 2 then x else one_at_bit (bits - (clz_const ((x + 1) % word) + 1))

unfoldable pub next_pow2_bits_const : ℕ → ℕ
next_pow2_bits_const x = bits - clz_const (sub_word x 1)

unfoldable pub align_down : ℕ → ℕ → ℕ
align_down value alignment = bit_and value (complement (sub_word alignment 1))

unfoldable pub align_up : ℕ → ℕ → ℕ
align_up value alignment =
    let align_1 = sub_word alignment 1 in bit_and ((value + align_1) % word) (complement align_1)

-- The product and whether it overflowed, by the compiler's overflow test.
unfoldable pub umul : ℕ → ℕ → ℕ × Bool
umul x y = ((x * y) % word, leb word (x * y))

-- The same where the compiler has no such test.
unfoldable pub umul_portable : ℕ → ℕ → ℕ × Bool
umul_portable x y = ((x * y) % word, not (y == 0) && ltb ((word - 1) / y) x)

-- The template arguments MANTISSA_BITS and LOW_BITS come first.
unfoldable pub to_exp_mant_const : ℕ → ℕ → ℕ → ℕ
to_exp_mant_const mantissa low value =
    let leading = one_at_bit (mantissa + low) / 2 in
    let v = sub_word value 1 in
    let e = bits - mantissa - low - clz_const (bit_or v leading) in
    let b = if e == 0 then 0 else 1 in
    let m = bit_and (v / 2 ^ (low + e - b)) (mask_bits mantissa) in e * 2 ^ mantissa + m

unfoldable pub from_exp_mant : ℕ → ℕ → ℕ → ℕ
from_exp_mant zero low m_e = one_at_bit (m_e + low)
from_exp_mant (suc mb) low m_e =
    let mantissa = suc mb in
    let m_e' = (m_e + 1) % word in
    let m = bit_and m_e' (mask_bits mantissa) in
    let e = m_e' / 2 ^ mantissa in
    let b = if e == 0 then 0 else 1 in
    let extended_m = m + b * 2 ^ mantissa in extended_m * 2 ^ (e - b + low) % word
