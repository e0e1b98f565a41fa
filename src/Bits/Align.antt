-- ===== src/Bits/Align.antt =====
-- Rounding down and up to a power of two, the test for a power of two, and `umul`.
use snmalloc.Base.{ℕ, zero, suc, ◌+◌, ◌-◌, ◌*◌, ◌/◌, ◌%◌, ◌^◌, ◌≤◌, ◌<◌, ◌≡◌}
use snmalloc.Base.{arith, bit_and, bit_and_high, pow_pos, pow_mono}
use snmalloc.Bits.{word, align_down, align_up, umul, umul_portable, sub_word, complement}
use snmalloc.Base.{inl, inr, lt-or-le, sym}
use Prim.Native.Nat.{◌∣◌}
use native.Mathlib.Nat.{
  dvd-sub, le_of_dvd, dvd_of_mod-eq-zero, mod-lt, mod-le, le-div_iff_mul-le, mod-eq_of_lt,
  div-add-mod', mul-mod_left, mul-zero,
}

pub pow_below : (k : ℕ) → k < 64 → 2 ^ k < word
pow_below k h = omega (arith, pow_mono k 63 (omega arith))

-- The complement of `2 ^ k - 1` keeps the bits from `k` up.
high_mask : (k : ℕ) → k < 64 → complement (sub_word (2 ^ k) 1) ≡ word - 2 ^ k
high_mask k h = omega (arith, pow_below k h, pow_pos k)

low_mask : (k : ℕ) → k < 64 → sub_word (2 ^ k) 1 ≡ 2 ^ k - 1
low_mask k h = omega (arith, pow_below k h, pow_pos k)

-- Rounding down to 2 ^ k removes the remainder.
pub align_down_lem :
    (value k : ℕ) → value < word → k < 64 → align_down value (2 ^ k) ≡ value - value % 2 ^ k
unfolding align_down
align_down_lem value k lt h = rw (high_mask k h) (bit_and_high 64 k value (omega arith) lt)

align_down-mask :
    (value k : ℕ)
    → k < 64
    → value + (2 ^ k - 1) < word
    → bit_and (value + (2 ^ k - 1)) (complement (2 ^ k - 1))
      ≡ value + (2 ^ k - 1) - (value + (2 ^ k - 1)) % 2 ^ k
align_down-mask value k h fits =
    let e : complement (2 ^ k - 1) ≡ word - 2 ^ k = omega (arith, pow_below k h, pow_pos k) in
    rw e (bit_and_high 64 k (value + (2 ^ k - 1)) (omega arith) fits)

down_mod : (v p : ℕ) → 0 < p → (v - v % p) % p ≡ 0
down_mod v p pos =
    let e : v - v % p ≡ v / p * p = omega (arith, div-add-mod' v p) in rw e (mul-mod_left (v / p) p)

pub align_up-eq :
    (value k : ℕ)
    → k < 64
    → value + (2 ^ k - 1) < word
    → align_up value (2 ^ k) ≡ value + (2 ^ k - 1) - (value + (2 ^ k - 1)) % 2 ^ k
unfolding align_up
align_up-eq value k h fits =
    let e : (value + (2 ^ k - 1)) % word ≡ value + (2 ^ k - 1) = mod-eq_of_lt fits in
    rw (low_mask k h, e) (align_down-mask value k h fits)

-- Rounding up to 2 ^ k, where that does not overflow, gives a multiple of 2 ^ k that is at least
-- the value and less than 2 ^ k above it.
pub align_up_lem :
    (value k : ℕ)
    → k < 64
    → value + (2 ^ k - 1) < word
    → (align_up value (2 ^ k) % 2 ^ k ≡ 0)
      × (value ≤ align_up value (2 ^ k))
      × (align_up value (2 ^ k) < value + 2 ^ k)
align_up_lem value k h fits =
    let v = value + (2 ^ k - 1) in
    let small : v % 2 ^ k < 2 ^ k = mod-lt v (pow_pos k) in
    let exact = align_up-eq value k h fits in
    (
      rw exact (down_mod v (2 ^ k) (pow_pos k)),
      omega (arith, exact, small, pow_pos k),
      omega (arith, exact, pow_pos k, mod-le v (2 ^ k)),
    )

-- Rounding down gives the largest multiple of 2 ^ k that is not above the value.
pub align_down_bounds :
    (value k : ℕ)
    → value < word
    → k < 64
    → (align_down value (2 ^ k) % 2 ^ k ≡ 0)
      × (align_down value (2 ^ k) ≤ value)
      × (value < align_down value (2 ^ k) + 2 ^ k)
align_down_bounds value k lt h =
    let exact = align_down_lem value k lt h in
    let small : value % 2 ^ k < 2 ^ k = mod-lt value (pow_pos k) in
    (
      rw exact (down_mod value (2 ^ k) (pow_pos k)),
      omega (arith, exact),
      omega (arith, exact, small),
    )

-- Two multiples that are less than one step apart are the same.
close_multiples : (a b p : ℕ) → p ∣ a → p ∣ b → a ≤ b → b < a + p → b ≡ a
close_multiples a b p da db le lt = elim (lt-or-le 0 (b - a)) [
  | inl some_more ↦ absurd (omega (arith, le_of_dvd some_more (dvd-sub p db da)))
  | inr same ↦ omega arith
]

-- Rounding leaves multiples alone.
pub align_up_exact :
    (value k : ℕ)
    → k < 64
    → value + (2 ^ k - 1) < word
    → 2 ^ k ∣ value
    → align_up value (2 ^ k) ≡ value
align_up_exact value k h fits multiple =
    let up = align_up_lem value k h fits in
    close_multiples value (align_up value (2 ^ k)) (2 ^ k) multiple
      (dvd_of_mod-eq-zero (2 ^ k) up.0) up.1 up.2

pub align_down_exact :
    (value k : ℕ) → value < word → k < 64 → 2 ^ k ∣ value → align_down value (2 ^ k) ≡ value
align_down_exact value k lt h multiple =
    let down = align_down_bounds value k lt h in
    sym (
      close_multiples (align_down value (2 ^ k)) value (2 ^ k) (dvd_of_mod-eq-zero (2 ^ k) down.0)
        multiple down.1 down.2)

-- A multiple that is not below the value is not below the value rounded up.
pub align_up-le :
    (value k end : ℕ)
    → k < 64
    → value + (2 ^ k - 1) < word
    → 2 ^ k ∣ end
    → value ≤ end
    → align_up value (2 ^ k) ≤ end
align_up-le value k end h fits multiple le =
    let up = align_up_lem value k h fits in
    elim (lt-or-le 0 (align_up value (2 ^ k) - end)) [
      | inl beyond ↦ absurd (
          omega (
            arith,
            le_of_dvd beyond (dvd-sub (2 ^ k) (dvd_of_mod-eq-zero (2 ^ k) up.0) multiple),
            up.2,
          ))
      | inr within ↦ omega arith
    ]

-- From a multiple that is below another one there is room for a step.
pub multiple_step : (a b p : ℕ) → p ∣ a → p ∣ b → a < b → a + p ≤ b
multiple_step a b p da db lt =
    let some_more : 0 < b - a = omega arith in omega (arith, le_of_dvd some_more (dvd-sub p db da))

-- The portable overflow test agrees with the compiler's.
pub umul_portable_lem : (x y : ℕ) → x < word → y < word → umul_portable x y ≡ umul x y
unfolding umul umul_portable
umul_portable_lem x zero hx hy = ground (arith, mul-zero x)
umul_portable_lem x (suc y) hx hy = ground (
  arith,
  (le-div_iff_mul-le {k = suc y} {x = x} {y = word - 1} (omega arith)).0,
  (le-div_iff_mul-le {k = suc y} {x = x} {y = word - 1} (omega arith)).1,
)
