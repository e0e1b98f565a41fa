-- ===== src/Bits/ExpMant.antt =====
-- The exponent and mantissa encoding, at the two mantissa bits and four low bits that the size
-- classes use.
pub mod Aligned
use snmalloc.Base.{ℕ, zero, suc, ◌+◌, ◌-◌, ◌*◌, ◌/◌, ◌%◌, ◌^◌, ◌≤◌, ◌<◌, ◌≡◌, refl, ap, ◌∙◌}
use snmalloc.Base.{
  arith, bit_and_mask, bit_or_bounds, pow_pos, pow_suc, pow_add, pow_mono, lt-or-le,
}
use snmalloc.Base.{
  inl, inr, bit_or, bit_and, ◌==◌, ltb, leb, ltb→lt, all_below, all_below_sound, ◌&&◌, ◌||◌, true,
  false, if◌then◌else◌,
}
use snmalloc.Bits.{word, clz_const, to_exp_mant_const, from_exp_mant, mask_bits}
use snmalloc.Bits.Leading.{IsWidth, IsWidth-unique, IsWidth-le, IsWidth-intro, clz_const-IsWidth}
use native.Mathlib.Nat.{
  mod-lt, mod-eq_of_lt, mul-le-mul_right, le-div_iff_mul-le, div-lt_iff_lt-mul, le_refl,
  div-mul-le_self, div-add-mod', add-mul,
}

from_small : (j : ℕ) → j + 1 < 4 → from_exp_mant 2 4 j ≡ (j + 1) * 16
unfolding from_exp_mant
from_small j h = ground (arith, bit_and_mask 2 (j + 1))

from_large :
    (j d : ℕ) → (j + 1) / 4 ≡ d + 1 → d ≤ 56 → from_exp_mant 2 4 j ≡ ((j + 1) % 4 + 4) * 2 ^ (d + 4)
unfolding from_exp_mant
from_large j d e h =
    let le : (d + 4) ≤ 60 = omega arith in
    let fits = pow_mono (d + 4) 60 le in
    let nowrap : (j + 1) % word ≡ j + 1 = mod-eq_of_lt (omega (arith, e)) in
    let quarter : (j + 1) / 2 ^ 2 ≡ suc d = omega (arith, e) in
    let bound : ((j + 1) % 4 + 4) * 2 ^ (d + 4) ≤ 7 * 2 ^ (d + 4) =
      mul-le-mul_right (2 ^ (d + 4)) (omega arith) in
    let positive : if◌then◌else◌ {A = ℕ} (suc d == 0) 0 1 ≡ 1 = ground arith in
    let back : suc d - 1 ≡ d = omega arith in
    let low : bit_and (j + 1) (2 ^ 2 - 1) ≡ (j + 1) % 4 = bit_and_mask 2 (j + 1) in
    rw (nowrap, quarter, positive, low, back) (mod-eq_of_lt (omega (arith, fits, bound)))

-- The number of digits above the lowest six.
extra_digits : (v w : ℕ) → IsWidth w v → 7 ≤ w → w ≤ 63 → 58 - clz_const (bit_or v 32) ≡ w - 6
extra_digits v w p h le =
    let wide = pow_mono 6 w (omega arith) in
    let v_fits = pow_mono w 63 le in
    let both = bit_or_bounds w v 32 p.below (omega (arith, wide)) in
    let same : IsWidth w (bit_or v 32) = record {
      some_digit = p.some_digit;
      above = omega (arith, p.above, both);
      below = both.2;
    } in
    let counted =
      clz_const-IsWidth (bit_or v 32) (omega (arith, both)) (omega (arith, both, v_fits)) in
    omega (arith, counted.1, IsWidth-unique _ w _ counted.0 same)

no_extra_digits : (v : ℕ) → v < 64 → 58 - clz_const (bit_or v 32) ≡ 0
no_extra_digits v h =
    let both = bit_or_bounds 6 v 32 h (omega arith) in
    let same : IsWidth 6 (bit_or v 32) = IsWidth-intro 5 _ both.1 both.2 in
    let counted = clz_const-IsWidth (bit_or v 32) (omega (arith, both)) (omega (arith, both)) in
    omega (arith, counted.1, IsWidth-unique _ 6 _ counted.0 same)

to_small : (value : ℕ) → 0 < value → value ≤ 64 → to_exp_mant_const 2 4 value ≡ (value - 1) / 16
unfolding to_exp_mant_const
to_small value pos h =
    let v : (value + 2 ^ 64 - 1) % word ≡ value - 1 = omega arith in
    rw (v, no_extra_digits (value - 1) (omega arith), bit_and_mask 2 ((value - 1) / 2 ^ 4))
      (omega arith)

module _ (value d : ℕ) (p : IsWidth (d + 7) (value - 1)) (le : value ≤ 2 ^ 63) where
  to_large : to_exp_mant_const 2 4 value ≡ suc d * 4 + (value - 1) / 2 ^ (d + 4) % 4
  unfolding to_exp_mant_const
  to_large =
      let v : (value + 2 ^ 64 - 1) % word ≡ value - 1 =
        omega (arith, p.above, pow_pos (d + 7 - 1)) in
      let top = IsWidth-le (d + 7) 63 (value - 1) p (omega (arith, p.above, pow_pos (d + 7 - 1))) in
      let extra : 58 - clz_const (bit_or (value - 1) 32) ≡ suc d =
        omega (arith, extra_digits (value - 1) (d + 7) p (omega arith) top) in
      let positive : if◌then◌else◌ {A = ℕ} (suc d == 0) 0 1 ≡ 1 = ground arith in
      let shift : 4 + suc d - 1 ≡ d + 4 = omega arith in
      rw (v, extra, positive, shift, bit_and_mask 2 ((value - 1) / 2 ^ (d + 4))) (omega arith)

  -- The leading bit and the two bits of the mantissa.
  leading_bits : (4 ≤ (value - 1) / 2 ^ (d + 4)) × ((value - 1) / 2 ^ (d + 4) < 8)
  leading_bits =
      let e : d + 7 - 1 ≡ d + 6 = omega arith in
      let lo = rw e at p.above in
      let four = pow_add (d + 4) 2 in
      let eight = pow_add (d + 4) 3 in
      let e6 : d + 4 + 2 ≡ d + 6 = omega arith in
      let e7 : d + 4 + 3 ≡ d + 7 = omega arith in
      let four' = rw e6 at four in
      let eight' = rw e7 at eight in
      (
        (le-div_iff_mul-le (pow_pos (d + 4))).1 (omega (arith, lo, four')),
        (div-lt_iff_lt-mul (pow_pos (d + 4))).1 (omega (arith, p.below, eight')),
      )

  -- The size of the class is the value rounded up to the granule of its exponent.
  pub from_to_large :
      d ≤ 55
      → from_exp_mant 2 4 (to_exp_mant_const 2 4 value)
        ≡ ((value - 1) / 2 ^ (d + 4) + 1) * 2 ^ (d + 4)
  from_to_large h =
      let q = (value - 1) / 2 ^ (d + 4) in
      let range = leading_bits in
      elim (lt-or-le (q % 4) 3) [
        | inl low ↦
            rw (to_large, from_large (suc d * 4 + q % 4) d (omega arith) (omega arith))
              (ap (λ (t : ℕ). t * 2 ^ (d + 4)) (omega arith))
        | inr high ↦
            rw (to_large, from_large (suc d * 4 + q % 4) (suc d) (omega arith) (omega arith))
              (let e : suc d + 4 ≡ suc (d + 4) = omega arith in
                let seven : q ≡ 7 = omega (arith, range, high) in
                let none_left : (suc d * 4 + q % 4 + 1) % 4 ≡ 0 = omega arith in
                rw (none_left, seven, e, pow_suc (d + 4)) (omega arith))
      ]

  -- The class below stands for a smaller size.
  from_pred_large :
      (j : ℕ) → d ≤ 55 → j + 1 ≡ to_exp_mant_const 2 4 value → from_exp_mant 2 4 j < value
  from_pred_large j h e =
      let q = (value - 1) / 2 ^ (d + 4) in
      let range = leading_bits in
      let at : j + 1 ≡ suc d * 4 + q % 4 = e ∙ to_large in
      let digit : (j + 1) % 4 + 4 ≡ q = omega (arith, at, range) in
      rw (from_large j d (omega (arith, at)) (omega arith), digit)
        (omega (arith, div-mul-le_self (value - 1) (2 ^ (d + 4)), p.above, pow_pos (d + 7 - 1)))

-- The sizes of the classes up to 2 ^ 63 grow.
steps_table : all_below 231 (λ j. ltb (from_exp_mant 2 4 j) (from_exp_mant 2 4 (j + 1))) ≡ true
unfolding all_below from_exp_mant
steps_table = refl

pub from_mono : (i k : ℕ) → i + k ≤ 231 → from_exp_mant 2 4 i ≤ from_exp_mant 2 4 (i + k)
from_mono i zero h = let e : i + 0 ≡ i = omega arith in rw e (le_refl _)
from_mono i (suc k) h =
    let e : i + suc k ≡ i + k + 1 = omega arith in
    rw e (
      omega (
        arith,
        from_mono i k (omega arith),
        ltb→lt _ _ (all_below_sound 231 _ (i + k) steps_table (omega arith)),
      ))

-- Up to 64 every value is checked.
small_table :
    all_below 64 (λ v.
      let c = to_exp_mant_const 2 4 (v + 1) in
      ltb v (from_exp_mant 2 4 c) && leb c 3 && (c == 0 || leb (from_exp_mant 2 4 (c - 1)) v))
    ≡ true
unfolding all_below from_exp_mant to_exp_mant_const clz_const
small_table = refl

-- What `to_exp_mant_const` returns: the class is within the table, its size is at least the
-- value, and the class below has a smaller size.
record IsLeastClass (value c : ℕ) : Type 0 where
  within : c ≤ 231
  enough : value ≤ from_exp_mant 2 4 c
  needed : (j : ℕ) → j + 1 ≡ c → from_exp_mant 2 4 j < value

to_small_lem : (v : ℕ) → v < 64 → IsLeastClass (v + 1) (to_exp_mant_const 2 4 (v + 1))
to_small_lem v h =
    let c = to_exp_mant_const 2 4 (v + 1) in
    let checked = all_below_sound 64 _ v small_table h in
    record {
      within = ground (arith, checked);
      enough = ground (arith, checked);
      needed =
          λ j e. let last : j ≡ c - 1 = omega (arith, e) in rw last (ground (arith, checked, e));
    }

-- A value above 64 has seven digits or more once one is taken off.
pub digits_of :
    (value : ℕ) → 64 < value → value ≤ 2 ^ 62 → (d : ℕ) × IsWidth (d + 7) (value - 1) × (d ≤ 55)
digits_of value lo hi =
    let p = clz_const-IsWidth (value - 1) (omega arith) (omega arith) in
    let w = 64 - clz_const (value - 1) in
    let wide : 7 ≤ w = elim (lt-or-le w 7) [
      | inl h ↦ absurd (omega (arith, pow_mono w 6 (omega arith), p.0.below))
      | inr h ↦ h
    ] in
    let top = IsWidth-le w 62 (value - 1) p.0 (omega arith) in
    let e : w - 7 + 7 ≡ w = omega arith in (w - 7, rw e p.0, omega arith)

to_large_lem :
    (value : ℕ) → 64 < value → value ≤ 2 ^ 62 → IsLeastClass value (to_exp_mant_const 2 4 value)
to_large_lem value lo hi =
    let (d, p, small) = digits_of value lo hi in
    let size = from_to_large value d p (omega arith) small in
    let round = div-add-mod' (value - 1) (2 ^ (d + 4)) in
    record {
      within = omega (arith, to_large value d p (omega arith));
      enough = rw size (
          omega (
            arith,
            round,
            mod-lt (value - 1) (pow_pos (d + 4)),
            add-mul ((value - 1) / 2 ^ (d + 4)) 1 (2 ^ (d + 4)),
          ));
      needed = λ j e. from_pred_large value d p (omega arith) j small e;
    }

least_class :
    (value : ℕ) → 0 < value → value ≤ 2 ^ 62 → IsLeastClass value (to_exp_mant_const 2 4 value)
least_class value pos le = elim (lt-or-le 64 value) [
  | inl lo ↦ to_large_lem value lo le
  | inr h ↦
      let e : value - 1 + 1 ≡ value = omega arith in
      rw e at (to_small_lem (value - 1) (omega arith))
]

below_least : (value c j : ℕ) → IsLeastClass value c → j < c → from_exp_mant 2 4 j < value
below_least value c j p h =
    let last : c - 1 + 1 ≡ c = omega arith in
    let e : j + (c - 1 - j) ≡ c - 1 = omega arith in
    let grows = rw e at (from_mono j (c - 1 - j) (omega (arith, p.within))) in
    omega (arith, grows, p.needed (c - 1) last)

-- `to_exp_mant_const` gives the least class whose size is not below the value, and
-- `from_exp_mant` gives that size: for values from 1 to 2 ^ 62.
pub to_exp_mant_least :
    (value j : ℕ)
    → 0 < value
    → value ≤ 2 ^ 62
    → (value ≤ from_exp_mant 2 4 (to_exp_mant_const 2 4 value))
      × (j < to_exp_mant_const 2 4 value → from_exp_mant 2 4 j < value)
to_exp_mant_least value j pos le =
    let p = least_class value pos le in (p.enough, below_least value _ j p)

-- The two functions are inverse on the classes: `to_exp_mant_const` gives a class's size back as
-- that class.
pub to-from_exp_mant :
    (c : ℕ)
    → c ≤ 231
    → 0 < from_exp_mant 2 4 c
    → from_exp_mant 2 4 c ≤ 2 ^ 62
    → to_exp_mant_const 2 4 (from_exp_mant 2 4 c) ≡ c
to-from_exp_mant c h pos le =
    let p = least_class (from_exp_mant 2 4 c) pos le in
    let k = to_exp_mant_const 2 4 (from_exp_mant 2 4 c) in
    elim (lt-or-le c k) [
      | inl less ↦ absurd (omega (arith, below_least (from_exp_mant 2 4 c) k c p less))
      | inr le' ↦ elim (lt-or-le k c) [
        | inl more ↦
            let e : k + 1 + (c - (k + 1)) ≡ c = omega arith in
            let grows = rw e at (from_mono (k + 1) (c - (k + 1)) (omega arith)) in
            absurd (
              omega (
                arith,
                p.enough,
                grows,
                ltb→lt _ _ (all_below_sound 231 _ k steps_table (omega arith)),
              ))
        | inr le'' ↦ omega arith
      ]
    ]
