-- ===== src/Bits/ExpMant/Aligned.antt =====
-- Rounding up to the size of a class keeps a value's alignment.
use snmalloc.Base.{ℕ, zero, suc, ◌+◌, ◌-◌, ◌*◌, ◌/◌, ◌%◌, ◌^◌, ◌≤◌, ◌<◌, ◌≡◌, refl, ap, arith}
use snmalloc.Base.{pow_pos, pow_split, pow_mono, lt-or-le, inl, inr, all_below, all_below_sound}
use snmalloc.Base.{◌==◌, ◌||◌, not, true}
use snmalloc.Bits.{to_exp_mant_const, from_exp_mant, clz_const}
use snmalloc.Bits.ExpMant.{digits_of, from_to_large}
use native.Mathlib.Nat.{suc-mul, zero-mul, div-add-mod', dvd_of_mod-eq-zero, mod-eq-zero_of_dvd}
use native.Mathlib.Nat.{
  dvd_trans, dvd-mul_left, dvd-mul_left_of_dvd, mul-add-div_right, div-eq_of_lt, le_of_dvd,
  le_of_lt,
}
use Prim.Native.Nat.{◌∣◌}

pub pow_dvd : (a b : ℕ) → a ≤ b → 2 ^ a ∣ 2 ^ b
pow_dvd a b h = rw (pow_split a b h) (dvd-mul_left (2 ^ a) (2 ^ (b - a)))

-- Rounding a multiple of `g` up to a multiple of `g` changes nothing.
round_multiple : (t g : ℕ) → 0 < g → ((suc t * g - 1) / g + 1) * g ≡ suc t * g
round_multiple t g pos =
    let e : suc t * g - 1 ≡ t * g + (g - 1) = omega (arith, suc-mul t g) in
    let small : (g - 1) / g ≡ 0 = div-eq_of_lt (omega arith) in
    rw (e, mul-add-div_right pos t (g - 1), small) (ap (λ (n : ℕ). n * g) (omega arith))

round_exact :
    (q g value : ℕ) → 0 < g → 0 < value → value ≡ q * g → ((value - 1) / g + 1) * g ≡ value
round_exact zero g value pos some e = absurd (omega (arith, zero-mul g))
round_exact (suc t) g value pos some e = rw e (round_multiple t g pos)

round_aligned :
    (value k j : ℕ) → 0 < value → 2 ^ k ∣ value → 2 ^ k ∣ ((value - 1) / 2 ^ j + 1) * 2 ^ j
round_aligned value k j pos h = elim (lt-or-le j k) [
  | inl deep ↦
      let exact = mod-eq-zero_of_dvd (2 ^ j) (dvd_trans (2 ^ j) (pow_dvd j k (le_of_lt deep)) h) in
      let whole : value ≡ value / 2 ^ j * 2 ^ j =
        omega (arith, exact, div-add-mod' value (2 ^ j)) in
      rw (round_exact (value / 2 ^ j) (2 ^ j) value (pow_pos j) pos whole) h
  | inr flat ↦ dvd-mul_left_of_dvd (2 ^ k) (pow_dvd k j flat) _
]

small_table :
    all_below 7 (λ k. all_below 64 (λ v.
      not ((v + 1) % 2 ^ k == 0)
      || (from_exp_mant 2 4 (to_exp_mant_const 2 4 (v + 1)) % 2 ^ k == 0)))
    ≡ true
unfolding all_below from_exp_mant to_exp_mant_const clz_const
small_table = refl

small_aligned :
    (value k : ℕ)
    → 0 < value
    → value ≤ 64
    → value % 2 ^ k ≡ 0
    → k < 7
    → from_exp_mant 2 4 (to_exp_mant_const 2 4 value) % 2 ^ k ≡ 0
small_aligned value k pos small h lt =
    let row =
      all_below_sound 64 _ (value - 1) (all_below_sound 7 _ k small_table lt) (omega arith) in
    let e : value - 1 + 1 ≡ value = omega arith in ground (arith, rw e at row)

exponent_lt : (k : ℕ) {value : ℕ} → 2 ^ k ≤ value → value ≤ 64 → k < 7
exponent_lt k top small = elim (lt-or-le k 7) [
  | inl h ↦ h
  | inr h ↦ absurd (omega (arith, pow_mono 7 k h))
]

-- The size of the class of a multiple of 2 ^ k is a multiple of 2 ^ k.
pub to_exp_mant_aligned :
    (value k : ℕ)
    → 0 < value
    → value ≤ 2 ^ 62
    → value % 2 ^ k ≡ 0
    → from_exp_mant 2 4 (to_exp_mant_const 2 4 value) % 2 ^ k ≡ 0
to_exp_mant_aligned value k pos le h = elim (lt-or-le 64 value) [
  | inl large ↦
      let (d, p, small) = digits_of value large le in
      rw (from_to_large value d p (omega arith) small) (
        mod-eq-zero_of_dvd (2 ^ k)
          (round_aligned value k (d + 4) pos (dvd_of_mod-eq-zero (2 ^ k) h)))
  | inr small ↦
      let top = le_of_dvd pos (dvd_of_mod-eq-zero (2 ^ k) h) in
      small_aligned value k pos small h (exponent_lt k top small)
]
