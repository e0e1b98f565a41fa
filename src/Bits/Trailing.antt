-- ===== src/Bits/Trailing.antt =====
-- `ctz` is the exponent of the largest power of two that divides a number.
use snmalloc.Base.{
  ℕ, zero, suc, ◌*◌, ◌/◌, ◌%◌, ◌^◌, ◌≤◌, ◌<◌, ◌≡◌, arith, Bool-cases, inl, inr, ◌==◌, true,
}
use snmalloc.Base.{pow_suc}
use snmalloc.Bits.{word, twos, ctz}
use native.Mathlib.Nat.{
  one-dvd, mod-eq-zero_of_dvd, dvd_trans, dvd-mul_right, mul-dvd-mul_left, dvd_of_mul-dvd-mul_left,
}
use Prim.Native.Nat.{◌∣◌}

pub twos-divides : (fuel x : ℕ) → 2 ^ twos fuel x ∣ x
unfolding twos
twos-divides zero x = one-dvd x
twos-divides (suc fuel) x = elim (Bool-cases (x % 2 == 0)) [
  | inl e ↦
      let whole : 2 * (x / 2) ≡ x = ground (arith, e) in
      rw (e, pow_suc (twos fuel (x / 2)))
        (rw whole at (mul-dvd-mul_left (2 ^ twos fuel (x / 2)) 2 (twos-divides fuel (x / 2))))
  | inr e ↦ rw e (one-dvd x)
]

pub twos-greatest : (fuel j x : ℕ) → 0 < x → x < 2 ^ fuel → 2 ^ j ∣ x → j ≤ twos fuel x
unfolding twos
twos-greatest fuel zero x pos lt h = omega arith
twos-greatest zero (suc j) x pos lt h = absurd (omega arith)
twos-greatest (suc fuel) (suc j) x pos lt h =
    let half : 2 * 2 ^ j ∣ x = rw (pow_suc j) at h in
    let even : x % 2 ≡ 0 = mod-eq-zero_of_dvd 2 (dvd_trans 2 (dvd-mul_right 2 (2 ^ j)) half) in
    let test : (x % 2 == 0) ≡ true = ground arith in
    let whole : x ≡ 2 * (x / 2) = omega arith in
    let halved : 2 ^ j ∣ x / 2 = dvd_of_mul-dvd-mul_left (2 ^ j) (omega arith) (rw whole at half) in
    rw test (
      omega
        (arith, twos-greatest fuel j (x / 2) (omega arith) (omega (arith, pow_suc fuel)) halved))

-- For a positive `size_t`, the power of two at `ctz` divides it, and no larger one does.
pub ctz_lem : (x j : ℕ) → 0 < x → x < word → (2 ^ ctz x ∣ x) × (2 ^ j ∣ x → j ≤ ctz x)
unfolding ctz
ctz_lem x j pos lt = (twos-divides 64 x, twos-greatest 64 j x pos lt)
