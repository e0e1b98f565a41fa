-- ===== src/Sizeclass/Reciprocal.antt =====
-- Division and divisibility by a constant through multiplication by its reciprocal, which the
-- tables of ds/sizeclasstable.h hold.
use snmalloc.Base.{ℕ, zero, suc, ◌+◌, ◌-◌, ◌*◌, ◌/◌, ◌%◌, ◌≤◌, ◌<◌, ◌≡◌, refl, ap, ◌∙◌, arith, ◌↔◌}
use native.Mathlib.Nat.{mod-lt, div-add-mod', mul-le-mul_right, mul-le-mul_left}
use native.Mathlib.Nat.{lt_of_mul-lt-mul_right, le_of_mul-le-mul_right, div-eq_of_lt-le, mul_assoc}
use native.Mathlib.Nat.{
  mul_comm, mul-pos, mul-lt-mul_of_pos_left, mul-add-mod_self_right, mod-eq_of_lt,
}
use native.Mathlib.Nat.{
  zero-mul, le-mul_of_pos_right, mul-add, mul-sub, mul-one, suc-mul, add-mul, mul_right_comm,
  lt-div-mul-add, div-mul-le_self,
}

-- The reciprocal of `d` at precision `p` overshoots by less than one.
reciprocal_bounds :
    (p d : ℕ) → 0 < d → 0 < p → (p ≤ ((p - 1) / d + 1) * d) × (((p - 1) / d + 1) * d < p + d)
reciprocal_bounds p d pos some_p =
    omega (arith, div-add-mod' (p - 1) d, mod-lt (p - 1) pos, add-mul ((p - 1) / d) 1 d)

excess : (n d p : ℕ) → 0 < d → 0 < p → n * d ≤ p → n * (d - 1) < p
excess zero d p pos some_p fits = omega (arith, zero-mul (d - 1))
excess (suc n) d p pos some_p fits =
    omega (arith, mul-sub (suc n) d 1, mul-one (suc n), le-mul_of_pos_right (suc n) pos)

-- A multiplier `m` with `p ≤ m * d < p + d`, and `n` in the quotient `q` by `d`.
module _ (p d m n q : ℕ) (pos : 0 < d) (some_p : 0 < p) (lo : p ≤ m * d) (hi : m * d < p + d)
    (above : q * d ≤ n) (below : n < (q + 1) * d) where
  times_d : n * m * d ≡ n * (m * d)
  times_d = mul_assoc n m d

  product_above : q * p ≤ n * m
  product_above =
      le_of_mul-le-mul_right {k = d}
        (omega
          (arith, times_d, mul-le-mul_left n lo, mul-le-mul_right p above, mul_right_comm q p d))
        pos

  product_below : n * d ≤ p → n * m < (q + 1) * p
  product_below fits = lt_of_mul-lt-mul_right d (
      omega (
        arith,
        times_d,
        mul-le-mul_left n product_le,
        mul-add n p (d - 1),
        excess n d p pos some_p fits,
        mul-le-mul_right p below,
        suc-mul n p,
        mul_right_comm (q + 1) p d,
      ))
    where
      product_le : m * d ≤ p + (d - 1)
      product_le = omega arith

-- Multiplying by the reciprocal and dropping the low bits divides, as long as the number times
-- the divisor is below the precision.
pub reciprocal_div : (p d n : ℕ) → 0 < d → 0 < p → n * d ≤ p → n * ((p - 1) / d + 1) / p ≡ n / d
reciprocal_div p d n pos some_p fits =
    let b = reciprocal_bounds p d pos some_p in
    let above = div-mul-le_self n d in
    let below : n < (n / d + 1) * d =
      omega (arith, lt-div-mul-add {a = n} pos, add-mul (n / d) 1 d) in
    let lo = product_above p d ((p - 1) / d + 1) n (n / d) pos some_p b.0 b.1 above below in
    let hi = product_below p d ((p - 1) / d + 1) n (n / d) pos some_p b.0 b.1 above below fits in
    div-eq_of_lt-le p lo hi

-- A multiplier `m` that overshoots by `e < d`, and `n` with quotient `q` and remainder `r`.
module _ (p d m e q r : ℕ) (over : m * d ≡ p + e) (small : e < d) (rest : r < d)
    (fits : (q + 1) * (d * d) ≤ p) where
  slack : (q + 1) * e < m
  slack = lt_of_mul-lt-mul_right d (
      omega (
        arith,
        mul-lt-mul_of_pos_left {k = (q + 1) * d} small (mul-pos (omega arith) (omega arith)),
        mul_right_comm (q + 1) d e,
        mul_assoc (q + 1) d d,
      ))

  wrapped-lt : q * e + r * m < p
  wrapped-lt =
      omega (arith, slack, add-mul q 1 e, mul-le-mul_right m rest, suc-mul r m, mul_comm d m)

  product_split : (q * d + r) * m ≡ q * p + (q * e + r * m)
  product_split = omega (
    arith,
    add-mul (q * d) r m,
    mul_assoc q d m,
    ap (λ (t : ℕ). q * t) (mul_comm d m ∙ over),
    mul-add q p e,
  )

  wrapped : (q * d + r) * m % p ≡ q * e + r * m
  wrapped = rw (product_split, mul-add-mod_self_right q p (q * e + r * m)) (mod-eq_of_lt wrapped-lt)

  wrapped_iff : ((q * d + r) * m % p < m) ↔ (r ≡ 0)
  wrapped_iff = rw wrapped (to_zero r, from_zero r)
    where
      to_zero : (k : ℕ) → q * e + k * m < m → k ≡ 0
      to_zero zero h = refl
      to_zero (suc k) h = absurd (omega (arith, suc-mul k m))

      from_zero : (k : ℕ) → k ≡ 0 → q * e + k * m < m
      from_zero k h = rw h (omega (arith, slack, add-mul q 1 e, zero-mul m))

-- The product, wrapped at the precision, is below the reciprocal exactly for the multiples of
-- the divisor.
pub reciprocal_mod :
    (p d n : ℕ)
    → 0 < d
    → (n / d + 1) * (d * d) ≤ p
    → (n * ((p - 1) / d + 1) % p < (p - 1) / d + 1) ↔ (n % d ≡ 0)
reciprocal_mod p d n pos fits =
    let square : 0 < (n / d + 1) * (d * d) = mul-pos (omega arith) (mul-pos pos pos) in
    let some_p : 0 < p = omega (arith, square) in
    let b = reciprocal_bounds p d pos some_p in
    let m = (p - 1) / d + 1 in
    rw (div-add-mod' n d) at (
      wrapped_iff p d m (m * d - p) (n / d) (n % d) (omega (arith, b.0)) (omega (arith, b))
        (mod-lt n pos) fits)
