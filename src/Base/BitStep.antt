-- ===== src/Base/BitStep.antt =====
-- One binary digit at a time: each bit operation on `x` and `y` is twice itself on their halves,
-- plus the operation on the lowest digits.
use Prim.Native.Nat.{
  ℕ, zero, suc, ◌+◌, ◌-◌, ◌*◌, ◌/◌, ◌%◌, ◌≤◌, ◌<◌, min, max, differ, digits, bitwise,
}
use Prim.Native.Nat.{bit_and, bit_or, bit_xor, bit_and-bitwise, bit_or-bitwise, bit_xor-bitwise}
use mathlib.Core.Path.{◌≡◌, refl, ap, ◌∙◌}
use native.Mathlib.Omega.{arith}

-- `past y` is what is left of `y` once the first number has no more digits; it has to be the
-- operation on 0.
module _ (past : ℕ → ℕ) (op : ℕ → ℕ → ℕ)
    (past_step : (y : ℕ) → past y ≡ past (y / 2) * 2 + op 0 (y % 2)) where
  -- A count of digits one larger than enough gives the same.
  one_more : (n x y : ℕ) → x ≤ n → digits past op (suc n) x y ≡ digits past op n x y
  one_more zero zero y enough = refl
  one_more (suc n) zero y enough = refl
  one_more zero (suc x) y enough = absurd (omega arith)
  one_more (suc n) (suc x) y enough =
      ap (λ (t : ℕ). t * 2 + op (suc x % 2) (y % 2)) (one_more n (suc x / 2) (y / 2) (omega arith))

  any_more : (k n x y : ℕ) → x ≤ n → digits past op (k + n) x y ≡ digits past op n x y
  any_more zero n x y enough = let none : 0 + n ≡ n = omega arith in rw none refl
  any_more (suc k) n x y enough =
      let shape : suc k + n ≡ suc (k + n) = omega arith in
      rw shape (one_more (k + n) x y (omega arith) ∙ any_more k n x y enough)

  bitwise_step :
      (x y : ℕ) → bitwise past op x y ≡ bitwise past op (x / 2) (y / 2) * 2 + op (x % 2) (y % 2)
  bitwise_step zero y = past_step y
  bitwise_step (suc x) y =
      let half = suc x / 2 in
      let count : x - half + half ≡ x = omega arith in
      let same = any_more (x - half) half half (y / 2) (omega arith) in
      ap (λ (t : ℕ). t * 2 + op (suc x % 2) (y % 2)) (rw count at same)

pub bit_and_step : (x y : ℕ) → bit_and x y ≡ bit_and (x / 2) (y / 2) * 2 + min (x % 2) (y % 2)
bit_and_step x y = simp bit_and-bitwise (bitwise_step (λ t. 0) min (λ t. omega arith) x y)

pub bit_or_step : (x y : ℕ) → bit_or x y ≡ bit_or (x / 2) (y / 2) * 2 + max (x % 2) (y % 2)
bit_or_step x y = simp bit_or-bitwise (bitwise_step (λ t. t) max (λ t. omega arith) x y)

-- `differ` on two digits is their sum without the carry.
differ-add : (x y : ℕ) → x < 2 → y < 2 → differ x y ≡ (x + y) % 2
differ-add zero y x_lt y_lt = omega arith
differ-add (suc x) zero x_lt y_lt = omega arith
differ-add (suc x) (suc y) x_lt y_lt =
    let left : x ≡ 0 = omega arith in let right : y ≡ 0 = omega arith in rw (left, right) refl

pub bit_xor_step : (x y : ℕ) → bit_xor x y ≡ bit_xor (x / 2) (y / 2) * 2 + (x % 2 + y % 2) % 2
bit_xor_step x y =
    let step = bitwise_step (λ t. t) differ (λ t. omega arith) x y in
    let lowest = differ-add (x % 2) (y % 2) (omega arith) (omega arith) in
    simp bit_xor-bitwise
      (step ∙ ap (λ (d : ℕ). bitwise (λ t. t) differ (x / 2) (y / 2) * 2 + d) lowest)
