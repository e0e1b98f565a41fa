-- ===== src/Base/Pow.antt =====
-- Powers of two, and division by them.
use Prim.Native.Nat.{ℕ, zero, suc, ◌+◌, ◌-◌, ◌*◌, ◌/◌, ◌^◌, ◌≤◌, ◌<◌}
use mathlib.Core.Path.{◌≡◌, sym, ap, ◌∙◌}
use native.Mathlib.Nat.{pow-suc, one-le-pow, pow-le-pow_right, div-div-eq-div-mul}
use native.Mathlib.Nat.{div-lt_iff_lt-mul, mul_comm}
use native.Mathlib.Omega.{arith}

pub pow_pos : (k : ℕ) → 1 ≤ 2 ^ k
pow_pos k = one-le-pow k 2 (omega arith)

pub pow_suc : (k : ℕ) → 2 ^ suc k ≡ 2 * 2 ^ k
pow_suc k = omega (arith, pow-suc 2 k)

pub pow_add : (a b : ℕ) → 2 ^ (a + b) ≡ 2 ^ a * 2 ^ b
pow_add a zero = let e : a + 0 ≡ a = omega arith in rw e (omega arith)
pow_add a (suc b) =
    let e : a + suc b ≡ suc (a + b) = omega arith in
    rw (e, pow_suc (a + b), pow_suc b, pow_add a b)
      (omega
        (arith, ap (λ (t : ℕ). 2 * t) (mul_comm (2 ^ a) (2 ^ b)), mul_comm (2 ^ a) (2 * 2 ^ b)))

pub pow_mono : (a b : ℕ) → a ≤ b → 2 ^ a ≤ 2 ^ b
pow_mono a b h = pow-le-pow_right (omega arith) h

-- A power of two splits at every smaller exponent.
pub pow_split : (a b : ℕ) → a ≤ b → 2 ^ b ≡ 2 ^ (b - a) * 2 ^ a
pow_split a b h =
    let e : b ≡ (b - a) + a = omega arith in ap (λ (t : ℕ). 2 ^ t) e ∙ pow_add (b - a) a

pub div_pow_suc : (a k : ℕ) → a / 2 ^ suc k ≡ a / 2 / 2 ^ k
div_pow_suc a k = rw (pow_suc k) (sym (div-div-eq-div-mul a 2 (2 ^ k)))

-- Shifting right by `k` leaves what fits the remaining bits.
pub div_pow_lt : (a k w : ℕ) → k ≤ w → a < 2 ^ w → a / 2 ^ k < 2 ^ (w - k)
div_pow_lt a k w h lt = (div-lt_iff_lt-mul (pow_pos k)).1 (rw (← pow_split k w h) lt)
