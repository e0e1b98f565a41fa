-- ===== src/Base/BitField.antt =====
-- Masks, fields and single bits of a number, as arithmetic, at every width.
use Prim.Native.Nat.{ℕ, zero, suc, ◌+◌, ◌-◌, ◌*◌, ◌/◌, ◌%◌, ◌^◌, ◌≤◌, ◌<◌}
use Prim.Native.Nat.{bit_and, bit_or, bit_xor, bit_or-bitwise}
use mathlib.Core.Path.{◌≡◌, refl, ap, ◌∙◌}
use native.Mathlib.Nat.{mod-eq_of_lt, one-mul, suc-mul}
use native.Mathlib.Omega.{arith}
use snmalloc.Base.BitStep.{bit_and_step, bit_or_step, bit_xor_step}
use snmalloc.Base.Pow.{pow_pos, pow_suc, pow_split, div_pow_suc, div_pow_lt}

-- Each goes by the lowest digit, under a bound on the number.
and_zero : (n a : ℕ) → a ≤ n → bit_and a 0 ≡ 0
and_zero n zero h = refl
and_zero zero (suc a) h = absurd (omega arith)
and_zero (suc n) (suc a) h =
    omega (arith, bit_and_step (suc a) 0, and_zero n (suc a / 2) (omega arith))

pub bit_and-zero : (a : ℕ) → bit_and a 0 ≡ 0
bit_and-zero a = and_zero a a (omega arith)

or_zero : (n a : ℕ) → a ≤ n → bit_or a 0 ≡ a
or_zero n zero h = refl
or_zero zero (suc a) h = absurd (omega arith)
or_zero (suc n) (suc a) h =
    omega (arith, bit_or_step (suc a) 0, or_zero n (suc a / 2) (omega arith))

pub bit_or-zero : (a : ℕ) → bit_or a 0 ≡ a
bit_or-zero a = or_zero a a (omega arith)

pub mul-pow_suc : (q k : ℕ) → q * 2 ^ suc k ≡ 2 * (q * 2 ^ k)
mul-pow_suc q k = omega (arith, ap (λ (t : ℕ). q * t) (pow_suc k))

-- A high part above `k` bits, joined with a low part that fits them, is their sum.
pub bit_or_fields : (k hi lo : ℕ) → lo < 2 ^ k → bit_or (hi * 2 ^ k) lo ≡ hi * 2 ^ k + lo
bit_or_fields zero hi lo lo_lt =
    let none_left : lo ≡ 0 = omega arith in rw (none_left, bit_or-zero) (omega arith)
bit_or_fields (suc k) hi lo lo_lt =
    let halved = bit_or_fields k hi (lo / 2) (omega (arith, pow_suc k)) in
    ground (arith, halved, pow_suc k, mul-pow_suc hi k, bit_or_step (hi * 2 ^ suc k) lo)

-- A shifted mask reads the number above the shift.
pub bit_and_shift : (k a m : ℕ) → bit_and a (m * 2 ^ k) ≡ bit_and (a / 2 ^ k) m * 2 ^ k
bit_and_shift zero a m =
    let e : m * 2 ^ 0 ≡ m = omega arith in
    let d : a / 2 ^ 0 ≡ a = omega arith in rw (e, d) (omega arith)
bit_and_shift (suc k) a m = ground (
  arith,
  bit_and_step a (m * 2 ^ suc k),
  mul-pow_suc m k,
  mul-pow_suc (bit_and (a / 2 / 2 ^ k) m) k,
  ap (λ (t : ℕ). bit_and t m * 2 ^ suc k) (div_pow_suc a k),
  bit_and_shift k (a / 2) m,
)

and_mask : (k q r : ℕ) → r < 2 ^ k → bit_and (q * 2 ^ k + r) (2 ^ k - 1) ≡ r
and_mask zero q r fits = rw bit_and-zero (omega arith)
and_mask (suc k) q r fits = ground (
  arith,
  bit_and_step (q * 2 ^ suc k + r) (2 ^ suc k - 1),
  mul-pow_suc q k,
  pow_suc k,
  pow_pos k,
  and_mask k q (r / 2) (omega (arith, pow_suc k)),
)

-- A mask of `k` low bits is the remainder by `2 ^ k`.
pub bit_and_mask : (k a : ℕ) → bit_and a (2 ^ k - 1) ≡ a % 2 ^ k
bit_and_mask k a = ground (arith, pow_pos k, and_mask k (a / 2 ^ k) (a % 2 ^ k))

bit_and-one : (a : ℕ) → bit_and a 1 ≡ a % 2
bit_and-one a = omega (arith, bit_and_mask 1 a)

-- A single bit.
pub bit_and_bit : (i a : ℕ) → bit_and a (2 ^ i) ≡ a / 2 ^ i % 2 * 2 ^ i
bit_and_bit i a = omega (
  arith,
  bit_and_shift i a 1,
  ap (λ (t : ℕ). t * 2 ^ i) (bit_and-one (a / 2 ^ i)),
  ap (λ (t : ℕ). bit_and a t) (one-mul (2 ^ i)),
)

pub pred-mul : (t p : ℕ) → (t - 1) * p ≡ t * p - p
pred-mul zero p = omega arith
pred-mul (suc t) p = let e : suc t - 1 ≡ t = omega arith in rw e (omega (arith, suc-mul t p))

-- Clearing the `k` low bits of a word of `w` bits.
pub bit_and_high : (w k a : ℕ) → k ≤ w → a < 2 ^ w → bit_and a (2 ^ w - 2 ^ k) ≡ a - a % 2 ^ k
bit_and_high w k a h lt = rw (shape, bit_and_shift k a (2 ^ (w - k) - 1), kept) (omega arith)
  where
    shape : 2 ^ w - 2 ^ k ≡ (2 ^ (w - k) - 1) * 2 ^ k
    shape = omega (arith, pow_split k w h, pred-mul (2 ^ (w - k)) (2 ^ k))

    kept : bit_and (a / 2 ^ k) (2 ^ (w - k) - 1) ≡ a / 2 ^ k
    kept = bit_and_mask (w - k) (a / 2 ^ k) ∙ mod-eq_of_lt (div_pow_lt a k w h lt)

xor_inverse : (n a b : ℕ) → a ≤ n → b ≤ n → bit_xor (bit_xor a b) b ≡ a
xor_inverse zero zero zero p q = refl
xor_inverse zero (suc a) b p q = absurd (omega arith)
xor_inverse zero zero (suc b) p q = absurd (omega arith)
xor_inverse (suc n) a b p q = omega (
  arith,
  bit_xor_step (bit_xor a b) b,
  bit_xor_step a b,
  ap (λ (t : ℕ). bit_xor t (b / 2)) half,
  xor_inverse n (a / 2) (b / 2) (omega arith) (omega arith),
)
  where
    half : bit_xor a b / 2 ≡ bit_xor (a / 2) (b / 2)
    half = omega (arith, bit_xor_step a b)

-- Exclusive or by the same key twice gives the number back.
pub bit_xor_inverse : (a b : ℕ) → bit_xor (bit_xor a b) b ≡ a
bit_xor_inverse a b = xor_inverse (a + b) a b (omega arith) (omega arith)

-- Exclusive or stays in the word.
pub bit_xor-lt : (w a b : ℕ) → a < 2 ^ w → b < 2 ^ w → bit_xor a b < 2 ^ w
bit_xor-lt zero a b p q =
    let ea : a ≡ 0 = omega arith in let eb : b ≡ 0 = omega arith in rw (ea, eb) (omega arith)
bit_xor-lt (suc w) a b p q = omega (
  arith,
  bit_xor_step a b,
  pow_suc w,
  bit_xor-lt w (a / 2) (b / 2) (omega (arith, pow_suc w)) (omega (arith, pow_suc w)),
)

-- `|` is at least each side, and stays in the word.
pub bit_or_bounds :
    (w a b : ℕ) → a < 2 ^ w → b < 2 ^ w → (a ≤ bit_or a b) × (b ≤ bit_or a b) × (bit_or a b < 2 ^ w)
bit_or_bounds zero a b p q =
    let ea : a ≡ 0 = omega arith in let eb : b ≡ 0 = omega arith in rw (ea, eb) (omega arith)
bit_or_bounds (suc w) a b p q = omega (
  arith,
  bit_or_step a b,
  pow_suc w,
  bit_or_bounds w (a / 2) (b / 2) (omega (arith, pow_suc w)) (omega (arith, pow_suc w)),
)

zero_or : (a : ℕ) → bit_or 0 a ≡ a
zero_or a = bit_or-bitwise 0 a

-- Setting the `k` low bits.
pub bit_or_mask : (k a : ℕ) → bit_or (2 ^ k - 1) a ≡ a / 2 ^ k * 2 ^ k + (2 ^ k - 1)
bit_or_mask zero a =
    let e : 2 ^ 0 - 1 ≡ 0 = omega arith in rw e (omega (arith, bit_or_step 0 a, zero_or a))
bit_or_mask (suc k) a = ground (
  arith,
  bit_or_step (2 ^ suc k - 1) a,
  pow_suc k,
  pow_pos k,
  ap (λ (t : ℕ). t * 2 ^ suc k) (div_pow_suc a k),
  mul-pow_suc (a / 2 / 2 ^ k) k,
  bit_or_mask k (a / 2),
)
