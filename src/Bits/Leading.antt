-- ===== src/Bits/Leading.antt =====
-- The counts of leading and trailing zeros, and the powers of two next to a number.
use snmalloc.Base.{ℕ, zero, suc, ◌+◌, ◌-◌, ◌*◌, ◌/◌, ◌%◌, ◌^◌, ◌≤◌, ◌<◌, ◌≡◌, refl, ap, ◌∙◌}
use snmalloc.Base.{bit_and, bit_and_bit, arith, pow_suc, pow_pos, pow_mono, inl, inr}
use snmalloc.Base.{◌==◌, false, lt-or-le}
use snmalloc.Bits.{word, clz_loop, clz_const, bit_width, clz, next_pow2, next_pow2_bits}
use native.Mathlib.Nat.{div-eq_of_lt-le, div-eq_of_lt}

-- `x` has `w` binary digits.
pub record IsWidth (w x : ℕ) : Type 0 where
  pub some_digit : 0 < w
  pub above : 2 ^ (w - 1) ≤ x
  pub below : x < 2 ^ w

pub IsWidth-le : (a b x : ℕ) → IsWidth a x → x < 2 ^ b → a ≤ b
IsWidth-le a b x p lt = elim (lt-or-le b a) [
  | inr h ↦ h
  | inl h ↦ absurd (omega (arith, p.above, lt, pow_mono b (a - 1) (omega arith)))
]

pub IsWidth-unique : (a b x : ℕ) → IsWidth a x → IsWidth b x → a ≡ b
IsWidth-unique a b x p q = omega (arith, IsWidth-le a b x p q.below, IsWidth-le b a x q p.below)

pub IsWidth-intro : (v x : ℕ) → 2 ^ v ≤ x → x < 2 ^ suc v → IsWidth (suc v) x
IsWidth-intro v x lo hi = record {
  some_digit = omega arith;
  above = let e : suc v - 1 ≡ v = omega arith in rw e lo;
  below = hi;
}

-- One more digit below.
IsWidth-half : (v x : ℕ) → IsWidth (suc v) (x / 2) → IsWidth (suc (suc v)) x
IsWidth-half v x p =
    let e : suc v - 1 ≡ v = omega arith in
    let lo = rw e at p.above in
    IsWidth-intro (suc v) x (omega (arith, lo, pow_suc v))
      (omega (arith, p.below, pow_suc v, pow_suc (suc v)))

IsWidth-suc : (v x : ℕ) → IsWidth v (x / 2) → IsWidth (suc v) x
IsWidth-suc zero x p = absurd (omega (arith, p.some_digit))
IsWidth-suc (suc v) x p = IsWidth-half v x p

bit_width_zero : (fuel : ℕ) → bit_width fuel 0 ≡ 0
unfolding bit_width
bit_width_zero zero = refl
bit_width_zero (suc fuel) = refl

-- `bit_width` is the number of binary digits.
pub bit_width-IsWidth : (fuel x : ℕ) → 0 < x → x < 2 ^ fuel → IsWidth (bit_width fuel x) x
unfolding bit_width
bit_width-IsWidth zero x pos lt = absurd (omega arith)
bit_width-IsWidth (suc fuel) zero pos lt = elim pos [ ]
bit_width-IsWidth (suc fuel) (suc zero) pos lt =
    rw (bit_width_zero fuel) (IsWidth-intro 0 1 (omega arith) (omega arith))
bit_width-IsWidth (suc fuel) (suc (suc x)) pos lt =
    let more : (suc (suc x) == 0) ≡ false = ground arith in
    rw more (
      IsWidth-suc (bit_width fuel (suc (suc x) / 2)) (suc (suc x))
        (bit_width-IsWidth fuel (suc (suc x) / 2) (omega arith) (omega (arith, pow_suc fuel))))

top_bit_set : (i x : ℕ) → 2 ^ i ≤ x → x < 2 ^ suc i → bit_and x (2 ^ i) ≡ 2 ^ i
top_bit_set i x lo hi =
    let one : x / 2 ^ i ≡ 1 = div-eq_of_lt-le (2 ^ i) (omega arith) (omega (arith, pow_suc i)) in
    rw (bit_and_bit i x, one) (omega arith)

top_bit_clear : (i x : ℕ) → x < 2 ^ i → bit_and x (2 ^ i) ≡ 0
top_bit_clear i x lt = rw (bit_and_bit i x, div-eq_of_lt lt) (omega arith)

-- The loop that starts at bit `i - 1` skips all but the digits of the number.
clz_loop_lem :
    (i x n : ℕ) → 0 < x → x < 2 ^ i → (w : ℕ) × IsWidth w x × (clz_loop i x n + w ≡ n + i)
unfolding clz_loop
clz_loop_lem zero x n pos lt = absurd (omega arith)
clz_loop_lem (suc i) x n pos lt = elim (lt-or-le x (2 ^ i)) [
  | inl h ↦
      let (w, p, e) = clz_loop_lem i x (n + 1) pos h in
      (w, p, ground (arith, top_bit_clear i x h, pow_pos i))
  | inr h ↦ (suc i, IsWidth-intro i x h lt, ground (arith, top_bit_set i x h lt))
]

-- For a positive `size_t`, `clz_const` counts the zeros above its leading digit.
pub clz_const-IsWidth :
    (x : ℕ) → 0 < x → x < word → IsWidth (64 - clz_const x) x × (clz_const x < 64)
unfolding clz_const
clz_const-IsWidth x pos lt =
    let (w, p, e) = clz_loop_lem 64 x 0 pos lt in
    let le = IsWidth-le w 64 x p lt in
    let eq : 64 - clz_loop 64 x 0 ≡ w = omega arith in (rw eq p, omega (arith, p.some_digit))

pub clz-IsWidth : (x : ℕ) → 0 < x → x < word → IsWidth (64 - clz x) x × (clz x < 64)
unfolding clz
clz-IsWidth x pos lt =
    let p = bit_width-IsWidth 64 x pos lt in
    let le = IsWidth-le (bit_width 64 x) 64 x p lt in
    let eq : 64 - (64 - bit_width 64 x) ≡ bit_width 64 x = omega arith in
    (rw eq p, omega (arith, p.some_digit))

-- The portable loop agrees with the compiler's count on every positive `size_t`.
pub clz-eq-clz_const : (x : ℕ) → 0 < x → x < word → clz x ≡ clz_const x
clz-eq-clz_const x pos lt =
    let p = clz-IsWidth x pos lt in
    let q = clz_const-IsWidth x pos lt in
    omega (arith, p.1, q.1, IsWidth-unique (64 - clz x) (64 - clz_const x) x p.0 q.0)

pow2_above : (w x : ℕ) → IsWidth w (x - 1) → (x ≤ 2 ^ w) × (2 ^ w + 2 ≤ 2 * x)
pow2_above w x p =
    let e : suc (w - 1) ≡ w = omega (arith, p.some_digit) in
    let double = rw e at (pow_suc (w - 1)) in
    omega (arith, p.above, p.below, double, pow_pos (w - 1))

pub next_pow2-eq : (x : ℕ) → 2 < x → next_pow2 x ≡ 2 ^ (64 - clz (x - 1))
unfolding next_pow2
next_pow2-eq x h = ground arith

-- For `x` up to 2 ^ 63, `next_pow2 x` is a power of two, at least `x` and less than twice `x`.
pub next_pow2_lem :
    (x : ℕ)
    → 0 < x
    → x ≤ 2 ^ 63
    → (w : ℕ) × (next_pow2 x ≡ 2 ^ w) × (x ≤ next_pow2 x) × (next_pow2 x < 2 * x)
unfolding next_pow2
next_pow2_lem x pos le = elim (lt-or-le 2 x) [
  | inl h ↦
      let p = clz-IsWidth (x - 1) (omega arith) (omega arith) in
      let large = next_pow2-eq x h in
      (
        64 - clz (x - 1),
        large,
        omega (arith, large, pow2_above _ x p.0),
        omega (arith, large, pow2_above _ x p.0),
      )
  | inr h ↦ (x - 1, ground arith, ground arith, ground arith)
]

-- For every `x` from 1 to 2 ^ 64 - 1, `next_pow2_bits x` is the least exponent of a power of two
-- that is not below `x`.
pub next_pow2_bits_lem :
    (x b : ℕ) → 0 < x → x < word → (x ≤ 2 ^ next_pow2_bits x) × (x ≤ 2 ^ b → next_pow2_bits x ≤ b)
unfolding next_pow2_bits
next_pow2_bits_lem x b pos lt = elim (lt-or-le 1 x) [
  | inl h ↦
      let p = clz-IsWidth (x - 1) (omega arith) (omega arith) in
      let wrap : (x + 2 ^ 64 - 1) % 2 ^ 64 ≡ x - 1 = omega arith in
      let large : next_pow2_bits x ≡ 64 - clz (x - 1) = rw wrap (ground arith) in
      (rw large (pow2_above _ x p.0).0, λ k. rw large (IsWidth-le _ b (x - 1) p.0 (omega arith)))
  | inr h ↦ (ground arith, ground arith)
]

-- A power of two up to 2 ^ 63 is its own next power of two.
pub next_pow2_pow : (w : ℕ) → w ≤ 63 → next_pow2 (2 ^ w) ≡ 2 ^ w
next_pow2_pow w h =
    let (v, e, above, below) = next_pow2_lem (2 ^ w) (pow_pos w) (pow_mono w 63 h) in
    let same : v ≡ w = elim (lt-or-le w v) [
      | inl more ↦ absurd (omega (arith, e, below, pow_suc w, pow_mono (suc w) v more))
      | inr le ↦ elim (lt-or-le v w) [
        | inl less ↦ absurd (omega (arith, e, above, pow_suc v, pow_pos v, pow_mono (suc v) w less))
        | inr le' ↦ omega arith
      ]
    ] in
    e ∙ ap (λ (t : ℕ). 2 ^ t) same

pub next_pow2_le : (x : ℕ) → 0 < x → x ≤ 2 ^ 63 → next_pow2 x ≤ 2 ^ 63
next_pow2_le x pos le =
    let (w, e, above, below) = next_pow2_lem x pos le in
    elim (lt-or-le 63 w) [
      | inl more ↦ absurd (omega (arith, e, below, pow_mono 64 w more))
      | inr fits ↦ rw e (pow_mono w 63 fits)
    ]

pub next_pow2_idem : (x : ℕ) → 0 < x → x ≤ 2 ^ 63 → next_pow2 (next_pow2 x) ≡ next_pow2 x
next_pow2_idem x pos le =
    let (w, e, above, below) = next_pow2_lem x pos le in
    elim (lt-or-le 63 w) [
      | inl more ↦ absurd (omega (arith, e, below, pow_mono 64 w more))
      | inr fits ↦ rw e (next_pow2_pow w fits)
    ]

pub next_pow2_bits_pow : (w : ℕ) → w < 64 → next_pow2_bits (2 ^ w) ≡ w
next_pow2_bits_pow w h =
    let b = next_pow2_bits_lem (2 ^ w) w (pow_pos w) (omega (arith, pow_mono w 63 (omega arith))) in
    elim (lt-or-le (next_pow2_bits (2 ^ w)) w) [
      | inl less ↦ absurd (
          omega (
            arith,
            b.0,
            pow_mono (suc (next_pow2_bits (2 ^ w))) w less,
            pow_suc (next_pow2_bits (2 ^ w)),
            pow_pos (next_pow2_bits (2 ^ w)),
          ))
      | inr le ↦ omega (arith, b.1 (omega arith))
    ]
