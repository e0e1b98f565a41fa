-- ===== src/Entropy/Cycle.antt =====
-- `next_bit` turns the word `bit_source` by one bit.
use snmalloc.Base.{ℕ, zero, suc, ◌+◌, ◌-◌, ◌*◌, ◌/◌, ◌%◌, ◌^◌, ◌≤◌, ◌<◌, ◌≡◌, sym, ap, ◌∙◌, arith}
use snmalloc.Base.{bit_and, bit_and_mask, bit_or_fields, pow_pos, div_pow_lt, pow_suc, pow_add}
use snmalloc.Bits.{word}
use snmalloc.Entropy.{LocalEntropy, next_bit}
use native.Mathlib.Nat.{mod-lt, div-add-mod', div-div-eq-div-mul, mul-le-mul_right}

-- The state after a number of draws.
unfoldable pub next_bits : ℕ → LocalEntropy → LocalEntropy
next_bits zero e = e
next_bits (suc k) e = (next_bit (next_bits k e)).1

-- The word after `k` turns, for `k` up to 64.
abbrev turned : ℕ → ℕ → ℕ
turned k x = x / 2 ^ k + x % 2 ^ k * 2 ^ (64 - k)

next_bit-bit_source :
    (e : LocalEntropy)
    → e.bit_source < word
    → (next_bit e).1 ≡ record e { bit_source = e.bit_source % 2 * 2 ^ 63 + e.bit_source / 2 }
unfolding next_bit
next_bit-bit_source e lt =
    let low : bit_and e.bit_source 1 ≡ e.bit_source % 2 = bit_and_mask 1 e.bit_source in
    let fits : e.bit_source % 2 * 2 ^ 63 % word ≡ e.bit_source % 2 * 2 ^ 63 = omega arith in
    rw (low, fits)
      (ap (λ (t : ℕ). record e { bit_source = t })
        (bit_or_fields 63 (e.bit_source % 2) (e.bit_source / 2) (omega arith)))

-- One digit more goes from the quotient to the remainder.
digit_over :
    (k x : ℕ)
    → (x / 2 ^ suc k ≡ x / 2 ^ k / 2) × (x % 2 ^ suc k ≡ x % 2 ^ k + x / 2 ^ k % 2 * 2 ^ k)
digit_over k x =
    let p = 2 ^ k in
    let a = x / p in
    let twice : 2 ^ suc k ≡ p * 2 = omega (arith, pow_suc k) in
    let q : x / 2 ^ suc k ≡ a / 2 = rw twice (sym (div-div-eq-div-mul x p 2)) in
    let m = x % 2 ^ suc k in
    let whole : a / 2 * (p * 2) + m ≡ x =
      ap (λ (t : ℕ). t * (p * 2) + m) (sym q)
      ∙ ap (λ (t : ℕ). x / 2 ^ suc k * t + m) (sym twice)
      ∙ div-add-mod' x (2 ^ suc k) in
    let half : a ≡ a / 2 * 2 + a % 2 = omega arith in
    let split : (a / 2 * 2 + a % 2) * p + x % p ≡ x =
      ap (λ (t : ℕ). t * p + x % p) (sym half) ∙ div-add-mod' x p in
    (q, omega (arith, whole, split))

turn-turned :
    (k x : ℕ)
    → k < 64
    → x < word
    → (turned k x % 2 * 2 ^ 63 + turned k x / 2 ≡ turned (suc k) x) × (turned k x < word)
turn-turned k x h lt =
    let p = 2 ^ (63 - k) in
    let a = x / 2 ^ k in
    let r = x % 2 ^ k in
    let over = digit_over k x in
    let up : 64 - k ≡ suc (63 - k) = omega arith in
    let down : 64 - suc k ≡ 63 - k = omega arith in
    let shape : 2 ^ (64 - k) ≡ 2 * p = rw up (pow_suc (63 - k)) in
    let sum : k + (63 - k) ≡ 63 = omega arith in
    let whole : 2 ^ 63 ≡ 2 ^ k * p = ap (λ (t : ℕ). 2 ^ t) (sym sum) ∙ pow_add k (63 - k) in
    let digit : a % 2 * 2 ^ 63 ≡ a % 2 * (2 ^ k * p) = ap (λ (t : ℕ). a % 2 * t) whole in
    let r_lt : r < 2 ^ k = mod-lt x (pow_pos k) in
    let bound : suc r * (2 * p) ≤ 2 ^ k * (2 * p) = mul-le-mul_right (2 * p) r_lt in
    let a_lt : a < 2 * p = rw shape at (div_pow_lt x k 64 (omega arith) lt) in
    rw (shape, down, over.0, over.1) (omega (arith, digit), omega (arith, bound, a_lt, whole))

next_bits_lem :
    (k : ℕ) (e : LocalEntropy)
    → k ≤ 64
    → e.bit_source < word
    → next_bits k e ≡ record e { bit_source = turned k e.bit_source }
unfolding next_bits
next_bits_lem zero e h lt =
    let x = e.bit_source in
    let same : x ≡ turned 0 x = omega arith in ap (λ (t : ℕ). record e { bit_source = t }) same
next_bits_lem (suc k) e h lt =
    let turn = turn-turned k e.bit_source (omega arith) lt in
    let before = next_bits_lem k e (omega arith) lt in
    ap (λ (s : LocalEntropy). (next_bit s).1) before
    ∙ next_bit-bit_source (record e { bit_source = turned k e.bit_source }) turn.1
    ∙ ap (λ (t : ℕ). record e { bit_source = t }) turn.0

next_bit-low : (e : LocalEntropy) → (next_bit e).0 ≡ (next_bit e).1.bit_source % 2
unfolding next_bit
next_bit-low e = bit_and_mask 1 _

-- After 64 calls of `next_bit` the state is as it was before; and the first 63 of them give the
-- binary digits of the word from digit 1 on, in order.
next_bits-cycle :
    (e : LocalEntropy) (k : ℕ)
    → e.bit_source < word
    → k < 63
    → (next_bits 64 e ≡ e) × ((next_bit (next_bits k e)).0 ≡ e.bit_source / 2 ^ suc k % 2)
unfolding next_bits
next_bits-cycle e k lt h =
    let x = e.bit_source in
    let whole : turned 64 x ≡ x = omega arith in
    let low : (next_bit (next_bits k e)).0 ≡ turned (suc k) x % 2 =
      next_bit-low (next_bits k e)
      ∙ ap (λ (s : LocalEntropy). s.bit_source % 2) (next_bits_lem (suc k) e (omega arith) lt) in
    let up : 64 - suc k ≡ suc (62 - k) = omega arith in
    let even : 2 ^ (64 - suc k) ≡ 2 * 2 ^ (62 - k) = rw up (pow_suc (62 - k)) in
    (
      next_bits_lem 64 e (omega arith) lt ∙ ap (λ (t : ℕ). record e { bit_source = t }) whole,
      low ∙ rw even (omega arith),
    )
