-- ===== src/Entropy/Sample.antt =====
-- The bits that are drawn, and the bound on `sample`.
use snmalloc.Base.{ℕ, suc, ◌+◌, ◌-◌, ◌*◌, ◌/◌, ◌%◌, ◌^◌, ◌≤◌, ◌<◌, ◌≡◌, arith}
use snmalloc.Base.{bit_and, bit_xor, leb, lt-or-le, inl, inr}
use snmalloc.Base.{
  bit_and_mask, bit_or_bounds, bit_xor-lt, div_pow_lt, pow_pos, pow_mono, pow_suc, Bool-cases,
}
use native.Mathlib.Nat.{mod-lt}
use snmalloc.Bits.{word, next_pow2_bits}
use snmalloc.Bits.Leading.{next_pow2_bits_lem}
use snmalloc.Entropy.{LocalEntropy, feistel, get_next, refill_bits, next_fresh_bits, sample}

-- No more than `count` bits are left, and the fields fit 64 bits.
pub record IsFresh (e : LocalEntropy) : Type 0 where
  pub count_le : e.count ≤ 64
  pub bits_left : e.fresh_bits < 2 ^ e.count

feistel-lt : (k c : ℕ) → c < word → feistel k c < word
unfolding feistel
feistel-lt k c h =
    let mixed = bit_xor-lt 64 (bit_and c 0xfffffffff * k % word) c (omega arith) h in
    (bit_or_bounds 64 (c * 2 ^ 32 % word) (bit_xor (bit_and c 0xfffffffff * k % word) c / 2 ^ 32)
      (omega arith) (omega (arith, mixed))).2

get_next-lt : (e : LocalEntropy) → (get_next e).0 < word
unfolding get_next
get_next-lt e = feistel-lt e.local_key _ (feistel-lt e.local_key _ (omega arith))

refill_bits-IsFresh :
    (n : ℕ) (e : LocalEntropy)
    → n < 64
    → IsFresh e
    → IsFresh (refill_bits n e) × (n < (refill_bits n e).count)
unfolding refill_bits
refill_bits-IsFresh n e lt ok = elim (Bool-cases (leb e.count n)) [
  | inl h ↦ rw h (record { count_le = omega arith; bits_left = get_next-lt e }, lt)
  | inr h ↦ rw h (ok, ground arith)
]

-- Drawing up to 16 bits gives a number of that many bits and takes them from those that are left.
pub next_fresh_bits_lem :
    (n : ℕ) (e : LocalEntropy)
    → n ≤ 16
    → IsFresh e
    → let r = next_fresh_bits n e in (r.0 < 2 ^ n) × IsFresh r.1
unfolding next_fresh_bits
next_fresh_bits_lem n e le ok =
    let filled = refill_bits n e in
    let keeps = refill_bits-IsFresh n e (omega arith) ok in
    let mask : bit_and filled.fresh_bits (2 ^ n - 1) ≡ filled.fresh_bits % 2 ^ n =
      bit_and_mask n filled.fresh_bits in
    let below : filled.fresh_bits % 2 ^ n < 2 ^ n = mod-lt filled.fresh_bits (pow_pos n) in
    let fits : 2 ^ n ≤ 2 ^ 16 = pow_mono n 16 le in
    let left : (filled.count + 2 ^ 64 - n) % 2 ^ 64 ≡ filled.count - n =
      omega (arith, keeps.1, keeps.0.count_le) in
    rw (mask, left)
      (
        omega (arith, below, fits),
        record {
          count_le = omega (arith, keeps.0.count_le);
          bits_left =
              div_pow_lt filled.fresh_bits n filled.count (omega (arith, keeps.1))
                keeps.0.bits_left;
        },
      )

-- The next power of two is less than twice the number.
width_lt : (n : ℕ) → 0 < n → n < 2 ^ 16 → (2 ^ next_pow2_bits n < 2 * n) × (next_pow2_bits n ≤ 16)
width_lt n pos lt =
    let i = next_pow2_bits n in
    let least = next_pow2_bits_lem n (i - 1) pos (omega arith) in
    let top = next_pow2_bits_lem n 16 pos (omega arith) in
    (
      elim (lt-or-le 0 i) [
        | inl h ↦
            let up : suc (i - 1) ≡ i = omega arith in
            let twice : 2 ^ i ≡ 2 * 2 ^ (i - 1) = rw up at (pow_suc (i - 1)) in
            elim (lt-or-le (2 ^ (i - 1)) n) [
              | inl above ↦ omega (arith, twice)
              | inr below ↦ absurd (omega (arith, least.1 below))
            ]
        | inr h ↦ let none : i ≡ 0 = omega arith in rw none (omega arith)
      ],
      top.1 (omega arith),
    )

-- For every positive `uint16_t` `n`, `sample` returns a number below `n`, and the bits that are
-- left are still no more than are counted.
pub sample-lt :
    (n : ℕ) (e : LocalEntropy)
    → 0 < n
    → n < 2 ^ 16
    → IsFresh e
    → let r = sample n e in (r.0 < n) × IsFresh r.1
unfolding sample
sample-lt n e pos lt ok =
    let width = width_lt n pos lt in
    let drawn = next_fresh_bits_lem (next_pow2_bits n) e width.1 ok in
    (ground (arith, width.0, drawn.0), drawn.1)
