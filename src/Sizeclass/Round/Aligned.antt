-- ===== src/Sizeclass/Round/Aligned.antt =====
-- `aligned_size` and `natural_alignment`: a request with an alignment becomes a larger request
-- whose size class is aligned.
use snmalloc.Base.{ℕ, suc, ◌+◌, ◌-◌, ◌*◌, ◌/◌, ◌%◌, ◌^◌, ◌≤◌, ◌<◌, ◌≡◌, refl, ap, ◌∙◌, sym, arith}
use snmalloc.Base.{if◌then◌else◌, ltb, ◌==◌, Bool, true, false, lt-or-le, inl, inr, bit_or}
use snmalloc.Base.{pow_pos, pow_mono, pow_suc, pow_split, pred-mul, bit_or_mask, lt→ltb}
use snmalloc.Bits.{word, sub_word, align_up, from_exp_mant}
use snmalloc.Bits.Align.{align_up_lem, align_up-eq, pow_below}
use snmalloc.Bits.Leading.{next_pow2_lem}
use snmalloc.Bits.ExpMant.{to_exp_mant_least}
use snmalloc.Bits.ExpMant.Aligned.{to_exp_mant_aligned, pow_dvd}
use snmalloc.Sizeclass.{is_small_sizeclass}
use snmalloc.Sizeclass.Round.{round_size, aligned_size}
use snmalloc.Sizeclass.Round.Laws.{round_size_small, round_size_large}
use native.Mathlib.Nat.{div-add-mod', mod-eq-zero_of_dvd, dvd_of_mod-eq-zero, le_of_dvd}
use native.Mathlib.Nat.{add-div_right, add-mul, div-eq_of_lt-le, sub-add_cancel, mul-le-mul_right}

-- The sum that `aligned_size` forms, before it wraps.
raised :
    (k size : ℕ)
    → k < 64
    → 0 < size
    → size < word
    → bit_or (sub_word (2 ^ k) 1) (sub_word size 1) + 1 ≡ (size - 1) / 2 ^ k * 2 ^ k + 2 ^ k
raised k size h pos lt =
    let low : sub_word (2 ^ k) 1 ≡ 2 ^ k - 1 = omega (arith, pow_below k h, pow_pos k) in
    let wrap : sub_word size 1 ≡ size - 1 = omega arith in
    rw (low, wrap, bit_or_mask k (size - 1)) (omega (arith, pow_pos k))

-- Whatever test decides, the sum is returned unless it wrapped to 0.
returned :
    (k size v : ℕ)
    → 0 < size
    → bit_or (sub_word (2 ^ k) 1) (sub_word size 1) + 1 ≡ v
    → 0 < v
    → v < word
    → aligned_size (2 ^ k) size ≡ v
unfolding aligned_size
returned k size v pos e some lt =
    let same : v % word ≡ v = omega arith in
    let positive : (v == 0) ≡ false = ground arith in
    rw (e, same, positive) (if_same (is_small_sizeclass v) v)
  where
    if_same : (b : Bool) (n : ℕ) → (if b then n else n) ≡ n
    if_same true n = refl
    if_same false n = refl

-- For a request that can be rounded up without overflow, `aligned_size` is `align_up`.
pub aligned_size-eq-align_up :
    (k size : ℕ)
    → k < 64
    → 0 < size
    → size + (2 ^ k - 1) < word
    → aligned_size (2 ^ k) size ≡ align_up size (2 ^ k)
aligned_size-eq-align_up k size h pos fits =
    let up = align_up-eq size k h fits in
    let sum = raised k size h pos (omega arith) in
    let quotient = add-div_right (size - 1) {k = 2 ^ k} (pow_pos k) in
    let e_sum : size + (2 ^ k - 1) ≡ size - 1 + 2 ^ k = omega (arith, pow_pos k) in
    let round : (size - 1) / 2 ^ k * 2 ^ k + 2 ^ k
        ≡ size + (2 ^ k - 1) - (size + (2 ^ k - 1)) % 2 ^ k =
      rw e_sum (
        omega (
          arith,
          quotient,
          div-add-mod' (size - 1 + 2 ^ k) (2 ^ k),
          ap (λ (t : ℕ). t * 2 ^ k) quotient,
          add-mul ((size - 1) / 2 ^ k) 1 (2 ^ k),
        )) in
    let bounds = align_up_lem size k h fits in
    returned k size (align_up size (2 ^ k)) pos (sum ∙ round ∙ sym up) (omega (arith, bounds))
      (omega (arith, up))

not_small_zero : is_small_sizeclass 0 ≡ false
unfolding is_small_sizeclass from_exp_mant
not_small_zero = refl

-- For a request that overflows when it is rounded up, `aligned_size` returns the largest number,
-- which no allocation satisfies.
aligned_size_overflow :
    (k size : ℕ)
    → k < 64
    → size < word
    → word ≤ size + (2 ^ k - 1)
    → aligned_size (2 ^ k) size ≡ word - 1
aligned_size_overflow k size h lt over =
    let top = pow_split k 64 (omega arith) in
    let p = 2 ^ (64 - k) in
    let quotient : (size - 1) / 2 ^ k ≡ p - 1 =
      div-eq_of_lt-le (2 ^ k) (omega (arith, top, pred-mul p (2 ^ k), pow_pos k))
        (rw (sub-add_cancel (pow_pos (64 - k))) (omega (arith, top))) in
    let pos : 0 < size = omega (arith, pow_below k h) in
    let sum : bit_or (sub_word (2 ^ k) 1) (sub_word size 1) + 1 ≡ word = omega (
      arith,
      raised k size h pos lt,
      ap (λ (t : ℕ). t * 2 ^ k) quotient,
      pred-mul p (2 ^ k),
      top,
      pow_pos (64 - k),
      mul-le-mul_right (2 ^ k) (pow_pos (64 - k)),
    ) in
    let wraps : word % word ≡ 0 = omega arith in
    let some : ltb 0 size ≡ true = lt→ltb 0 size pos in
    unfold aligned_size in rw (sum, wraps, not_small_zero, some) refl

round_multiple :
    (strict : Bool) (k size v : ℕ)
    → 0 < size
    → size ≤ v
    → v ≤ 2 ^ 62
    → v % 2 ^ k ≡ 0
    → (size ≤ round_size strict v) × (round_size strict v % 2 ^ k ≡ 0)
round_multiple strict k size v pos above le multiple = elim (lt-or-le 65536 v) [
  | inl large ↦
      let (w, e, over, under) = next_pow2_lem v (omega arith) (omega arith) in
      let k_le : k ≤ w = elim (lt-or-le w k) [
        | inl more ↦ absurd (
            omega (
              arith,
              le_of_dvd (omega arith) (dvd_of_mod-eq-zero (2 ^ k) multiple),
              e,
              over,
              pow_suc w,
              pow_pos w,
              pow_mono (suc w) k more,
            ))
        | inr fine ↦ fine
      ] in
      rw (round_size_large strict v large (omega arith))
        (omega (arith, over), rw e (mod-eq-zero_of_dvd (2 ^ k) (pow_dvd k w k_le)))
  | inr small ↦ rw (round_size_small strict v (omega arith) small) (
    omega (arith, (to_exp_mant_least v 0 (omega arith) le).0),
    to_exp_mant_aligned v k (omega arith) le multiple,
  )
]

-- A request of at least 1 and at most 2 ^ 61 bytes, at an alignment that is a power of two up to
-- 2 ^ 61, is rounded to a size that is not below the request and is a multiple of the alignment.
pub round_size-aligned_size :
    (strict : Bool) (k size : ℕ)
    → k ≤ 61
    → 0 < size
    → size ≤ 2 ^ 61
    → (size ≤ round_size strict (aligned_size (2 ^ k) size))
      × (round_size strict (aligned_size (2 ^ k) size) % 2 ^ k ≡ 0)
round_size-aligned_size strict k size h pos le =
    let bound = pow_mono k 61 h in
    let fits : size + (2 ^ k - 1) < word = omega (arith, bound) in
    let up = align_up_lem size k (omega arith) fits in
    rw (aligned_size-eq-align_up k size (omega arith) pos fits) (
      round_multiple strict k size (align_up size (2 ^ k)) pos up.1 (omega (arith, up, bound)) up.0)
