-- ===== src/Ranges/Passing/Usage.antt =====
-- src/snmalloc/backend_helpers/statsrange.h: the peak of the usage; and subrange.h: the place within
-- the larger block.
use Prim.Native.Nat.{max}
use snmalloc.Base.{
  ℕ, ◌+◌, ◌-◌, ◌*◌, ◌%◌, ◌/◌, ◌^◌, ◌≤◌, ◌<◌, ◌≡◌, ◌≢◌, ◌⊎◌, inl, inr, refl, ap, ◌∙◌,
}
use snmalloc.Base.{
  arith, bit_and, ◌==◌, ◌||◌, if◌then◌else◌, List, [], ◌∷◌, some, Bool-cases, Option-cases,
  lt-or-le,
}
use snmalloc.Base.{bit_and_shift, bit_and_mask, pow_pos, pow_add, pow_mono, pred-mul}
use snmalloc.Bits.{word, sub_word}
use snmalloc.Buddy.{null}
use snmalloc.Ranges.{Range}
use snmalloc.Ranges.Passing.{
  StatsRange, stats_alloc_range, stats_dealloc_range, stats_range, RangeCall, alloc_call,
  dealloc_call, call, draw_offset, sub_alloc_range,
}
use native.Mathlib.Nat.{mod-lt, mul_comm}

-- Of a run of calls of StatsRange, the usage after each allocation that succeeds.
unfoldable pub usages : {S : Type 0} → Range S → List RangeCall → StatsRange S → List ℕ
usages range [] s = []
usages range (alloc_call size ∷ calls) s =
    let s' = (stats_alloc_range range size s).1 in
    let rest = usages range calls s' in
    if (range.alloc_range size s.parent).0 == null then rest else s'.current_usage ∷ rest
usages range (dealloc_call base size ∷ calls) s =
    usages range calls (stats_dealloc_range range base size s)

unfoldable pub run : {S : Type 0} → Range S → List RangeCall → StatsRange S → StatsRange S
run range [] s = s
run range (c ∷ calls) s = run range calls (call (stats_range range) c s)

unfoldable pub largest : ℕ → List ℕ → ℕ
largest n [] = n
largest n (m ∷ ms) = largest (max n m) ms

stats_alloc_range-peak :
    {S : Type 0} (range : Range S) (size : ℕ) (s : StatsRange S)
    → let s' = (stats_alloc_range range size s).1 in
      s'.peak_usage ≡ (
        if (range.alloc_range size s.parent).0 == null
        then s.peak_usage
        else max s.peak_usage s'.current_usage)
unfolding stats_alloc_range
stats_alloc_range-peak range size s =
    elim (Bool-cases ((range.alloc_range size s.parent).0 == null)) [
      | inl none_left ↦ rw none_left refl
      | inr some_range ↦ rw some_range (ground arith)
    ]

-- After any calls of StatsRange, the peak is the largest of the peak before and of the usage just
-- after each allocation that succeeded.
pub run-peak_usage :
    {S : Type 0} (range : Range S) (calls : List RangeCall) (s : StatsRange S)
    → (run range calls s).peak_usage ≡ largest s.peak_usage (usages range calls s)
unfolding run usages largest call stats_range stats_dealloc_range
run-peak_usage range [] s = refl
run-peak_usage range (alloc_call size ∷ calls) s =
    let rest = run-peak_usage range calls ((stats_alloc_range range size s).1) in
    let peak = stats_alloc_range-peak range size s in
    elim (Bool-cases ((range.alloc_range size s.parent).0 == null)) [
      | inl none_left ↦ rw none_left (
          rest
          ∙ ap (λ (n : ℕ). largest n (usages range calls ((stats_alloc_range range size s).1)))
              (rw none_left at peak))
      | inr some_range ↦ rw some_range (
          rest
          ∙ ap (λ (n : ℕ). largest n (usages range calls ((stats_alloc_range range size s).1)))
              (rw some_range at peak))
    ]
run-peak_usage range (dealloc_call base size ∷ calls) s =
    run-peak_usage range calls (stats_dealloc_range range base size s)

-- An offset that the loop accepts is a whole number of sub-blocks, at least one, and leaves at least
-- one after the block.
draw_offset_lem :
    (ratio_bits k : ℕ) (draws : List ℕ) (offset : ℕ)
    → draw_offset ((2 ^ ratio_bits - 1) * 2 ^ k) draws ≡ some offset
    → (q : ℕ) × (offset ≡ q * 2 ^ k) × (1 ≤ q) × (q + 2 ≤ 2 ^ ratio_bits)
unfolding draw_offset
draw_offset_lem ratio_bits k [] offset e = absurd (cc)
draw_offset_lem ratio_bits k (draw ∷ draws) offset e =
    let mask = (2 ^ ratio_bits - 1) * 2 ^ k in
    let q = draw / 2 ^ k % 2 ^ ratio_bits in
    let shape : bit_and draw mask ≡ q * 2 ^ k =
      bit_and_shift k draw (2 ^ ratio_bits - 1)
      ∙ ap (λ (t : ℕ). t * 2 ^ k) (bit_and_mask ratio_bits (draw / 2 ^ k)) in
    let q_lt : q < 2 ^ ratio_bits = mod-lt (draw / 2 ^ k) (pow_pos ratio_bits) in
    elim (Bool-cases ((bit_and draw mask == 0) || (bit_and draw mask == mask))) [
      | inl again ↦ draw_offset_lem ratio_bits k draws offset (rw again at e)
      | inr fits ↦
          let same : bit_and draw mask ≡ offset = cc (rw fits at e) in
          let neither : (bit_and draw mask ≢ 0) × (bit_and draw mask ≢ mask) =
            (λ h. ground (arith, fits, h), λ h. ground (arith, fits, h)) in
          (
            q,
            omega (arith, same, shape),
            elim (lt-or-le q 1) [
              | inl low ↦
                  let zero_q : q ≡ 0 = omega arith in
                  absurd (neither.0 (shape ∙ ap (λ (t : ℕ). t * 2 ^ k) zero_q ∙ omega arith))
              | inr enough ↦ enough
            ],
            elim (lt-or-le (2 ^ ratio_bits) (q + 2)) [
              | inl high ↦
                  let last : q ≡ 2 ^ ratio_bits - 1 = omega (arith, q_lt) in
                  absurd (neither.1 (shape ∙ ap (λ (t : ℕ). t * 2 ^ k) last))
              | inr enough ↦ enough
            ],
          )
    ]

-- Of sub-blocks of `2 ^ k` bytes in blocks that are `2 ^ ratio_bits` times as large: when the loop
-- ends, SubRange gives null, if there is no larger block, or a sub-block of one, a whole number of
-- sub-blocks from its start, which is neither the first nor the last.
pub sub_alloc_range_lem :
    {S : Type 0} (range : Range S) (ratio_bits k : ℕ) (draws : List ℕ) (s : S) (base : ℕ) (left : S)
    → k + ratio_bits < 64
    → sub_alloc_range range ratio_bits draws (2 ^ k) s ≡ some (base, left)
    → let over = range.alloc_range (2 ^ (k + ratio_bits)) s in
      (left ≡ over.1)
      × (((base ≡ null) × (over.0 ≡ null))
          ⊎ ((q : ℕ) × (base ≡ over.0 + q * 2 ^ k) × (1 ≤ q) × (q + 2 ≤ 2 ^ ratio_bits)))
unfolding sub_alloc_range
sub_alloc_range_lem range ratio_bits k draws s base left small e =
    let over = range.alloc_range (2 ^ (k + ratio_bits)) s in
    let fits = pow_mono (k + ratio_bits) 63 (omega arith) in
    let full : 2 ^ k * 2 ^ ratio_bits % word ≡ 2 ^ (k + ratio_bits) =
      omega (arith, pow_add k ratio_bits, fits) in
    let mask : sub_word (2 ^ (k + ratio_bits)) (2 ^ k) ≡ (2 ^ ratio_bits - 1) * 2 ^ k = omega (
      arith,
      pow_add k ratio_bits,
      mul_comm (2 ^ k) (2 ^ ratio_bits),
      pred-mul (2 ^ ratio_bits) (2 ^ k),
      fits,
      pow_mono k (k + ratio_bits) (omega arith),
    ) in
    elim (Bool-cases (over.0 == null)) [
      | inl none_left ↦
          let null_over : over.0 ≡ null = ground (arith, none_left) in
          let same = rw (full, none_left) at e in (cc (same), inl (cc (same), null_over))
      | inr some_block ↦ elim (Option-cases (draw_offset ((2 ^ ratio_bits - 1) * 2 ^ k) draws)) [
        | inl endless ↦ absurd (cc (rw (full, mask, some_block, endless) at e))
        | inr (offset, drawn) ↦
            let same = rw (full, mask, some_block, drawn) at e in
            let (q, is_q, low, high) = draw_offset_lem ratio_bits k draws offset drawn in
            let place : base ≡ over.0 + offset = cc (same) in
            (cc (same), inr (q, omega (arith, place, is_q), low, high))
      ]
    ]
