-- ===== src/Histogram/Laws.antt =====
-- The bucket of a lifetime.
use snmalloc.Base.{ℕ, ◌+◌, ◌-◌, ◌^◌, ◌≤◌, ◌<◌, ◌≡◌, ◌⊎◌, refl, arith, leb, true, false}
use snmalloc.Base.{lt-or-le, inl, inr, pow_mono}
use snmalloc.Bits.{word, clz}
use snmalloc.Bits.Leading.{clz-IsWidth}
use snmalloc.Histogram.{bucket_for, lifetime_buckets}

-- Every lifetime has one of the 32 buckets: 0 and 1 have the first, lifetimes from 2 ^ 31 have the
-- last, and each other lifetime is from 2 ^ b, with b its bucket, to less than 2 ^ (b + 1).
pub bucket_for_lem :
    (ns : ℕ)
    → ns < word
    → ((ns ≤ 1) × (bucket_for ns ≡ 0))
      ⊎ ((2 ^ 31 ≤ ns) × (bucket_for ns ≡ lifetime_buckets - 1))
      ⊎ ((2 ^ bucket_for ns ≤ ns)
          × (ns < 2 ^ (bucket_for ns + 1))
          × (bucket_for ns < lifetime_buckets))
unfolding bucket_for
bucket_for_lem ns lt = elim (lt-or-le 1 ns) [
  | inr h ↦ let test : leb ns 1 ≡ true = ground arith in rw test (inl (h, refl))
  | inl h ↦
      let test : leb ns 1 ≡ false = ground arith in
      let w = clz-IsWidth ns (omega arith) lt in
      let b = 63 - clz ns in
      let shape : 64 - clz ns - 1 ≡ b = omega arith in
      let up : 64 - clz ns ≡ b + 1 = omega (arith, w.1) in
      let above : 2 ^ b ≤ ns = rw shape at w.0.above in
      let below : ns < 2 ^ (b + 1) = rw up at w.0.below in
      elim (lt-or-le b 32) [
        | inl small ↦
            let last : leb 32 b ≡ false = ground arith in
            rw (test, last) (inr (inr (above, below, small)))
        | inr large ↦
            let last : leb 32 b ≡ true = ground arith in
            rw (test, last) (inr (inl (omega (arith, above, pow_mono 31 b (omega arith)), refl)))
      ]
]
