-- ===== src/Histogram.antt =====
-- src/snmalloc/profile/lifetime_histogram.h: `LifetimeHistogram`, counts of lifetimes by their
-- binary logarithm, with one call running at a time. The buckets are `uint64_t`s.
pub mod Laws
mod Tests
use snmalloc.Base.{
  ℕ, zero, suc, ◌+◌, ◌-◌, ◌%◌, leb, if◌then◌else◌, List, [], ◌∷◌, replicate, get_or, set,
}
use snmalloc.Bits.{word, clz}

abbrev pub lifetime_buckets : ℕ
lifetime_buckets = 32

unfoldable pub bucket_for : ℕ → ℕ
bucket_for ns =
    let b = 63 - clz ns in
    if leb ns 1 then 0 else if leb lifetime_buckets b then lifetime_buckets - 1 else b

abbrev pub bucket : List ℕ → ℕ → ℕ
bucket buckets i = get_or buckets i 0

unfoldable pub record_lifetime_ns : ℕ → List ℕ → List ℕ
record_lifetime_ns ns buckets =
    let b = bucket_for ns in set buckets b ((bucket buckets b + 1) % word)
