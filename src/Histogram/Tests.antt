-- ===== src/Histogram/Tests.antt =====
-- A lifetime of 1000 nanoseconds.
use snmalloc.Base.{◌≡◌, refl, replicate}
use snmalloc.Bits.{clz}
use snmalloc.Histogram.{bucket_for, bucket, record_lifetime_ns}

counted : bucket (record_lifetime_ns 1000 (replicate 32 0)) 9 ≡ 1
unfolding record_lifetime_ns bucket_for clz
counted = refl
