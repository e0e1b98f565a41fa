-- ===== src/Bits/Tests.antt =====
-- The bit routines at concrete inputs.
use snmalloc.Base.{◌≤◌, ◌<◌, ◌≡◌, refl, arith, true, false}
use snmalloc.Bits.{clz, clz_const, ctz, ctz_const, next_pow2, next_pow2_bits, next_pow2_const}
use snmalloc.Bits.{prev_pow2_const, is_pow2}
use snmalloc.Bits.{to_exp_mant_const, from_exp_mant}
use snmalloc.Bits.ExpMant.{to_exp_mant_least}

counts :
    (clz 77 ≡ 57)
    × (clz_const 77 ≡ 57)
    × (ctz 80 ≡ 4)
    × (ctz_const 80 ≡ 4)
    × (is_pow2 64 ≡ true)
    × (is_pow2 65 ≡ false)
unfolding clz clz_const ctz ctz_const is_pow2
counts = (refl, refl, refl, refl, refl, refl)

powers :
    (next_pow2 77 ≡ 128)
    × (next_pow2_const 77 ≡ 128)
    × (prev_pow2_const 77 ≡ 64)
    × (next_pow2_bits 64 ≡ 6)
unfolding next_pow2 next_pow2_const prev_pow2_const next_pow2_bits clz clz_const
powers = (refl, refl, refl, refl)

classes : (to_exp_mant_const 2 4 100 ≡ 6) × (from_exp_mant 2 4 6 ≡ 112)
unfolding to_exp_mant_const from_exp_mant clz_const
classes = (refl, refl)

to_exp_mant_least_example :
    (100 ≤ from_exp_mant 2 4 (to_exp_mant_const 2 4 100))
    × (5 < to_exp_mant_const 2 4 100 → from_exp_mant 2 4 5 < 100)
to_exp_mant_least_example = to_exp_mant_least 100 5 (omega arith) (omega arith)
