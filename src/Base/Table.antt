-- ===== src/Base/Table.antt =====
-- Over a small range, every value is checked by evaluation.
use Prim.Native.Nat.{ℕ, zero, suc, ◌<◌}
use mathlib.Core.Path.{◌≡◌}
use mathlib.Core.Logic.{inl, inr}
use mathlib.Core.Bool.{Bool, true, ◌&&◌}
use native.Mathlib.Omega.{arith}
use snmalloc.Base.Tests.{lt-or-le}

-- Whether `test` holds of each number less than `bound`.
unfoldable pub all_below : (bound : ℕ) → (test : ℕ → Bool) → Bool
all_below zero test = true
all_below (suc top) test = all_below top test && test top

pub all_below_sound :
    (bound : ℕ) (test : ℕ → Bool) (i : ℕ) → all_below bound test ≡ true → i < bound → test i ≡ true
unfolding all_below
all_below_sound zero test i checked i_lt = absurd (omega arith)
all_below_sound (suc top) test i checked i_lt = elim (lt-or-le i top) [
  | inl h ↦ all_below_sound top test i (ground arith) h
  | inr h ↦ let e : i ≡ top = omega arith in rw e (ground arith)
]
