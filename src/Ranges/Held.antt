-- ===== src/Ranges/Held.antt =====
-- A range for the tests: it holds blocks in a list and gives them on whole.
use snmalloc.Base.{ℕ, ◌+◌, ◌%◌, ◌^◌, ◌≤◌, ◌≡◌, inl, inr, refl, ap, arith}
use snmalloc.Base.{◌==◌, if◌then◌else◌, List, [], ◌∷◌, All, all_nil, all_cons, Bool-cases}
use snmalloc.Bits.{next_pow2_bits}
use snmalloc.Bits.Leading.{next_pow2_bits_pow}
use snmalloc.Buddy.{null}
use snmalloc.Buddy.Measure.{covers}
use snmalloc.Ranges.{Range}
use snmalloc.Ranges.Laws.{room, RangeLaws, covers-null}
use native.Mathlib.Nat.{zero-mod}

unfoldable pub held_alloc : ℕ → List (ℕ × ℕ) → ℕ × List (ℕ × ℕ)
held_alloc bits [] = (null, [])
held_alloc bits ((a, k) ∷ blocks) =
    let rest = held_alloc bits blocks in
    if k == bits then (a, blocks) else (rest.0, (a, k) ∷ rest.1)

unfoldable pub held_range : Range (List (ℕ × ℕ))
held_range = record {
  alloc_range = λ size blocks. held_alloc (next_pow2_bits size) blocks;
  dealloc_range = λ base size blocks. (base, next_pow2_bits size) ∷ blocks;
}

unfoldable pub held : List (ℕ × ℕ) → ℕ → ℕ
held [] x = 0
held ((a, k) ∷ blocks) x = covers x k a + held blocks x

abbrev pub Aligned : ℕ × ℕ → Type 0
Aligned b = b.0 % 2 ^ b.1 ≡ 0

pub record IsHeld (floor : ℕ) (blocks : List (ℕ × ℕ)) : Type 0 where
  pub blocks_aligned : All Aligned blocks
  pub held_le : (x : ℕ) → held blocks x ≤ room floor x

held_alloc_lem :
    (bits : ℕ) (blocks : List (ℕ × ℕ))
    → All Aligned blocks
    → let r = held_alloc bits blocks in
      All Aligned (r.1)
      × (r.0 % 2 ^ bits ≡ 0)
      × ((x : ℕ) → held (r.1) x + covers x bits (r.0) ≡ held blocks x)
unfolding held_alloc held
held_alloc_lem bits [] all_nil =
    (all_nil, omega (arith, zero-mod (2 ^ bits)), λ x. omega (arith, covers-null x bits null refl))
held_alloc_lem bits ((a, k) ∷ blocks) (all_cons p ps) = elim (Bool-cases (k == bits)) [
  | inl here ↦
      let same : k ≡ bits = ground (arith, here) in
      rw here (ps, rw same at p, λ x. omega (arith, ap (λ (t : ℕ). covers x t a) same))
  | inr other ↦
      let rest = held_alloc_lem bits blocks ps in
      rw other (all_cons p rest.0, rest.1, λ x. omega (arith, rest.2 x))
]

pub held_range-RangeLaws :
    (floor min_bits : ℕ) → RangeLaws floor held (IsHeld floor) held_range min_bits
unfolding held_range held
held_range-RangeLaws floor min_bits = record {
  owned_le = λ s x ok. ok.held_le x;
  alloc_range_lem = λ bits s least small ok.
      let got = held_alloc_lem bits s ok.blocks_aligned in
      rw (next_pow2_bits_pow bits (omega arith)) (record {
        left-IsRange = record {
          blocks_aligned = got.0;
          held_le = λ x. omega (arith, got.2 x, ok.held_le x);
        };
        base_aligned = got.1;
        shared = got.2;
      });
  dealloc_range_lem = λ bits base s least small ok may.
      rw (next_pow2_bits_pow bits (omega arith)) (record {
        taken-IsRange = record {
          blocks_aligned = all_cons may.aligned ok.blocks_aligned;
          held_le = λ x. omega (arith, may.new x);
        };
        joined = λ x. omega arith;
      });
}
