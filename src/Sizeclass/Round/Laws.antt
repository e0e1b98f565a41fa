-- ===== src/Sizeclass/Round/Laws.antt =====
-- `round_size` against the size classes.
use snmalloc.Base.{ℕ, ◌+◌, ◌-◌, ◌%◌, ◌^◌, ◌≤◌, ◌<◌, ◌≡◌, refl, ap, ◌∙◌, sym, arith}
use snmalloc.Base.{ltb, ◌==◌, Bool, false, lt-or-le, inl, inr}
use snmalloc.Base.{bit_and_mask, bit_and, lt→ltb}
use snmalloc.Bits.{word, clz, next_pow2, from_exp_mant, to_exp_mant_const}
use snmalloc.Bits.Leading.{
  next_pow2_le, next_pow2_idem, next_pow2_lem, clz-IsWidth, next_pow2-eq, IsWidth-le,
}
use snmalloc.Bits.ExpMant.{from_mono, to_exp_mant_least, to-from_exp_mant}
use snmalloc.Sizeclass.{
  FastData, num_small_sizeclasses, from_small_class, from_large_class, is_small_sizeclass, as_large,
}
use snmalloc.Sizeclass.{sizeclass_to_size, sizeclass_full_to_size, fast, fast_large}
use snmalloc.Sizeclass.Table.{is_small_sizeclass_iff, largest_size, sizeclass_to_size-eq}
use snmalloc.Sizeclass.Lookup.{size_to_sizeclass, size_to_sizeclass-eq, size_to_sizeclass-lt}
use snmalloc.Sizeclass.Slab.{fast-from_small_class}
use snmalloc.Sizeclass.Round.{size_to_sizeclass_full, round_size}

not_small : (size : ℕ) → 65536 < size → size < word → is_small_sizeclass size ≡ false
not_small size lo hi = ground (arith, is_small_sizeclass_iff size hi)

pub round_size_small :
    (strict : Bool) (size : ℕ)
    → 0 < size
    → size ≤ 65536
    → round_size strict size ≡ from_exp_mant 2 4 (to_exp_mant_const 2 4 size)
unfolding round_size
round_size_small strict size pos le =
    rw
      (
        (is_small_sizeclass_iff size (omega arith)).1 (pos, le),
        sizeclass_to_size-eq strict (size_to_sizeclass size),
        size_to_sizeclass-eq size pos le,
      )
      refl

pub round_size_large :
    (strict : Bool) (size : ℕ)
    → 65536 < size
    → size ≤ 2 ^ 63
    → round_size strict size ≡ next_pow2 size
unfolding round_size
round_size_large strict size lo hi =
    let big = not_small size lo (omega arith) in
    let some : (size == 0) ≡ false = ground arith in
    let fits : ltb (2 ^ 63) size ≡ false = ground arith in rw (big, some, fits) refl

-- The size that the table of all classes holds for a small class.
pub full-from_small_class :
    (strict : Bool) (sc : ℕ)
    → sc < num_small_sizeclasses
    → sizeclass_full_to_size strict (from_small_class sc) ≡ from_exp_mant 2 4 sc
unfolding sizeclass_full_to_size sizeclass_to_size
full-from_small_class strict sc lt =
    ap (λ (d : FastData). d.size) (fast-from_small_class strict sc lt)
    ∙ sizeclass_to_size-eq strict sc

fast-from_large_class :
    (strict : Bool) (c : ℕ) → c < 64 → fast strict (from_large_class c) ≡ fast_large c
unfolding fast from_large_class
fast-from_large_class strict c lt =
    let wrapped : c % 128 ≡ c = omega arith in rw (wrapped, lt→ltb c 64 lt) refl

size-fast_large : (c : ℕ) → 0 < c → c < 64 → (fast_large c).size ≡ 2 ^ (64 - c)
unfolding fast_large as_large from_large_class
size-fast_large c pos lt =
    let some : (c == 0) ≡ false = ground arith in
    let same : bit_and c 63 ≡ c = omega (arith, bit_and_mask 6 c) in rw (some, same) refl

-- And for a large class.
pub full-from_large_class :
    (strict : Bool) (c : ℕ)
    → 0 < c
    → c < 64
    → sizeclass_full_to_size strict (from_large_class c) ≡ 2 ^ (64 - c)
unfolding sizeclass_full_to_size
full-from_large_class strict c pos lt =
    ap (λ (d : FastData). d.size) (fast-from_large_class strict c lt) ∙ size-fast_large c pos lt

full_small :
    (strict : Bool) (size : ℕ)
    → 0 < size
    → size ≤ 65536
    → sizeclass_full_to_size strict (size_to_sizeclass_full size)
      ≡ from_exp_mant 2 4 (to_exp_mant_const 2 4 size)
unfolding size_to_sizeclass_full
full_small strict size pos le =
    rw
      (
        (is_small_sizeclass_iff size (omega arith)).1 (pos, le),
        full-from_small_class strict (size_to_sizeclass size) (size_to_sizeclass-lt size pos le),
        size_to_sizeclass-eq size pos le,
      )
      refl

full_large :
    (strict : Bool) (size : ℕ)
    → 65536 < size
    → size ≤ 2 ^ 63
    → sizeclass_full_to_size strict (size_to_sizeclass_full size) ≡ next_pow2 size
unfolding size_to_sizeclass_full
full_large strict size lo hi =
    let p = clz-IsWidth (size - 1) (omega arith) (omega arith) in
    let wrap : (size + 2 ^ 64 - 1) % 2 ^ 64 ≡ size - 1 = omega arith in
    let top = IsWidth-le (64 - clz (size - 1)) 63 (size - 1) p.0 (omega arith) in
    rw
      (
        not_small size lo (omega arith),
        wrap,
        full-from_large_class strict (clz (size - 1)) (omega (arith, top, p.1)) p.1,
        next_pow2-eq size (omega arith),
      )
      refl

-- The class that `size_to_sizeclass_full` gives a request has the size that `round_size` gives
-- it, for requests from 1 to 2 ^ 63.
size-size_to_sizeclass_full :
    (strict : Bool) (size : ℕ)
    → 0 < size
    → size ≤ 2 ^ 63
    → sizeclass_full_to_size strict (size_to_sizeclass_full size) ≡ round_size strict size
size-size_to_sizeclass_full strict size pos le = elim (lt-or-le 65536 size) [
  | inl large ↦ full_large strict size large le ∙ sym (round_size_large strict size large le)
  | inr small ↦ full_small strict size pos small ∙ sym (round_size_small strict size pos small)
]

-- The class of a small request is one of the small classes.
small_class :
    (size : ℕ)
    → 0 < size
    → size ≤ 65536
    → (to_exp_mant_const 2 4 size < 44) × (from_exp_mant 2 4 (to_exp_mant_const 2 4 size) ≤ 65536)
small_class size pos le =
    let c = to_exp_mant_const 2 4 size in
    let lt : c < 44 = rw (size_to_sizeclass-eq size pos le) at (size_to_sizeclass-lt size pos le) in
    let e : c + (43 - c) ≡ 43 = omega (arith, lt) in
    (lt, omega (arith, rw e at (from_mono c (43 - c) (omega (arith, lt))), largest_size))

-- For requests from 1 to 2 ^ 63, `round_size` gives at least the request, and rounding again
-- changes nothing.
pub round_size_idem :
    (strict : Bool) (size : ℕ)
    → 0 < size
    → size ≤ 2 ^ 63
    → (size ≤ round_size strict size)
      × (round_size strict (round_size strict size) ≡ round_size strict size)
round_size_idem strict size pos le = elim (lt-or-le 65536 size) [
  | inl large ↦
      let (w, e, above, below) = next_pow2_lem size pos le in
      let r = round_size_large strict size large le in
      let fits = next_pow2_le size pos le in
      (
        rw r above,
        rw r (
            round_size_large strict (next_pow2 size) (omega (arith, above)) fits
            ∙ next_pow2_idem size pos le),
      )
  | inr small ↦
      let r = round_size_small strict size pos small in
      let c = to_exp_mant_const 2 4 size in
      let least = (to_exp_mant_least size 0 pos (omega arith)).0 in
      let fits = small_class size pos small in
      (
        rw r least,
        rw r (
            round_size_small strict (from_exp_mant 2 4 c) (omega (arith, least)) fits.1
            ∙ ap (from_exp_mant 2 4) (
                to-from_exp_mant c (omega (arith, fits)) (omega (arith, least))
                  (omega (arith, fits)))),
      )
]
