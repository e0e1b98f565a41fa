-- ===== src/Ranges/SmallBuddy/Leftover.antt =====
-- src/snmalloc/backend_helpers/smallbuddyrange.h: `alloc_range_with_leftover`.
use snmalloc.Base.{ℕ, suc, ◌+◌, ◌-◌, ◌%◌, ◌^◌, ◌≤◌, ◌<◌, ◌≡◌, ◌≢◌, inl, inr, arith}
use snmalloc.Base.{◌==◌, if◌then◌else◌, Bool-cases, pow_pos, pow_suc, pow_mono, lt-or-le}
use snmalloc.Bits.{word, next_pow2, align_up, align_down}
use snmalloc.Bits.Leading.{next_pow2_lem}
use snmalloc.Bits.Align.{align_up_lem, align_up-le, multiple_step, align_down_exact}
use snmalloc.Bits.ExpMant.Aligned.{pow_dvd}
use snmalloc.Buddy.{null, Tree}
use snmalloc.Buddy.Measure.{TreeLaws, covers}
use snmalloc.Ranges.{Range}
use snmalloc.Ranges.Laws.{
  room, RangeLaws, AddsBetween, room_bounds, inside, inside_split, inside-covers, covers-null,
  aligned_less,
}
use snmalloc.Ranges.SmallBuddy.{SmallBuddyRange, alloc_range_with_leftover, alloc_range, add_range}
use snmalloc.Ranges.SmallBuddy.Adding.{IsSmall, small_owned}
use snmalloc.Ranges.SmallBuddy.Refilling.{add_range_lem}
use snmalloc.Ranges.SmallBuddy.Refines.{alloc_range-IsAllocated}
use native.Mathlib.Nat.{dvd_of_mod-eq-zero, dvd-add, zero-mod}

-- The bytes of an allocation of `size` bytes, with those up to the next multiple of `2 ^ min_bits`.
unfoldable pub given : (min_bits base size x : ℕ) → ℕ
given min_bits base size x =
    if base == null then 0 else inside base (align_up (base + size) (2 ^ min_bits)) x

module _ {S T : Type 0} {range : Range S} {tree : Tree T} {IsTree : T → Type 0}
    (tree_laws : TreeLaws tree IsTree) {floor chunk_bits : ℕ} {owned : S → ℕ → ℕ}
    {IsRange : S → Type 0} (laws : RangeLaws floor owned IsRange range chunk_bits) (min_bits : ℕ)
    (clear_node : ℕ → S → S) (min_le : min_bits ≤ chunk_bits) (chunk_small : chunk_bits < 63)
    (chunk_le : chunk_bits ≤ floor)
    (clear-IsRange : (k : ℕ) (t : S) → IsRange t → IsRange (clear_node k t))
    (clear-owned : (k : ℕ) (t : S) (x : ℕ) → IsRange t → owned (clear_node k t) x ≡ owned t x) where
  -- The rounded end of what is given lies within the block.
  end_le :
      (base w size : ℕ)
      → min_bits ≤ w
      → base ≢ null
      → base % 2 ^ w ≡ 0
      → size ≤ 2 ^ w
      → ((y : ℕ) → covers y w base ≤ room floor y)
      → align_up (base + size) (2 ^ min_bits) ≤ base + 2 ^ w
  end_le base w size w_large nonnull aligned le within =
      let bounds = room_bounds floor w base nonnull within in
      let first =
        dvd_of_mod-eq-zero (2 ^ min_bits) (aligned_less min_bits w base w_large aligned) in
      let last = dvd-add (2 ^ min_bits) first (pow_dvd min_bits w w_large) in
      let step =
        multiple_step (base + 2 ^ w) word (2 ^ min_bits) last (pow_dvd min_bits 64 (omega arith))
          bounds.1 in
      align_up-le (base + size) min_bits (base + 2 ^ w) (omega arith)
        (omega (arith, step, pow_pos min_bits)) last (omega arith)

  block_parts :
      (base w size x : ℕ)
      → base ≢ null
      → size ≤ 2 ^ w
      → align_up (base + size) (2 ^ min_bits) ≤ base + 2 ^ w
      → base ≤ align_up (base + size) (2 ^ min_bits)
      → covers x w base
        ≡ inside base (align_up (base + size) (2 ^ min_bits)) x
          + inside (align_up (base + size) (2 ^ min_bits)) (base + 2 ^ w) x
  block_parts base w size x nonnull le end_le le_end = omega (
    arith,
    inside-covers base w x nonnull,
    inside_split base (align_up (base + size) (2 ^ min_bits)) (base + 2 ^ w) x le_end end_le,
  )

  give_back :
      (base w size : ℕ) (s : SmallBuddyRange S T)
      → min_bits ≤ w
      → base ≢ null
      → base % 2 ^ w ≡ 0
      → size ≤ 2 ^ w
      → IsSmall tree_laws laws min_bits clear_node s
      → ((y : ℕ)
          → small_owned tree_laws laws min_bits clear_node s y + covers y w base ≤ room floor y)
      → (base ≤ align_up (base + size) (2 ^ min_bits))
        × (align_up (base + size) (2 ^ min_bits) ≤ base + 2 ^ w)
        × AddsBetween
            (small_owned tree_laws laws min_bits clear_node)
            (IsSmall tree_laws laws min_bits clear_node)
            (align_up (base + size) (2 ^ min_bits))
            (base + 2 ^ w)
            s
            (add_range range tree min_bits chunk_bits clear_node (base + size) (2 ^ w - size) s)
  give_back base w size s w_large nonnull aligned le ok may =
      let within : (y : ℕ) → covers y w base ≤ room floor y = λ y. omega (arith, may y) in
      let bounds = room_bounds floor w base nonnull within in
      let first =
        dvd_of_mod-eq-zero (2 ^ min_bits) (aligned_less min_bits w base w_large aligned) in
      let last = dvd-add (2 ^ min_bits) first (pow_dvd min_bits w w_large) in
      let step =
        multiple_step (base + 2 ^ w) word (2 ^ min_bits) last (pow_dvd min_bits 64 (omega arith))
          bounds.1 in
      let up =
        align_up_lem (base + size) min_bits (omega arith) (omega (arith, step, pow_pos min_bits)) in
      let shape : base + size + (2 ^ w - size) ≡ base + 2 ^ w = omega arith in
      let down : align_down (base + size + (2 ^ w - size)) (2 ^ min_bits) ≡ base + 2 ^ w =
        rw shape (align_down_exact (base + 2 ^ w) min_bits bounds.1 (omega arith) last) in
      let inner = end_le base w size w_large nonnull aligned le within in
      let le_end : base ≤ align_up (base + size) (2 ^ min_bits) = omega (arith, up.1) in
      (
        le_end,
        inner,
        rw down at (
            add_range_lem tree_laws laws min_bits clear_node min_le chunk_small chunk_le
              (base + size) (2 ^ w - size) s (omega arith) (omega (arith, bounds.1))
              (omega (arith, inner, down)) (omega (arith, step)) ok
              (λ y.
                rw down (omega (arith, may y, block_parts base w size y nonnull le inner le_end)))),
      )

  -- An allocation of `size` bytes, which need be no power of two, are at most `2 ^ 62`, and are such
  -- that the least power of two not below them is at least `2 ^ min_bits`, over a parent that keeps
  -- what a range promises for chunks and larger blocks: the base is null or aligned to that power of
  -- two, and of the block of that size the range keeps all but the `size` bytes, rounded up to a
  -- multiple of `2 ^ min_bits`; the range is in order afterwards, and all other bytes stay as they
  -- are. A chunk is at least `2 ^ min_bits` and less than `2 ^ 63` bytes, no memory is in the first
  -- bytes of a chunk's size, and clearing a block's node leaves the parent's memory as it is.
  pub alloc_range_with_leftover_lem :
      (size : ℕ) (s : SmallBuddyRange S T) (x : ℕ)
      → 0 < size
      → size ≤ 2 ^ 62
      → 2 ^ min_bits ≤ next_pow2 size
      → IsSmall tree_laws laws min_bits clear_node s
      → let r = alloc_range_with_leftover range tree min_bits chunk_bits clear_node size s in
        IsSmall tree_laws laws min_bits clear_node (r.1)
        × (r.0 % next_pow2 size ≡ 0)
        × (small_owned tree_laws laws min_bits clear_node (r.1) x + given min_bits (r.0) size x
            ≡ small_owned tree_laws laws min_bits clear_node s x)
  unfolding alloc_range_with_leftover given
  alloc_range_with_leftover_lem size s x pos small large ok =
      let (w, is_pow, up, twice) = next_pow2_lem size pos (omega arith) in
      let w_small : w < 63 = elim (lt-or-le w 63) [
        | inl less ↦ less
        | inr more ↦ absurd (omega (arith, is_pow, twice, pow_mono 63 w more))
      ] in
      let w_large : min_bits ≤ w = elim (lt-or-le w min_bits) [
        | inl less ↦
            absurd (omega (arith, is_pow, pow_mono (suc w) min_bits less, pow_suc w, pow_pos w))
        | inr enough ↦ enough
      ] in
      let r = alloc_range range tree min_bits chunk_bits clear_node (2 ^ w) s in
      let got =
        alloc_range-IsAllocated tree_laws laws min_bits clear_node min_le chunk_small chunk_le
          clear-IsRange clear-owned w s w_large w_small ok in
      rw is_pow (elim (Bool-cases (r.0 == null)) [
        | inl none_left ↦
            let null_base : r.0 ≡ null = ground (arith, none_left) in
            rw none_left (
              got.left-IsRange,
              omega (arith, zero-mod (2 ^ w)),
              omega (arith, got.shared x, covers-null x w (r.0) null_base),
            )
        | inr some_block ↦
            let base_some : r.0 ≢ null = λ e. ground (arith, some_block, e) in
            let added =
              give_back (r.0) w size (r.1) w_large base_some got.base_aligned
                (omega (arith, is_pow, up)) got.left-IsRange
                (λ y. omega (arith, got.shared y, ok.small_le y)) in
            rw (some_block, some_block)
              (
                added.2.added-IsRange,
                got.base_aligned,
                omega (
                  arith,
                  added.2.added_between x,
                  got.shared x,
                  block_parts (r.0) w size x base_some (omega (arith, is_pow, up)) added.1 added.0,
                ),
              )
      ])
