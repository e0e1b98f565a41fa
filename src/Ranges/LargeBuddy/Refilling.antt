-- ===== src/Ranges/LargeBuddy/Refilling.antt =====
-- src/snmalloc/backend_helpers/largebuddyrange.h: `refill` and what it asks the parent for.
use Prim.Native.Nat.{min, max}
use snmalloc.Base.{ℕ, suc, ◌+◌, ◌-◌, ◌%◌, ◌^◌, ◌≤◌, ◌<◌, ◌≡◌, ◌≢◌, inl, inr, arith}
use snmalloc.Base.{Bool, ◌==◌, Bool-cases, lt-or-le, pow_pos, pow_suc, pow_mono}
use snmalloc.Bits.{word, align_down}
use snmalloc.Bits.Leading.{next_pow2_lem}
use snmalloc.Bits.Align.{align_up_exact, align_down_exact, multiple_step}
use snmalloc.Bits.ExpMant.Aligned.{pow_dvd}
use snmalloc.Blocks.{range_to_pow_2_blocks}
use snmalloc.Blocks.Tiling.{IsTiled, range_to_pow_2_blocks-IsTiled}
use snmalloc.Buddy.{null, Tree}
use snmalloc.Buddy.Measure.{TreeLaws, covers}
use snmalloc.Buddy.Array.{}
use snmalloc.Ranges.{Range}
use snmalloc.Ranges.Laws.{
  room, RangeLaws, IsAllocated, room_bounds, inside, inside_parts, inside-covers, covers-null,
  aligned_less,
}
use snmalloc.Ranges.ChunkRep.{Outside}
use snmalloc.Ranges.LargeBuddy.{LargeBuddyRange, refill_size, add_range, refill}
use snmalloc.Ranges.LargeBuddy.Kept.{OutsideKept}
use snmalloc.Ranges.LargeBuddy.Adding.{IsSame, large_owned, IsLarge, add_blocks-AddsBetween}
use native.Mathlib.Nat.{dvd_of_mod-eq-zero, dvd-add}

-- A refill is a power of two, at least the request, and at most the largest block.
refill_size_lem :
    (refill_bits min_refill_bits requested_total bits max_bits : ℕ)
    → bits ≤ max_bits
    → refill_bits ≤ max_bits
    → min_refill_bits ≤ max_bits
    → max_bits < 63
    → (j : ℕ) × (refill_size refill_bits min_refill_bits requested_total (2 ^ bits) ≡ 2 ^ j)
      × (bits ≤ j)
      × (j ≤ max_bits)
unfolding refill_size
refill_size_lem refill_bits min_refill_bits requested_total bits max_bits le refill_le min_le
      small =
    let n = max (max (min (2 ^ refill_bits) requested_total) (2 ^ min_refill_bits)) (2 ^ bits) in
    let largest : n ≤ 2 ^ max_bits = omega (
      arith,
      pow_mono bits max_bits le,
      pow_mono refill_bits max_bits refill_le,
      pow_mono min_refill_bits max_bits min_le,
    ) in
    let (j, is_pow, above, below) =
      next_pow2_lem n (omega (arith, pow_pos bits))
        (omega (arith, largest, pow_mono max_bits 63 (omega arith))) in
    (
      j,
      is_pow,
      elim (lt-or-le j bits) [
        | inl less ↦
            absurd (omega (arith, is_pow, above, pow_mono (suc j) bits less, pow_suc j, pow_pos j))
        | inr enough ↦ enough
      ],
      elim (lt-or-le max_bits j) [
        | inl more ↦ absurd (
            omega (arith, is_pow, below, largest, pow_mono (suc max_bits) j more, pow_suc max_bits))
        | inr enough ↦ enough
      ],
    )

module _ {S T : Type 0} {range : Range S} {tree : Tree T} {IsTree : T → Type 0}
    (tree_laws : TreeLaws tree IsTree) {floor chunk_bits : ℕ} {owned : S → ℕ → ℕ}
    {IsRange : S → Type 0} (laws : RangeLaws floor owned IsRange range chunk_bits) (out : Outside S)
    (max_bits : ℕ) (keeps : (t : S) → OutsideKept out (IsSame tree_laws laws out max_bits t))
    (refill_bits min_refill_bits : ℕ) (manages : Bool) (max_small : max_bits < 63)
    (max_le : max_bits ≤ floor) (chunk_lt : chunk_bits < max_bits)
    (refill_le : refill_bits ≤ max_bits) (min_le : min_refill_bits ≤ max_bits) where
  -- The rest of an aligned block behind its first `2 ^ bits` bytes.
  add_rest :
      (base bits j : ℕ) (s : LargeBuddyRange S T)
      → chunk_bits ≤ bits
      → bits ≤ j
      → j ≤ max_bits
      → base ≢ null
      → base % 2 ^ j ≡ 0
      → IsLarge tree_laws laws out max_bits s
      → ((x : ℕ) → large_owned tree_laws laws out max_bits s x + covers x j base ≤ room floor x)
      → IsLarge tree_laws laws out max_bits (
          add_range out chunk_bits tree range refill_bits max_bits min_refill_bits manages
            (base + 2 ^ bits)
            (2 ^ j - 2 ^ bits)
            s)
        × ((x : ℕ)
            → large_owned tree_laws laws out max_bits
                  (add_range out chunk_bits tree range refill_bits max_bits min_refill_bits manages
                    (base + 2 ^ bits)
                    (2 ^ j - 2 ^ bits)
                    s)
                  x
                + covers x bits base
              ≡ large_owned tree_laws laws out max_bits s x + covers x j base)
  unfolding add_range
  add_rest base bits j s least le most nonnull aligned ok may =
      let bounds = room_bounds floor j base nonnull (λ x. omega (arith, may x)) in
      let grows = pow_mono bits j le in
      let top = dvd_of_mod-eq-zero (2 ^ j) aligned in
      let first =
        dvd_of_mod-eq-zero (2 ^ chunk_bits)
          (aligned_less chunk_bits j base (omega arith) aligned) in
      let from = dvd-add (2 ^ chunk_bits) first (pow_dvd chunk_bits bits least) in
      let last = dvd-add (2 ^ chunk_bits) first (pow_dvd chunk_bits j (omega arith)) in
      let end : base + 2 ^ bits + (2 ^ j - 2 ^ bits) ≡ base + 2 ^ j = omega (arith, grows) in
      let step =
        multiple_step (base + 2 ^ bits) word (2 ^ chunk_bits) from
          (pow_dvd chunk_bits 64 (omega arith)) (omega (arith, bounds.1, grows)) in
      let up =
        align_up_exact (base + 2 ^ bits) chunk_bits (omega arith)
          (omega (arith, step, pow_pos chunk_bits)) from in
      let down : align_down (base + 2 ^ bits + (2 ^ j - 2 ^ bits)) (2 ^ chunk_bits) ≡ base + 2 ^ j =
        rw end (align_down_exact (base + 2 ^ j) chunk_bits bounds.1 (omega arith) last) in
      let tiled : IsTiled chunk_bits (base + 2 ^ bits) (base + 2 ^ j)
          (range_to_pow_2_blocks chunk_bits (base + 2 ^ bits) (2 ^ j - 2 ^ bits)) =
        rw (up, down) at
          (range_to_pow_2_blocks-IsTiled chunk_bits (base + 2 ^ bits) (2 ^ j - 2 ^ bits)
            (omega arith) (omega (arith, pow_pos bits)) (omega (arith, bounds.1, end))
            (omega (arith, step)) (omega (arith, up, down, grows))) in
      let parts : (x : ℕ)
          → covers x j base ≡ covers x bits base + inside (base + 2 ^ bits) (base + 2 ^ j) x =
        λ x. omega (
          arith,
          inside-covers base j x nonnull,
          inside_parts base (base + 2 ^ j) bits x nonnull (omega (arith, grows)),
        ) in
      let added =
        add_blocks-AddsBetween tree_laws laws out max_bits keeps refill_bits min_refill_bits manages
          max_small max_le (omega arith) (base + 2 ^ bits) (base + 2 ^ j) base j _ s tiled top
          (omega (arith, pow_pos bits)) (omega arith) most ok
          (λ x. omega (arith, may x, parts x)) in
      (added.added-IsRange, λ x. omega (arith, added.added_between x, parts x))

  pub refill-IsAllocated :
      (bits : ℕ) (s : LargeBuddyRange S T)
      → chunk_bits ≤ bits
      → bits ≤ max_bits
      → IsLarge tree_laws laws out max_bits s
      → let r =
          refill out chunk_bits tree range refill_bits max_bits min_refill_bits manages
            (2 ^ bits)
            s in
        IsAllocated floor
          (large_owned tree_laws laws out max_bits)
          (IsLarge tree_laws laws out max_bits)
          bits
          s
          (r.0)
          (r.1)
  unfolding refill
  refill-IsAllocated bits s least most ok =
      let (j, is_pow, enough, j_le) =
        refill_size_lem refill_bits min_refill_bits s.requested_total bits max_bits most refill_le
          min_le max_small in
      let r = range.alloc_range (2 ^ j) s.parent in
      let got = laws.alloc_range_lem j s.parent (omega arith) (omega arith) ok.parent-IsRange in
      let s' : LargeBuddyRange S T = record s {
        requested_total = (s.requested_total + 2 ^ j) % word;
        parent = r.1;
      } in
      let le_room : (x : ℕ)
          → large_owned tree_laws laws out max_bits s' x + covers x j (r.0) ≤ room floor x =
        λ x. omega (arith, got.shared x, ok.large_le x) in
      rw is_pow (elim (Bool-cases (r.0 == null)) [
        | inl none_left ↦
            let null_base : r.0 ≡ null = ground (arith, none_left) in
            rw none_left (record {
              left-IsRange = record {
                array = ok.array;
                parent-IsRange = got.left-IsRange;
                large_le = λ x. omega (arith, got.shared x, ok.large_le x);
              };
              base_aligned = aligned_less bits j (r.0) enough got.base_aligned;
              shared = λ x. omega (
                arith,
                got.shared x,
                covers-null x j (r.0) null_base,
                covers-null x bits (r.0) null_base,
              );
            })
        | inr some_block ↦
            let ok' : IsLarge tree_laws laws out max_bits s' = record {
              array = ok.array;
              parent-IsRange = got.left-IsRange;
              large_le = λ x. omega (arith, le_room x);
            } in
            let added =
              add_rest (r.0) bits j s' least enough j_le (λ e. ground (arith, some_block, e))
                got.base_aligned ok' le_room in
            rw some_block (record {
              left-IsRange = added.0;
              base_aligned = aligned_less bits j (r.0) enough got.base_aligned;
              shared = λ x. omega (arith, added.1 x, got.shared x);
            })
      ])
