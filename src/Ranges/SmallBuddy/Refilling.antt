-- ===== src/Ranges/SmallBuddy/Refilling.antt =====
-- src/snmalloc/backend_helpers/smallbuddyrange.h: `add_range` of any range, `refill` and `dealloc_range`.
use snmalloc.Base.{ℕ, ◌+◌, ◌-◌, ◌^◌, ◌≤◌, ◌<◌, ◌≡◌, ◌≢◌, inl, inr, arith}
use snmalloc.Base.{◌==◌, Bool-cases, pow_pos, pow_mono, pow_suc, suc}
use snmalloc.Bits.{word, align_up, align_down}
use snmalloc.Bits.Align.{align_up_exact, align_down_exact}
use snmalloc.Bits.ExpMant.Aligned.{pow_dvd}
use snmalloc.Blocks.Tiling.{range_to_pow_2_blocks-IsTiled}
use snmalloc.Buddy.{null, Tree}
use snmalloc.Buddy.Measure.{TreeLaws, covers}
use snmalloc.Ranges.{Range}
use snmalloc.Ranges.Laws.{room, MayTake, RangeLaws, IsTaken, IsAllocated, room_bounds}
use snmalloc.Ranges.Laws.{
  inside, inside_parts, inside-covers, AddsBetween, covers-null, aligned_less,
}
use snmalloc.Ranges.SmallBuddy.{SmallBuddyRange, add_range, refill, dealloc_range}
use snmalloc.Ranges.SmallBuddy.Adding.{IsSmall, small_owned, add_pieces-IsTaken}
use native.Mathlib.Nat.{dvd_of_mod-eq-zero, dvd-add, dvd_trans}
use Prim.Native.Nat.{◌∣◌}

module _ {S T : Type 0} {range : Range S} {tree : Tree T} {IsTree : T → Type 0}
    (tree_laws : TreeLaws tree IsTree) {floor chunk_bits : ℕ} {owned : S → ℕ → ℕ}
    {IsRange : S → Type 0} (laws : RangeLaws floor owned IsRange range chunk_bits) (min_bits : ℕ)
    (clear_node : ℕ → S → S) (min_le : min_bits ≤ chunk_bits) (chunk_small : chunk_bits < 63)
    (chunk_le : chunk_bits ≤ floor) where
  -- Any range of memory that is not the range's, and within the room, once it is rounded inwards to
  -- multiples of `2 ^ min_bits`: `add_range` adds exactly the bytes between the rounded ends.
  pub add_range_lem :
      (base length : ℕ) (s : SmallBuddyRange S T)
      → 0 < base
      → base + length < word
      → align_up base (2 ^ min_bits) ≤ align_down (base + length) (2 ^ min_bits)
      → base + 2 ^ min_bits ≤ word
      → IsSmall tree_laws laws min_bits clear_node s
      → ((x : ℕ)
          → small_owned tree_laws laws min_bits clear_node s x
              + inside (align_up base (2 ^ min_bits)) (align_down (base + length) (2 ^ min_bits)) x
            ≤ room floor x)
      → AddsBetween
          (small_owned tree_laws laws min_bits clear_node)
          (IsSmall tree_laws laws min_bits clear_node)
          (align_up base (2 ^ min_bits))
          (align_down (base + length) (2 ^ min_bits))
          s
          (add_range range tree min_bits chunk_bits clear_node base length s)
  unfolding add_range
  add_range_lem base length s pos fits le within ok may =
      add_pieces-IsTaken tree_laws laws min_bits clear_node chunk_small chunk_le _ _ _ s
        (range_to_pow_2_blocks-IsTiled min_bits base length (omega arith) pos fits within le) ok may

  -- The same of a range whose ends are multiples already.
  pub add_range_exact :
      (base length : ℕ) (s : SmallBuddyRange S T)
      → 0 < base
      → base + length < word
      → 2 ^ min_bits ≤ length
      → 2 ^ min_bits ∣ base
      → 2 ^ min_bits ∣ base + length
      → IsSmall tree_laws laws min_bits clear_node s
      → ((x : ℕ)
          → small_owned tree_laws laws min_bits clear_node s x + inside base (base + length) x
            ≤ room floor x)
      → AddsBetween
          (small_owned tree_laws laws min_bits clear_node)
          (IsSmall tree_laws laws min_bits clear_node)
          base
          (base + length)
          s
          (add_range range tree min_bits chunk_bits clear_node base length s)
  add_range_exact base length s pos fits large first last ok may =
      let up = align_up_exact base min_bits (omega arith) (omega (arith, pow_pos min_bits)) first in
      let down = align_down_exact (base + length) min_bits fits (omega arith) last in
      rw (up, down) at
        (add_range_lem base length s pos fits (omega (arith, up, down)) (omega arith) ok
          (rw (up, down) may))

  pub dealloc_range-IsTaken :
      (bits base : ℕ) (s : SmallBuddyRange S T)
      → min_bits ≤ bits
      → bits < 63
      → IsSmall tree_laws laws min_bits clear_node s
      → MayTake floor (small_owned tree_laws laws min_bits clear_node) bits base s
      → IsTaken floor
          (small_owned tree_laws laws min_bits clear_node)
          (IsSmall tree_laws laws min_bits clear_node)
          bits
          base
          s
          (dealloc_range range tree min_bits chunk_bits clear_node base (2 ^ bits) s)
  unfolding dealloc_range
  dealloc_range-IsTaken bits base s least small ok may =
      let bounds = room_bounds floor bits base may.some_base (λ x. omega (arith, may.new x)) in
      let first =
        dvd_trans (2 ^ min_bits) (pow_dvd min_bits bits least)
          (dvd_of_mod-eq-zero (2 ^ bits) may.aligned) in
      let added =
        add_range_exact base (2 ^ bits) s (omega (arith, bounds.0, pow_pos floor)) bounds.1
          (pow_mono min_bits bits least) first
          (dvd-add (2 ^ min_bits) first (pow_dvd min_bits bits least)) ok
          (λ x. omega (arith, may.new x, inside-covers base bits x may.some_base)) in
      record {
        taken-IsRange = added.added-IsRange;
        joined = λ x. omega (arith, added.added_between x, inside-covers base bits x may.some_base);
      }

  -- The rest of a chunk that is fetched goes to the buddy allocator.
  pub refill-IsAllocated :
      (bits : ℕ) (s : SmallBuddyRange S T)
      → min_bits ≤ bits
      → bits < chunk_bits
      → IsSmall tree_laws laws min_bits clear_node s
      → let r = refill range tree min_bits chunk_bits clear_node (2 ^ bits) s in
        IsAllocated floor
          (small_owned tree_laws laws min_bits clear_node)
          (IsSmall tree_laws laws min_bits clear_node)
          bits
          s
          (r.0)
          (r.1)
  unfolding refill
  refill-IsAllocated bits s least piece ok =
      let r = range.alloc_range (2 ^ chunk_bits) s.parent in
      let got =
        laws.alloc_range_lem chunk_bits s.parent (omega arith) chunk_small ok.parent-IsRange in
      let s' : SmallBuddyRange S T = record s { parent = r.1 } in
      let ok' : IsSmall tree_laws laws min_bits clear_node s' = record {
        array = ok.array;
        parent-IsRange = got.left-IsRange;
        small_le = λ x. omega (arith, got.shared x, ok.small_le x);
      } in
      elim (Bool-cases (r.0 == null)) [
        | inl none_left ↦
            let null_base : r.0 ≡ null = ground (arith, none_left) in
            rw none_left (record {
              left-IsRange = ok';
              base_aligned = aligned_less bits chunk_bits (r.0) (omega arith) got.base_aligned;
              shared = λ x. omega (
                arith,
                got.shared x,
                covers-null x chunk_bits (r.0) null_base,
                covers-null x bits (r.0) null_base,
              );
            })
        | inr some_chunk ↦
            let base_some : r.0 ≢ null = λ e. ground (arith, some_chunk, e) in
            let bounds =
              room_bounds floor chunk_bits (r.0) base_some
                (λ x. omega (arith, got.shared x, ok.small_le x)) in
            let more = pow_mono (suc bits) chunk_bits piece in
            let chunk_dvd = dvd_of_mod-eq-zero (2 ^ chunk_bits) got.base_aligned in
            let first = dvd_trans (2 ^ min_bits) (pow_dvd min_bits chunk_bits min_le) chunk_dvd in
            let end : r.0 + 2 ^ bits + (2 ^ chunk_bits - 2 ^ bits) ≡ r.0 + 2 ^ chunk_bits =
              omega (arith, more, pow_suc bits) in
            let parts : (x : ℕ)
                → covers x chunk_bits (r.0)
                  ≡ covers x bits (r.0)
                    + inside (r.0 + 2 ^ bits) (r.0 + 2 ^ bits + (2 ^ chunk_bits - 2 ^ bits)) x =
              λ x. rw end (
                omega (
                  arith,
                  inside-covers (r.0) chunk_bits x base_some,
                  inside_parts (r.0) (r.0 + 2 ^ chunk_bits) bits x base_some
                      (omega (arith, more, pow_suc bits)),
                )) in
            let added =
              add_range_exact (r.0 + 2 ^ bits) (2 ^ chunk_bits - 2 ^ bits) s'
                (omega (arith, pow_pos bits)) (omega (arith, bounds.1, end))
                (omega (arith, more, pow_suc bits, pow_mono min_bits bits least))
                (dvd-add (2 ^ min_bits) first (pow_dvd min_bits bits least))
                (rw end (dvd-add (2 ^ min_bits) first (pow_dvd min_bits chunk_bits min_le))) ok'
                (λ x. omega (arith, parts x, got.shared x, ok.small_le x)) in
            rw some_chunk (record {
              left-IsRange = added.added-IsRange;
              base_aligned = aligned_less bits chunk_bits (r.0) (omega arith) got.base_aligned;
              shared = λ x. omega (arith, added.added_between x, parts x, got.shared x);
            })
      ]
