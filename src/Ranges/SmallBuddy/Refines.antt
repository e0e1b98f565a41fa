-- ===== src/Ranges/SmallBuddy/Refines.antt =====
-- src/snmalloc/backend_helpers/smallbuddyrange.h: the two operations, as those of a range.
use snmalloc.Base.{ℕ, ◌+◌, ◌^◌, ◌≤◌, ◌<◌, ◌≡◌, inl, inr, refl, ap, arith}
use snmalloc.Base.{
  true, false, leb, ◌==◌, if◌then◌else◌, Bool-cases, pow_pos, pow_mono, pow_suc, lt-or-le, suc,
}
use snmalloc.Bits.Leading.{next_pow2_bits_pow}
use snmalloc.Buddy.{null, Tree, Outcome}
use snmalloc.Buddy.Address.{IsBlock}
use snmalloc.Buddy.Measure.{TreeLaws, covers, total}
use snmalloc.Buddy.Array.{remove_from, remove_from-Kept, left_in, IsArray, remove_from_lem}
use snmalloc.Ranges.{Range}
use snmalloc.Ranges.Laws.{RangeLaws, IsAllocated}
use snmalloc.Ranges.Laws.{covers-null}
use snmalloc.Ranges.SmallBuddy.{
  SmallBuddyRange, inplace_rep, refill, alloc_range, small_buddy_range,
}
use snmalloc.Ranges.SmallBuddy.Adding.{IsSmall, small_owned, inplace_kept}
use snmalloc.Ranges.SmallBuddy.Refilling.{refill-IsAllocated, dealloc_range-IsTaken}

module _ {S T : Type 0} {range : Range S} {tree : Tree T} {IsTree : T → Type 0}
    (tree_laws : TreeLaws tree IsTree) {floor chunk_bits : ℕ} {owned : S → ℕ → ℕ}
    {IsRange : S → Type 0} (laws : RangeLaws floor owned IsRange range chunk_bits) (min_bits : ℕ)
    (clear_node : ℕ → S → S) (min_le : min_bits ≤ chunk_bits) (chunk_small : chunk_bits < 63)
    (chunk_le : chunk_bits ≤ floor)
    (clear-IsRange : (k : ℕ) (t : S) → IsRange t → IsRange (clear_node k t))
    (clear-owned : (k : ℕ) (t : S) (x : ℕ) → IsRange t → owned (clear_node k t) x ≡ owned t x) where
  -- A block of less than a chunk, from the state `s'` and with the block that the buddy allocator
  -- returned.
  alloc_piece :
      (bits : ℕ) (s : SmallBuddyRange S T) (o : Outcome S T)
      → min_bits ≤ bits
      → bits < chunk_bits
      → IsSmall tree_laws laws min_bits clear_node s
      → IsArray
          (inplace_rep S)
          tree_laws
          min_bits
          chunk_bits
          (left_in (inplace_rep S) tree min_bits o)
      → IsBlock chunk_bits bits o.block
      → ((x : ℕ)
          → total tree (covers x) min_bits o.entries + covers x bits o.block
            ≡ total tree (covers x) min_bits s.buddy_small.entries)
      → o.rep ≡ s.parent
      → let s' : SmallBuddyRange S T = record {
        buddy_small = left_in (inplace_rep S) tree min_bits o;
        parent = o.rep;
      } in
        let r =
          if o.block == null
          then refill range tree min_bits chunk_bits clear_node (2 ^ bits) s'
          else (o.block, record s' { parent = clear_node o.block o.rep }) in
        IsAllocated floor
          (small_owned tree_laws laws min_bits clear_node)
          (IsSmall tree_laws laws min_bits clear_node)
          bits
          s
          (r.0)
          (r.1)
  unfolding IsBlock
  alloc_piece bits s o least piece ok array block shared same =
      let s' : SmallBuddyRange S T = record {
        buddy_small = left_in (inplace_rep S) tree min_bits o;
        parent = o.rep;
      } in
      let parent_same = λ (x : ℕ). ap (λ (t : S). owned t x) same in
      let parent_ok : IsRange o.rep = rw (← same) at ok.parent-IsRange in
      elim (Bool-cases (o.block == null)) [
        | inl empty ↦
            let no_block : o.block ≡ null = ground (arith, empty) in
            let still : (x : ℕ)
                → small_owned tree_laws laws min_bits clear_node s' x
                  ≡ small_owned tree_laws laws min_bits clear_node s x =
              λ x. omega (arith, shared x, covers-null x bits o.block no_block, parent_same x) in
            let got =
              refill-IsAllocated tree_laws laws min_bits clear_node min_le chunk_small chunk_le bits
                s' least piece
                (record {
                  array = array;
                  parent-IsRange = parent_ok;
                  small_le = λ x. omega (arith, still x, ok.small_le x);
                }) in
            rw empty (record {
              left-IsRange = got.left-IsRange;
              base_aligned = got.base_aligned;
              shared = λ x. omega (arith, got.shared x, still x);
            })
        | inr full ↦
            let cleared : (x : ℕ) → owned (clear_node o.block o.rep) x ≡ owned s.parent x =
              λ x. omega (arith, clear-owned o.block o.rep x parent_ok, parent_same x) in
            rw full (record {
              left-IsRange = record {
                array = array;
                parent-IsRange = clear-IsRange o.block o.rep parent_ok;
                small_le = λ x. omega (arith, cleared x, shared x, ok.small_le x);
              };
              base_aligned = block.0;
              shared = λ x. omega (arith, cleared x, shared x);
            })
      ]

  pub alloc_range-IsAllocated :
      (bits : ℕ) (s : SmallBuddyRange S T)
      → min_bits ≤ bits
      → bits < 63
      → IsSmall tree_laws laws min_bits clear_node s
      → let r = alloc_range range tree min_bits chunk_bits clear_node (2 ^ bits) s in
        IsAllocated floor
          (small_owned tree_laws laws min_bits clear_node)
          (IsSmall tree_laws laws min_bits clear_node)
          bits
          s
          (r.0)
          (r.1)
  unfolding alloc_range
  alloc_range-IsAllocated bits s least small ok = elim (lt-or-le bits chunk_bits) [
    | inl piece ↦
        let test : leb (2 ^ chunk_bits) (2 ^ bits) ≡ false =
          ground (arith, pow_mono (suc bits) chunk_bits piece, pow_suc bits, pow_pos bits) in
        let out =
          remove_from_lem (inplace_rep S) tree_laws min_bits chunk_bits bits least (omega arith)
            s.buddy_small ok.array s.parent in
        let same =
          remove_from-Kept (inplace_rep S) tree min_bits bits s.buddy_small
            {Kept = λ t. t ≡ s.parent} inplace_kept s.parent refl in
        rw (test, next_pow2_bits_pow bits (omega arith))
          (alloc_piece bits s
            (remove_from (inplace_rep S) tree min_bits bits s.buddy_small s.parent) least piece ok
            out.0 out.1 out.2 same)
    | inr whole ↦
        let test : leb (2 ^ chunk_bits) (2 ^ bits) ≡ true =
          ground (arith, pow_mono chunk_bits bits whole) in
        let got = laws.alloc_range_lem bits s.parent whole small ok.parent-IsRange in
        rw test (record {
          left-IsRange = record {
            array = ok.array;
            parent-IsRange = got.left-IsRange;
            small_le = λ x. omega (arith, got.shared x, ok.small_le x);
          };
          base_aligned = got.base_aligned;
          shared = λ x. omega (arith, got.shared x);
        })
  ]

  -- Over a parent that keeps what a range promises for chunks and larger blocks, the range keeps
  -- it for all powers of two from `2 ^ min_bits` on and below `2 ^ 63`, where that is no more than a
  -- chunk: an allocation gives null or an aligned block whose every byte was the range's and no
  -- longer is, a deallocation of a block that is not the range's makes every byte of it the range's,
  -- all other bytes stay as they are, and no byte is there twice. No memory is in the first bytes of
  -- a chunk's size, and clearing a block's node leaves the parent's memory as it is.
  pub small_buddy_range-RangeLaws :
      RangeLaws floor
        (small_owned tree_laws laws min_bits clear_node)
        (IsSmall tree_laws laws min_bits clear_node)
        (small_buddy_range range tree min_bits chunk_bits clear_node)
        min_bits
  unfolding small_buddy_range
  small_buddy_range-RangeLaws = record {
    owned_le = λ s x ok. ok.small_le x;
    alloc_range_lem = λ bits s least small ok. alloc_range-IsAllocated bits s least small ok;
    dealloc_range_lem = λ bits base s least small ok may.
        dealloc_range-IsTaken tree_laws laws min_bits clear_node min_le chunk_small chunk_le bits
          base s least small ok may;
  }
