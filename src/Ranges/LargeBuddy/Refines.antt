-- ===== src/Ranges/LargeBuddy/Refines.antt =====
-- src/snmalloc/backend_helpers/largebuddyrange.h: the two operations, as those of a range.
use snmalloc.Base.{ℕ, ◌^◌, ◌≤◌, ◌<◌, inl, inr, refl, arith}
use snmalloc.Base.{Bool, ◌==◌}
use snmalloc.Bits.Leading.{next_pow2_bits_pow}
use snmalloc.Buddy.{null, Tree}
use snmalloc.Buddy.Measure.{TreeLaws}
use snmalloc.Buddy.Array.{add_to}
use snmalloc.Ranges.{Range}
use snmalloc.Ranges.Laws.{MayTake, RangeLaws, IsTaken}
use snmalloc.Ranges.ChunkRep.{Outside, chunk_rep}
use snmalloc.Ranges.LargeBuddy.{
  LargeBuddyRange, landed_size_bits, after, dealloc_range, large_buddy_range,
}
use snmalloc.Ranges.LargeBuddy.Kept.{
  OutsideKept, Beside, Beside-if, settle-Beside, maybe_sweep_decay-Beside,
}
use snmalloc.Ranges.LargeBuddy.Adding.{
  IsSame, large_owned, IsLarge, Beside-IsLarge, after_add, pass_on,
}
use snmalloc.Ranges.LargeBuddy.Allocating.{size_test, alloc_range-IsAllocated}

module _ {S T : Type 0} {range : Range S} {tree : Tree T} {IsTree : T → Type 0}
    (tree_laws : TreeLaws tree IsTree) {floor chunk_bits : ℕ} {owned : S → ℕ → ℕ}
    {IsRange : S → Type 0} (laws : RangeLaws floor owned IsRange range chunk_bits) (out : Outside S)
    (max_bits : ℕ) (keeps : (t : S) → OutsideKept out (IsSame tree_laws laws out max_bits t))
    (refill_bits min_refill_bits : ℕ) (manages : Bool) (max_small : max_bits < 63)
    (max_le : max_bits ≤ floor) (chunk_lt : chunk_bits < max_bits) (chunk_pos : 0 < chunk_bits)
    (refill_le : refill_bits ≤ max_bits) (min_le : min_refill_bits ≤ max_bits) where
  dealloc_range-IsTaken :
      (bits base : ℕ) (s : LargeBuddyRange S T)
      → chunk_bits ≤ bits
      → bits < 63
      → IsLarge tree_laws laws out max_bits s
      → MayTake floor (large_owned tree_laws laws out max_bits) bits base s
      → IsTaken floor
          (large_owned tree_laws laws out max_bits)
          (IsLarge tree_laws laws out max_bits)
          bits
          base
          s
          (dealloc_range out chunk_bits tree range refill_bits max_bits min_refill_bits manages base
            (2 ^ bits)
            s)
  unfolding dealloc_range
  dealloc_range-IsTaken bits base s least small ok may =
      elim (size_test bits max_bits (omega arith)) [
        | inl (less, test) ↦
            let o =
              add_to (chunk_rep out chunk_bits) tree chunk_bits base bits s.buddy_large s.parent in
            let added =
              after_add tree_laws laws out max_bits keeps refill_bits min_refill_bits manages
                max_small max_le (omega arith) bits base s least (omega arith) ok may in
            let s1 =
              after out chunk_bits tree range refill_bits max_bits min_refill_bits manages o s in
            let here : Beside (IsSame tree_laws laws out max_bits s1.parent) s1 s1 = record {
              same_buddy = refl;
              still-Kept = (added.0.parent-IsRange, λ x. refl);
            } in
            let settled =
              Beside-if (IsSame tree_laws laws out max_bits s1.parent) (o.block == null)
                (settle-Beside chunk_bits (keeps s1.parent) tree range refill_bits max_bits
                  min_refill_bits manages base (landed_size_bits o.landed) s1 here.still-Kept)
                here in
            let passed =
              pass_on tree_laws laws out max_bits keeps refill_bits min_refill_bits manages
                max_small max_le (omega arith) bits base s s1 _ o.block may added.0 added.1 added.2
                settled in
            let swept = Beside-IsLarge tree_laws laws out max_bits _ _ passed.taken-IsRange (
              maybe_sweep_decay-Beside chunk_bits (keeps _) tree range refill_bits max_bits
                min_refill_bits manages _ (passed.taken-IsRange.parent-IsRange, λ x. refl)) in
            rw (test, next_pow2_bits_pow bits (omega arith))
              (record {
                taken-IsRange = swept.0;
                joined = λ x. omega (arith, swept.1 x, passed.joined x);
              })
        | inr (more, test) ↦
            let taken =
              laws.dealloc_range_lem bits base s.parent least small ok.parent-IsRange (record {
                some_base = may.some_base;
                aligned = may.aligned;
                new = λ x. omega (arith, may.new x);
              }) in
            rw test (record {
              taken-IsRange = record {
                array = ok.array;
                parent-IsRange = taken.taken-IsRange;
                large_le = λ x. omega (arith, may.new x, taken.joined x);
              };
              joined = λ x. omega (arith, taken.joined x);
            })
      ]

  -- Over a parent that keeps what a range promises, whatever the platform does short of changing
  -- the parent's memory, the range keeps it too, for sizes that are powers of two from the chunk size
  -- on and below `2 ^ 63`: an allocation gives null or an aligned block whose every byte was the
  -- range's and no longer is, a deallocation of a block that is not the range's makes every byte of
  -- it the range's, all other bytes stay as they are through merges, splits, refills and sweeps, and
  -- no byte is there twice. The largest block is to be below `2 ^ 63` bytes and larger than a chunk,
  -- refills are at most that large, and no memory is in the first bytes of that number.
  pub large_buddy_range-RangeLaws :
      RangeLaws floor
        (large_owned tree_laws laws out max_bits)
        (IsLarge tree_laws laws out max_bits)
        (large_buddy_range out chunk_bits tree range refill_bits max_bits min_refill_bits manages)
        chunk_bits
  unfolding large_buddy_range
  large_buddy_range-RangeLaws = record {
    owned_le = λ s x ok. ok.large_le x;
    alloc_range_lem = λ bits s least small ok.
        alloc_range-IsAllocated tree_laws laws out max_bits keeps refill_bits min_refill_bits
          manages max_small max_le chunk_lt chunk_pos refill_le min_le bits s least small ok;
    dealloc_range_lem =
        λ bits base s least small ok may. dealloc_range-IsTaken bits base s least small ok may;
  }
