-- ===== src/Ranges/LargeBuddy/Allocating.antt =====
-- src/snmalloc/backend_helpers/largebuddyrange.h: `alloc_range`.
use snmalloc.Base.{ℕ, suc, ◌+◌, ◌^◌, ◌≤◌, ◌<◌, ◌≡◌, ◌⊎◌, inl, inr, refl, arith}
use snmalloc.Base.{
  Bool, true, false, leb, ◌==◌, if◌then◌else◌, Bool-cases, lt-or-le, pow_suc, pow_mono,
}
use snmalloc.Bits.{mask_bits}
use snmalloc.Bits.Leading.{next_pow2_bits_pow}
use snmalloc.Buddy.{null, Tree, Outcome}
use snmalloc.Buddy.Address.{IsBlock}
use snmalloc.Buddy.Measure.{TreeLaws, covers, total}
use snmalloc.Buddy.Array.{remove_from, remove_from-Kept, left_in, IsArray, remove_from_lem}
use snmalloc.Ranges.{Range}
use snmalloc.Ranges.Laws.{RangeLaws, IsAllocated, covers-null}
use snmalloc.Ranges.ChunkRep.{Outside, chunk_rep}
use snmalloc.Ranges.LargeBuddy.{
  LargeBuddyRange, after, refill, recommit, alloc_range, maybe_sweep_decay,
}
use snmalloc.Ranges.LargeBuddy.Kept.{
  OutsideKept, chunk_rep-KeptBy, recommit-Beside, maybe_sweep_decay-Beside,
}
use snmalloc.Ranges.LargeBuddy.Adding.{IsSame, large_owned, IsLarge, Beside-IsLarge}
use snmalloc.Ranges.LargeBuddy.Refilling.{refill-IsAllocated}

-- Of powers of two, the test against the largest size.
pub size_test :
    (bits max_bits : ℕ)
    → 1 < max_bits
    → ((bits < max_bits) × (leb (mask_bits max_bits) (2 ^ bits) ≡ false))
      ⊎ ((max_bits ≤ bits) × (leb (mask_bits max_bits) (2 ^ bits) ≡ true))
size_test bits max_bits h = elim (lt-or-le bits max_bits) [
  | inl less ↦
      inl (
        less,
        ground (arith, pow_mono (suc bits) max_bits less, pow_suc bits, pow_mono 2 max_bits h),
      )
  | inr more ↦ inr (more, ground (arith, pow_mono max_bits bits more))
]

module _ {S T : Type 0} {range : Range S} {tree : Tree T} {IsTree : T → Type 0}
    (tree_laws : TreeLaws tree IsTree) {floor chunk_bits : ℕ} {owned : S → ℕ → ℕ}
    {IsRange : S → Type 0} (laws : RangeLaws floor owned IsRange range chunk_bits) (out : Outside S)
    (max_bits : ℕ) (keeps : (t : S) → OutsideKept out (IsSame tree_laws laws out max_bits t))
    (refill_bits min_refill_bits : ℕ) (manages : Bool) (max_small : max_bits < 63)
    (max_le : max_bits ≤ floor) (chunk_lt : chunk_bits < max_bits) (chunk_pos : 0 < chunk_bits)
    (refill_le : refill_bits ≤ max_bits) (min_le : min_refill_bits ≤ max_bits) where
  -- The block that is removed, or a new one; then what is done beside it.
  alloc_chunk :
      (bits : ℕ) (s : LargeBuddyRange S T) (o : Outcome S T)
      → chunk_bits ≤ bits
      → bits < max_bits
      → IsLarge tree_laws laws out max_bits s
      → IsArray
          (chunk_rep out chunk_bits)
          tree_laws
          chunk_bits
          max_bits
          (left_in (chunk_rep out chunk_bits) tree chunk_bits o)
      → IsBlock max_bits bits o.block
      → ((x : ℕ)
          → total tree (covers x) chunk_bits o.entries + covers x bits o.block
            ≡ total tree (covers x) chunk_bits s.buddy_large.entries)
      → IsSame tree_laws laws out max_bits s.parent o.rep
      → let s1 = after out chunk_bits tree range refill_bits max_bits min_refill_bits manages o s in
        let filled =
          refill out chunk_bits tree range refill_bits max_bits min_refill_bits manages
            (2 ^ bits)
            s1 in
        let r : ℕ × LargeBuddyRange S T =
          if o.block == null
          then (
            filled.0,
            maybe_sweep_decay out chunk_bits tree range refill_bits max_bits min_refill_bits manages
                (filled.1),
          )
          else (
            o.block,
            recommit out chunk_bits tree range refill_bits max_bits min_refill_bits manages o.block
                (2 ^ bits)
                s1,
          ) in
        IsAllocated floor
          (large_owned tree_laws laws out max_bits)
          (IsLarge tree_laws laws out max_bits)
          bits
          s
          (r.0)
          (r.1)
  unfolding IsBlock
  alloc_chunk bits s o least less ok array block shared same =
      let s1 = after out chunk_bits tree range refill_bits max_bits min_refill_bits manages o s in
      let ok1 : IsLarge tree_laws laws out max_bits s1 = record {
        array = array;
        parent-IsRange = same.0;
        large_le = λ x. omega (arith, shared x, same.1 x, ok.large_le x);
      } in
      elim (Bool-cases (o.block == null)) [
        | inl empty ↦
            let no_block : o.block ≡ null = ground (arith, empty) in
            let got =
              refill-IsAllocated tree_laws laws out max_bits keeps refill_bits min_refill_bits
                manages max_small max_le chunk_lt refill_le min_le bits s1 least (omega arith)
                ok1 in
            let filled =
              refill out chunk_bits tree range refill_bits max_bits min_refill_bits manages
                (2 ^ bits) s1 in
            let swept = Beside-IsLarge tree_laws laws out max_bits (filled.1) _ got.left-IsRange (
              maybe_sweep_decay-Beside chunk_bits (keeps filled.1.parent) tree range refill_bits
                max_bits min_refill_bits manages (filled.1)
                (got.left-IsRange.parent-IsRange, λ x. refl)) in
            rw empty (record {
              left-IsRange = swept.0;
              base_aligned = got.base_aligned;
              shared = λ x. omega (
                arith,
                swept.1 x,
                got.shared x,
                shared x,
                same.1 x,
                covers-null x bits o.block no_block,
              );
            })
        | inr full ↦
            let used = Beside-IsLarge tree_laws laws out max_bits s1 _ ok1 (
              recommit-Beside chunk_bits (keeps o.rep) tree range refill_bits max_bits
                min_refill_bits manages o.block (2 ^ bits) s1 (same.0, λ x. refl)) in
            rw full (record {
              left-IsRange = used.0;
              base_aligned = block.0;
              shared = λ x. omega (arith, used.1 x, shared x, same.1 x);
            })
      ]

  pub alloc_range-IsAllocated :
      (bits : ℕ) (s : LargeBuddyRange S T)
      → chunk_bits ≤ bits
      → bits < 63
      → IsLarge tree_laws laws out max_bits s
      → let r =
          alloc_range out chunk_bits tree range refill_bits max_bits min_refill_bits manages
            (2 ^ bits)
            s in
        IsAllocated floor
          (large_owned tree_laws laws out max_bits)
          (IsLarge tree_laws laws out max_bits)
          bits
          s
          (r.0)
          (r.1)
  unfolding alloc_range
  alloc_range-IsAllocated bits s least small ok = elim (size_test bits max_bits (omega arith)) [
    | inl (less, test) ↦
        let got =
          remove_from_lem (chunk_rep out chunk_bits) tree_laws chunk_bits max_bits bits least
            (omega arith) s.buddy_large ok.array s.parent in
        let same =
          remove_from-Kept (chunk_rep out chunk_bits) tree chunk_bits bits s.buddy_large
            {Kept = IsSame tree_laws laws out max_bits s.parent}
            (chunk_rep-KeptBy chunk_bits (keeps s.parent)) s.parent
            (ok.parent-IsRange, λ x. refl) in
        rw (test, next_pow2_bits_pow bits (omega arith))
          (alloc_chunk bits s
            (remove_from (chunk_rep out chunk_bits) tree chunk_bits bits s.buddy_large s.parent)
            least less ok got.0 got.1 got.2 same)
    | inr (more, test) ↦
        let got = laws.alloc_range_lem bits s.parent least small ok.parent-IsRange in
        rw test (record {
          left-IsRange = record {
            array = ok.array;
            parent-IsRange = got.left-IsRange;
            large_le = λ x. omega (arith, got.shared x, ok.large_le x);
          };
          base_aligned = got.base_aligned;
          shared = λ x. omega (arith, got.shared x);
        })
  ]
