-- ===== src/Ranges/LargeBuddy/Adding.antt =====
-- src/snmalloc/backend_helpers/largebuddyrange.h: what `add_range` does to the range.
use snmalloc.Base.{ℕ, ◌+◌, ◌^◌, ◌≤◌, ◌<◌, ◌≡◌, inl, inr, refl, ap, arith}
use snmalloc.Base.{Bool, ◌==◌, List, [], ◌∷◌, Bool-cases, lt-or-le, pow_pos}
use snmalloc.Bits.{sub_word}
use snmalloc.Bits.Align.{multiple_step}
use snmalloc.Bits.ExpMant.Aligned.{pow_dvd}
use snmalloc.Bits.Leading.{next_pow2_bits_pow}
use snmalloc.Blocks.Tiling.{IsTiled, tiled_nil, tiled_cons}
use snmalloc.Buddy.{null, Tree}
use snmalloc.Buddy.Address.{IsBlock}
use snmalloc.Buddy.Measure.{TreeLaws, covers, total}
use snmalloc.Buddy.Array.{Buddy, add_to, add_to-Kept, IsArray, add_to_lem}
use snmalloc.Ranges.{Range}
use snmalloc.Ranges.Laws.{
  room, room_le, MayTake, RangeLaws, IsTaken, room-IsBlock, inside, inside_none, inside_parts,
  AddsBetween, IsTiled-le, tile_bounds, covers-null,
}
use snmalloc.Ranges.ChunkRep.{Outside, chunk_rep}
use snmalloc.Ranges.LargeBuddy.{
  LargeBuddyRange, landed_size_bits, after, dealloc_overflow, add_chunks, add_blocks,
}
use snmalloc.Ranges.LargeBuddy.Kept.{
  OutsideKept, Beside, Beside-if, chunk_rep-KeptBy, touch_bucket-Beside,
}
use native.Mathlib.Nat.{dvd_of_mod-eq-zero, dvd_trans}
use Prim.Native.Nat.{◌∣◌}

module _ {S T : Type 0} {range : Range S} {tree : Tree T} {IsTree : T → Type 0}
    (tree_laws : TreeLaws tree IsTree) {floor chunk_bits : ℕ} {owned : S → ℕ → ℕ}
    {IsRange : S → Type 0} (laws : RangeLaws floor owned IsRange range chunk_bits) (out : Outside S)
    (max_bits : ℕ) where
  -- The parent's memory is as it was in the state `t`.
  abbrev pub IsSame : S → S → Type 0
  IsSame t s = IsRange s × ((x : ℕ) → owned s x ≡ owned t x)

  -- How often a byte is in the range: in its buddy allocator or in its parent.
  abbrev pub large_owned : LargeBuddyRange S T → ℕ → ℕ
  large_owned s x = total tree (covers x) chunk_bits s.buddy_large.entries + owned s.parent x

  pub record IsLarge (s : LargeBuddyRange S T) : Type 0 where
    pub array : IsArray (chunk_rep out chunk_bits) tree_laws chunk_bits max_bits s.buddy_large
    pub parent-IsRange : IsRange s.parent
    pub large_le : (x : ℕ) → large_owned s x ≤ room floor x

  pub Beside-IsLarge :
      (s left : LargeBuddyRange S T)
      → IsLarge s
      → Beside (IsSame s.parent) s left
      → IsLarge left × ((x : ℕ) → large_owned left x ≡ large_owned s x)
  Beside-IsLarge s left ok beside =
      let all : (x : ℕ) → large_owned left x ≡ large_owned s x = λ x. omega (
        arith,
        ap (λ (b : Buddy T). total tree (covers x) chunk_bits b.entries) beside.same_buddy,
        beside.still-Kept.1 x,
      ) in
      (
        record {
          array = rw (← beside.same_buddy) at ok.array;
          parent-IsRange = beside.still-Kept.0;
          large_le = λ x. omega (arith, all x, ok.large_le x);
        },
        all,
      )

  module _ (keeps : (t : S) → OutsideKept out (IsSame t)) (refill_bits min_refill_bits : ℕ)
      (manages : Bool) (max_small : max_bits < 63) (max_le : max_bits ≤ floor)
      (chunk_le : chunk_bits ≤ max_bits) where
    -- The outcome of `add_block`, with the block that may be returned.
    pub after_add :
        (k base : ℕ) (s : LargeBuddyRange S T)
        → chunk_bits ≤ k
        → k ≤ max_bits
        → IsLarge s
        → MayTake floor large_owned k base s
        → let o = add_to (chunk_rep out chunk_bits) tree chunk_bits base k s.buddy_large s.parent in
          IsLarge (after out chunk_bits tree range refill_bits max_bits min_refill_bits manages o s)
          × IsBlock max_bits max_bits o.block
          × ((x : ℕ)
              → large_owned
                    (after out chunk_bits tree range refill_bits max_bits min_refill_bits manages o
                      s)
                    x
                  + covers x max_bits o.block
                ≡ large_owned s x + covers x k base)
    after_add k base s least most ok may =
        let o = add_to (chunk_rep out chunk_bits) tree chunk_bits base k s.buddy_large s.parent in
        let added =
          add_to_lem (chunk_rep out chunk_bits) tree_laws chunk_bits max_bits k least most
            s.buddy_large ok.array base s.parent may.some_base
            (room-IsBlock floor max_bits k base max_le may.some_base may.aligned
              (λ x. omega (arith, may.new x)))
            (λ x. omega (arith, may.new x, room_le floor x)) in
        let same : IsSame s.parent o.rep =
          add_to-Kept (chunk_rep out chunk_bits) tree chunk_bits base k s.buddy_large
            {Kept = IsSame s.parent} (chunk_rep-KeptBy chunk_bits (keeps s.parent)) s.parent
            (ok.parent-IsRange, λ x. refl) in
        let all : (x : ℕ)
            → total tree (covers x) chunk_bits o.entries + owned o.rep x + covers x max_bits o.block
              ≡ large_owned s x + covers x k base =
          λ x. omega (arith, added.2 x, same.1 x) in
        (
          record {
            array = added.0;
            parent-IsRange = same.0;
            large_le = λ x. omega (arith, all x, may.new x);
          },
          added.1,
          all,
        )

    pub dealloc_overflow-IsLarge :
        (block : ℕ) (s : LargeBuddyRange S T)
        → IsLarge s
        → IsBlock max_bits max_bits block
        → ((x : ℕ) → large_owned s x + covers x max_bits block ≤ room floor x)
        → let left =
            dealloc_overflow out chunk_bits tree range refill_bits max_bits min_refill_bits manages
              block s in
          IsLarge left × ((x : ℕ) → large_owned left x ≡ large_owned s x + covers x max_bits block)
    unfolding dealloc_overflow IsBlock
    dealloc_overflow-IsLarge block s ok shape may = elim (Bool-cases (block == null)) [
      | inl stays ↦
          let no_block : block ≡ null = ground (arith, stays) in
          rw stays (ok, λ x. omega (arith, covers-null x max_bits block no_block))
      | inr over ↦
          let taken =
            laws.dealloc_range_lem max_bits block s.parent chunk_le max_small ok.parent-IsRange
              (record {
                some_base = λ e. ground (arith, over, e);
                aligned = shape.0;
                new = λ x. omega (arith, may x);
              }) in
          rw over (
            record {
              array = ok.array;
              parent-IsRange = taken.taken-IsRange;
              large_le = λ x. omega (arith, taken.joined x, may x);
            },
            λ x. omega (arith, taken.joined x),
          )
    ]

    -- What follows `add_block`, whatever is done beside it before the overflow is passed on.
    pub pass_on :
        (k base : ℕ) (s s1 s2 : LargeBuddyRange S T) (block : ℕ)
        → MayTake floor large_owned k base s
        → IsLarge s1
        → IsBlock max_bits max_bits block
        → ((x : ℕ) → large_owned s1 x + covers x max_bits block ≡ large_owned s x + covers x k base)
        → Beside (IsSame s1.parent) s1 s2
        → IsTaken floor large_owned IsLarge k base s (
            dealloc_overflow out chunk_bits tree range refill_bits max_bits min_refill_bits manages
              block s2)
    pass_on k base s s1 s2 block may ok shape shared beside =
        let next = Beside-IsLarge s1 s2 ok beside in
        let last =
          dealloc_overflow-IsLarge block s2 next.0 shape
            (λ x. omega (arith, next.1 x, shared x, may.new x)) in
        record { taken-IsRange = last.0; joined = λ x. omega (arith, last.1 x, next.1 x, shared x) }

    add_chunks-IsTaken :
        (k base : ℕ) (s : LargeBuddyRange S T)
        → chunk_bits ≤ k
        → k ≤ max_bits
        → IsLarge s
        → MayTake floor large_owned k base s
        → IsTaken floor large_owned IsLarge k base s (
            add_chunks out chunk_bits tree range refill_bits max_bits min_refill_bits manages base
              (2 ^ k)
              s)
    unfolding add_chunks
    add_chunks-IsTaken k base s least most ok may =
        let o = add_to (chunk_rep out chunk_bits) tree chunk_bits base k s.buddy_large s.parent in
        let added = after_add k base s least most ok may in
        let s1 = after out chunk_bits tree range refill_bits max_bits min_refill_bits manages o s in
        let here : Beside (IsSame s1.parent) s1 s1 = record {
          same_buddy = refl;
          still-Kept = (added.0.parent-IsRange, λ x. refl);
        } in
        rw (next_pow2_bits_pow k (omega arith)) (
          pass_on k base s s1 _ o.block may added.0 added.1 added.2 (
            Beside-if (IsSame s1.parent) (o.block == null)
              (touch_bucket-Beside chunk_bits (keeps s1.parent) tree range refill_bits max_bits
                min_refill_bits manages (sub_word (landed_size_bits o.landed) chunk_bits) s1
                here.still-Kept)
              here))

    -- The blocks of a part of an aligned block that begins after the block's start.
    pub add_blocks-AddsBetween :
        (from to top j : ℕ) (blocks : List (ℕ × ℕ)) (s : LargeBuddyRange S T)
        → IsTiled chunk_bits from to blocks
        → 2 ^ j ∣ top
        → top < from
        → to ≤ top + 2 ^ j
        → j ≤ max_bits
        → IsLarge s
        → ((x : ℕ) → large_owned s x + inside from to x ≤ room floor x)
        → AddsBetween large_owned IsLarge from to s (
            add_blocks out chunk_bits tree range refill_bits max_bits min_refill_bits manages blocks
              s)
    unfolding add_blocks
    add_blocks-AddsBetween from to top j [] s tiled_nil top_dvd lt le small ok may = record {
      added-IsRange = ok;
      added_between = λ x. omega (arith, inside_none from x);
    }
    add_blocks-AddsBetween from to top j ((base, align) ∷ blocks) s
          (tiled_cons k least aligned rest) top_dvd lt le small ok may =
        let bounds =
          tile_bounds floor from to k aligned (IsTiled-le rest) (λ x. omega (arith, may x)) in
        let parts : (x : ℕ) → inside from to x ≡ covers x k from + inside (from + 2 ^ k) to x =
          λ x. inside_parts from to k x bounds.0 (IsTiled-le rest) in
        let k_le : k ≤ j = elim (lt-or-le j k) [
          | inl more ↦ absurd (
              omega (
                arith,
                multiple_step top from (2 ^ j) top_dvd
                    (dvd_trans (2 ^ j) (pow_dvd j k (omega arith))
                      (dvd_of_mod-eq-zero (2 ^ k) aligned))
                    lt,
                IsTiled-le rest,
                pow_pos k,
              ))
          | inr le_j ↦ le_j
        ] in
        let first = add_chunks-IsTaken k from s least (omega arith) ok (record {
          some_base = bounds.0;
          aligned = aligned;
          new = λ x. omega (arith, may x, parts x);
        }) in
        let others =
          add_blocks-AddsBetween (from + 2 ^ k) to top j blocks _ rest top_dvd
            (omega (arith, pow_pos k)) le small first.taken-IsRange
            (λ x. omega (arith, may x, parts x, first.joined x)) in
        record {
          added-IsRange = others.added-IsRange;
          added_between = λ x. omega (arith, others.added_between x, first.joined x, parts x);
        }
