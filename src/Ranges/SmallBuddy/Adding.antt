-- ===== src/Ranges/SmallBuddy/Adding.antt =====
-- src/snmalloc/backend_helpers/smallbuddyrange.h: what `add_range` does to the range.
use snmalloc.Base.{ℕ, suc, ◌+◌, ◌^◌, ◌≤◌, ◌<◌, ◌≡◌, inl, inr, refl, ap, arith}
use snmalloc.Base.{
  true, false, ltb, ◌==◌, List, [], ◌∷◌, Bool-cases, pow_pos, pow_mono, pow_suc, lt-or-le,
}
use snmalloc.Base.{if◌then◌else◌}
use snmalloc.Bits.Leading.{next_pow2_bits_pow}
use snmalloc.Buddy.{null, Tree, Outcome}
use snmalloc.Buddy.Address.{IsBlock}
use snmalloc.Buddy.Measure.{TreeLaws, covers, total}
use snmalloc.Buddy.Hooks.{KeptBy}
use snmalloc.Buddy.Array.{add_to, add_to-Kept, left_in, IsArray, add_to_lem}
use snmalloc.Ranges.{Range}
use snmalloc.Ranges.Laws.{room, room_le, MayTake, RangeLaws, IsTaken, room-IsBlock}
use snmalloc.Ranges.Laws.{
  inside, inside_none, inside_parts, AddsBetween, IsTiled-le, tile_bounds, covers-null,
}
use snmalloc.Blocks.Tiling.{IsTiled, tiled_nil, tiled_cons}
use snmalloc.Ranges.SmallBuddy.{SmallBuddyRange, inplace_rep, add_piece, add_pieces}

-- The hooks do nothing.
pub inplace_kept : {S : Type 0} {Kept : S → Type 0} → KeptBy (inplace_rep S) Kept
inplace_kept = record {
  on_consolidate-Kept = λ a size s k. k;
  on_split-Kept = λ a b size s k. k;
  on_add-Kept = λ bits s k. k;
  on_remove-Kept = λ bits s k. k;
}

module _ {S T : Type 0} {range : Range S} {tree : Tree T} {IsTree : T → Type 0}
    (tree_laws : TreeLaws tree IsTree) {floor chunk_bits : ℕ} {owned : S → ℕ → ℕ}
    {IsRange : S → Type 0} (laws : RangeLaws floor owned IsRange range chunk_bits) (min_bits : ℕ)
    (clear_node : ℕ → S → S) where
  -- How often a byte is in the range: in its buddy allocator or in its parent.
  abbrev pub small_owned : SmallBuddyRange S T → ℕ → ℕ
  small_owned s x = total tree (covers x) min_bits s.buddy_small.entries + owned s.parent x

  pub record IsSmall (s : SmallBuddyRange S T) : Type 0 where
    pub array : IsArray (inplace_rep S) tree_laws min_bits chunk_bits s.buddy_small
    pub parent-IsRange : IsRange s.parent
    pub small_le : (x : ℕ) → small_owned s x ≤ room floor x

  module _ (chunk_small : chunk_bits < 63) (chunk_le : chunk_bits ≤ floor) where
    -- The buddy allocator has taken the block, and may return one of a chunk's size.
    pass_on :
        (k base : ℕ) (s : SmallBuddyRange S T) (o : Outcome S T)
        → IsSmall s
        → MayTake floor small_owned k base s
        → IsArray
            (inplace_rep S)
            tree_laws
            min_bits
            chunk_bits
            (left_in (inplace_rep S) tree min_bits o)
        → IsBlock chunk_bits chunk_bits o.block
        → ((x : ℕ)
            → total tree (covers x) min_bits o.entries + covers x chunk_bits o.block
              ≡ total tree (covers x) min_bits s.buddy_small.entries + covers x k base)
        → o.rep ≡ s.parent
        → IsTaken floor small_owned IsSmall k base s (record {
          buddy_small = left_in (inplace_rep S) tree min_bits o;
          parent =
              if o.block == null then o.rep else range.dealloc_range o.block (2 ^ chunk_bits) o.rep;
        })
    unfolding IsBlock
    pass_on k base s o ok may array block shared same = elim (Bool-cases (o.block == null)) [
      | inl stays ↦
          let none : o.block ≡ null = ground (arith, stays) in
          let left : SmallBuddyRange S T = record {
            buddy_small = left_in (inplace_rep S) tree min_bits o;
            parent = o.rep;
          } in
          let all : (x : ℕ) → small_owned left x ≡ small_owned s x + covers x k base = λ x. omega (
            arith,
            shared x,
            covers-null x chunk_bits o.block none,
            ap (λ (t : S). owned t x) same,
          ) in
          rw stays (record {
            taken-IsRange = record {
              array = array;
              parent-IsRange = rw (← same) at ok.parent-IsRange;
              small_le = λ x. omega (arith, all x, may.new x);
            };
            joined = all;
          })
      | inr out ↦
          let taken =
            laws.dealloc_range_lem chunk_bits o.block o.rep (omega arith) chunk_small
              (rw (← same) at ok.parent-IsRange)
              (record {
                some_base = λ e. ground (arith, out, e);
                aligned = block.0;
                new = λ x. omega (arith, shared x, may.new x, ap (λ (t : S). owned t x) same);
              }) in
          let left : SmallBuddyRange S T = record {
            buddy_small = left_in (inplace_rep S) tree min_bits o;
            parent = range.dealloc_range o.block (2 ^ chunk_bits) o.rep;
          } in
          let all : (x : ℕ) → small_owned left x ≡ small_owned s x + covers x k base =
            λ x. omega (arith, shared x, taken.joined x, ap (λ (t : S). owned t x) same) in
          rw out (record {
            taken-IsRange = record {
              array = array;
              parent-IsRange = taken.taken-IsRange;
              small_le = λ x. omega (arith, all x, may.new x);
            };
            joined = all;
          })
    ]

    pub add_piece-IsTaken :
        (k base : ℕ) (s : SmallBuddyRange S T)
        → min_bits ≤ k
        → k < 63
        → IsSmall s
        → MayTake floor small_owned k base s
        → IsTaken floor small_owned IsSmall k base s
            (add_piece range tree min_bits chunk_bits clear_node base (2 ^ k) s)
    unfolding add_piece
    add_piece-IsTaken k base s least k_small ok may = elim (lt-or-le k chunk_bits) [
      | inl piece ↦
          let test : ltb (2 ^ k) (2 ^ chunk_bits) ≡ true =
            ground (arith, pow_mono (suc k) chunk_bits piece, pow_suc k, pow_pos k) in
          let added =
            add_to_lem (inplace_rep S) tree_laws min_bits chunk_bits k least (omega arith)
              s.buddy_small ok.array base s.parent may.some_base
              (room-IsBlock floor chunk_bits k base chunk_le may.some_base may.aligned
                (λ x. omega (arith, may.new x)))
              (λ x. omega (arith, may.new x, room_le floor x)) in
          let same =
            add_to-Kept (inplace_rep S) tree min_bits base k s.buddy_small
              {Kept = λ t. t ≡ s.parent} inplace_kept s.parent refl in
          rw (test, next_pow2_bits_pow k (omega arith))
            (pass_on k base s (add_to (inplace_rep S) tree min_bits base k s.buddy_small s.parent)
              ok may added.0 added.1 added.2 same)
      | inr whole ↦
          let test : ltb (2 ^ k) (2 ^ chunk_bits) ≡ false =
            ground (arith, pow_mono chunk_bits k whole) in
          let taken =
            laws.dealloc_range_lem k base s.parent whole k_small ok.parent-IsRange (record {
              some_base = may.some_base;
              aligned = may.aligned;
              new = λ x. omega (arith, may.new x);
            }) in
          rw test (record {
            taken-IsRange = record {
              array = ok.array;
              parent-IsRange = taken.taken-IsRange;
              small_le = λ x. omega (arith, may.new x, taken.joined x);
            };
            joined = λ x. omega (arith, taken.joined x);
          })
    ]

    pub add_pieces-IsTaken :
        (from to : ℕ) (blocks : List (ℕ × ℕ)) (s : SmallBuddyRange S T)
        → IsTiled min_bits from to blocks
        → IsSmall s
        → ((x : ℕ) → small_owned s x + inside from to x ≤ room floor x)
        → AddsBetween small_owned IsSmall from to s
            (add_pieces range tree min_bits chunk_bits clear_node blocks s)
    unfolding add_pieces
    add_pieces-IsTaken from to [] s tiled_nil ok may = record {
      added-IsRange = ok;
      added_between = λ x. omega (arith, inside_none from x);
    }
    add_pieces-IsTaken from to ((base, align) ∷ blocks) s (tiled_cons k least aligned rest) ok may =
        let bounds =
          tile_bounds floor from to k aligned (IsTiled-le rest) (λ x. omega (arith, may x)) in
        let parts : (x : ℕ) → inside from to x ≡ covers x k from + inside (from + 2 ^ k) to x =
          λ x. inside_parts from to k x bounds.0 (IsTiled-le rest) in
        let first = add_piece-IsTaken k from s least bounds.1 ok (record {
          some_base = bounds.0;
          aligned = aligned;
          new = λ x. omega (arith, may x, parts x);
        }) in
        let others =
          add_pieces-IsTaken (from + 2 ^ k) to blocks _ rest first.taken-IsRange
            (λ x. omega (arith, may x, parts x, first.joined x)) in
        record {
          added-IsRange = others.added-IsRange;
          added_between = λ x. omega (arith, others.added_between x, first.joined x, parts x);
        }
