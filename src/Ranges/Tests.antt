-- ===== src/Ranges/Tests.antt =====
-- The ranges over a block of 2 ^ 6 bytes at address 1024, with chunks of that size, pieces of 2 ^ 4
-- bytes and more, and a cache of up to 2 ^ 8 bytes.
mod Large
mod Idle
use snmalloc.Base.{ℕ, suc, ◌+◌, ◌-◌, ◌%◌, ◌^◌, ◌≤◌, ◌<◌, ◌≡◌, inl, inr, refl, arith}
use snmalloc.Base.{Bool, true, false, List, [], ◌∷◌, All, all_nil, all_cons, sum}
use snmalloc.Bits.{word, align_up, align_down, next_pow2, next_pow2_bits, clz, ctz}
use snmalloc.Blocks.{range_to_pow_2_blocks, blocks_loop, block_bits}
use snmalloc.Buddy.{null, Entry, Rep}
use snmalloc.Buddy.Measure.{total, covers, no_buckets, bucket}
use snmalloc.Buddy.Address.{IsBlock, null-IsBlock}
use snmalloc.Buddy.Laws.{IsBuddy}
use snmalloc.Buddy.Array.{Buddy, IsArray}
use snmalloc.Buddy.RedBlackTrees.{rb_tree, rb_tree-TreeLaws, IsRbTree}
use snmalloc.RedBlack.{RbTree, leaf, in_order}
use snmalloc.RedBlack.Balance.{balanced_leaf}
use snmalloc.RedBlack.Fixing.{IsBlackRooted}
use snmalloc.Ranges.Held.{held, held_range, held_range-RangeLaws, IsHeld}
use snmalloc.Ranges.Laws.{room, RangeLaws, AddsBetween, inside}
use snmalloc.Ranges.SmallBuddy.{
  SmallBuddyRange, inplace_rep, small_buddy_range, add_range, alloc_range_with_leftover,
}
use snmalloc.Ranges.SmallBuddy.Adding.{IsSmall, small_owned}
use snmalloc.Ranges.SmallBuddy.Refilling.{add_range_lem}
use snmalloc.Ranges.SmallBuddy.Refines.{small_buddy_range-RangeLaws}
use snmalloc.Ranges.SmallBuddy.Leftover.{alloc_range_with_leftover_lem, given}

leaf-IsRbTree : IsRbTree leaf
unfolding IsRbTree IsBlackRooted in_order
leaf-IsRbTree = ((1, balanced_leaf, refl), all_nil)

abbrev no_block : Entry RbTree
no_block = record { cache = 0 ∷ 0 ∷ 0 ∷ []; tree = leaf }

abbrev pub two_buckets : Buddy RbTree
two_buckets = record { entries = no_block ∷ no_block ∷ []; empty_at_or_above = 0 }

-- Two empty buckets, from `least` on.
pub two_buckets-IsArray :
    {S : Type 0} (rep : Rep S) (least limit : ℕ)
    → least + 2 ≡ limit
    → limit < 64
    → IsArray rep rb_tree-TreeLaws least limit two_buckets
unfolding total covers sum in_order
two_buckets-IsArray rep least limit e small = record {
  in_word = small;
  reaches = omega (arith, e);
  buckets =
      bucket leaf-IsRbTree (nulls least)
        (λ h. all_cons refl (all_cons refl (all_cons refl all_nil)))
        (bucket leaf-IsRbTree (nulls (suc least))
          (λ h. all_cons refl (all_cons refl (all_cons refl all_nil))) no_buckets);
  apart = λ x. ground arith;
}
  where
    nulls : (bits : ℕ) → All (IsBlock limit bits) (0 ∷ 0 ∷ 0 ∷ [])
    nulls bits =
        all_cons (null-IsBlock limit bits)
          (all_cons (null-IsBlock limit bits) (all_cons (null-IsBlock limit bits) all_nil))

abbrev one_chunk : List (ℕ × ℕ)
one_chunk = (1024, 6) ∷ []

one_chunk-IsHeld : IsHeld 8 one_chunk
unfolding held room covers
one_chunk-IsHeld = record { blocks_aligned = all_cons refl all_nil; held_le = λ x. ground arith }

abbrev small_start : SmallBuddyRange (List (ℕ × ℕ)) RbTree
small_start = record { buddy_small = two_buckets; parent = one_chunk }

abbrev no_clear : {S : Type 0} → ℕ → S → S
no_clear k s = s

small_start-IsSmall : IsSmall rb_tree-TreeLaws (held_range-RangeLaws 8 6) 4 no_clear small_start
unfolding total covers sum in_order held room
small_start-IsSmall = record {
  array = two_buckets-IsArray (inplace_rep (List (ℕ × ℕ))) 4 6 refl (omega arith);
  parent-IsRange = one_chunk-IsHeld;
  small_le = λ x. ground arith;
}

small_buddy_range-RangeLaws_example :
    RangeLaws 8
      (small_owned rb_tree-TreeLaws (held_range-RangeLaws 8 6) 4 no_clear)
      (IsSmall rb_tree-TreeLaws (held_range-RangeLaws 8 6) 4 no_clear)
      (small_buddy_range held_range rb_tree 4 6 no_clear)
      4
small_buddy_range-RangeLaws_example =
    small_buddy_range-RangeLaws rb_tree-TreeLaws (held_range-RangeLaws 8 6) 4 no_clear (omega arith)
      (omega arith) (omega arith) (λ k t ok. ok) (λ k t x ok. refl)

next_large : 2 ^ 4 ≤ next_pow2 20
unfolding next_pow2 clz
next_large = omega arith

alloc_range_with_leftover_lem_example :
    let r = alloc_range_with_leftover held_range rb_tree 4 6 no_clear 20 small_start in
    IsSmall rb_tree-TreeLaws (held_range-RangeLaws 8 6) 4 no_clear (r.1)
    × (r.0 % next_pow2 20 ≡ 0)
    × (small_owned rb_tree-TreeLaws (held_range-RangeLaws 8 6) 4 no_clear (r.1) 1060
          + given 4 (r.0) 20 1060
        ≡ small_owned rb_tree-TreeLaws (held_range-RangeLaws 8 6) 4 no_clear small_start 1060)
alloc_range_with_leftover_lem_example =
    alloc_range_with_leftover_lem rb_tree-TreeLaws (held_range-RangeLaws 8 6) 4 no_clear
      (omega arith) (omega arith) (omega arith) (λ k t ok. ok) (λ k t x ok. refl) 20 small_start
      1060 (omega arith) (omega arith) next_large small_start-IsSmall
