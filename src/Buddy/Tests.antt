-- ===== src/Buddy/Tests.antt =====
-- Two buckets, of 16 and of 32 bytes, of the allocator of src/snmalloc/backend_helpers/buddy.h.
use snmalloc.Base.{ℕ, ◌+◌, ◌-◌, ◌≤◌, ◌≡◌, ◌↔◌, refl, inr, arith, List, [], ◌∷◌, true}
use snmalloc.Base.{sum, all_nil, all_cons}
use snmalloc.Buddy.{null, Rep, Entry, add_block, remove_block}
use snmalloc.Buddy.{
  remove_buddy, take_buddy, land, put, has, replace, buddy, offset, rep_align_down,
}
use snmalloc.Buddy.{take_block, split, exchange}
use snmalloc.Buddy.Address.{IsBlock, null-IsBlock}
use snmalloc.Buddy.Measure.{total, covers, no_buckets, bucket}
use snmalloc.Buddy.Laws.{
  IsBuddy, free_at, free_bytes, add_block-IsBuddy, remove_block-IsBuddy, remove_block-null,
}
use snmalloc.RedBlack.{RbTree, leaf, in_order, find}
use snmalloc.RedBlack.Balance.{balanced_leaf}
use snmalloc.RedBlack.Fixing.{IsBlackRooted}
use snmalloc.RedBlack.Removing.{remove_min}
use snmalloc.Buddy.RedBlackTrees.{rb_tree, rb_tree-TreeLaws, IsRbTree}

-- The state counts the free blocks.
abbrev counting : Rep ℕ
counting = record {
  can_consolidate = λ s a size. true;
  on_consolidate = λ a size s. s;
  on_split = λ a b size s. s;
  on_add = λ bits s. s + 1;
  on_remove = λ bits s. s - 1;
}

abbrev no_block : Entry RbTree
no_block = record { cache = 0 ∷ 0 ∷ 0 ∷ []; tree = leaf }

abbrev at_64 : Entry RbTree
at_64 = record { cache = 64 ∷ 0 ∷ 0 ∷ []; tree = leaf }

abbrev one_block : List (Entry RbTree)
one_block = at_64 ∷ no_block ∷ []

IsBlock-64 : IsBlock 6 4 64
unfolding IsBlock
IsBlock-64 = (refl, inr (omega arith), omega arith)

IsBlock-80 : IsBlock 6 4 80
unfolding IsBlock
IsBlock-80 = (refl, inr (omega arith), omega arith)

leaf-IsRbTree : IsRbTree leaf
unfolding IsRbTree IsBlackRooted in_order
leaf-IsRbTree = ((1, balanced_leaf, refl), all_nil)

one_block-IsBuddy : IsBuddy counting rb_tree rb_tree-TreeLaws 4 6 1 4 one_block
unfolding total covers sum in_order
one_block-IsBuddy = record {
  in_word = omega arith;
  reaches = refl;
  buckets =
      bucket leaf-IsRbTree
        (all_cons IsBlock-64 (all_cons (null-IsBlock 6 4) (all_cons (null-IsBlock 6 4) all_nil)))
        (λ h. absurd (omega arith))
        (bucket leaf-IsRbTree
          (all_cons (null-IsBlock 6 5)
            (all_cons (null-IsBlock 6 5) (all_cons (null-IsBlock 6 5) all_nil)))
          (λ h. all_cons refl (all_cons refl (all_cons refl all_nil))) no_buckets);
  apart = λ x. ground arith;
}

block_80_new :
    (x : ℕ) → free_at counting rb_tree rb_tree-TreeLaws 4 6 x 4 one_block + covers x 4 80 ≤ 1
unfolding total covers sum in_order
block_80_new x = ground arith

-- The buddies merge into a block of 32 bytes.
merged : (add_block counting rb_tree 4 1 80 4 one_block 1).entries ≡ no_block ∷ at_64 ∷ []
unfolding add_block remove_buddy take_buddy land put has replace buddy rep_align_down remove_min
merged = refl

-- Splitting it again gives the lower half and keeps the upper.
split_again :
    (remove_block counting rb_tree 4 2 4 (no_block ∷ at_64 ∷ []) 1).entries
    ≡ record { cache = 80 ∷ 0 ∷ 0 ∷ []; tree = leaf } ∷ no_block ∷ []
unfolding remove_block take_block split add_block remove_buddy take_buddy land put has replace
    exchange buddy offset rep_align_down remove_min find
split_again = refl

add_block-IsBuddy_example :
    let o = add_block counting rb_tree 4 1 80 4 one_block 1 in
    IsBuddy counting rb_tree rb_tree-TreeLaws 4 6 o.above 4 o.entries
    × (free_at counting rb_tree rb_tree-TreeLaws 4 6 90 4 o.entries + covers 90 6 o.block
        ≡ free_at counting rb_tree rb_tree-TreeLaws 4 6 90 4 one_block + covers 90 4 80)
add_block-IsBuddy_example =
    add_block-IsBuddy counting rb_tree rb_tree-TreeLaws 4 6 1 80 4 one_block 1 90 one_block-IsBuddy
      (λ h. absurd (omega arith)) IsBlock-80 block_80_new

remove_block-IsBuddy_example :
    let o = remove_block counting rb_tree 4 1 4 one_block 1 in
    IsBuddy counting rb_tree rb_tree-TreeLaws 4 6 o.above 4 o.entries
    × IsBlock 6 4 o.block
    × (free_at counting rb_tree rb_tree-TreeLaws 4 6 70 4 o.entries + covers 70 4 o.block
        ≡ free_at counting rb_tree rb_tree-TreeLaws 4 6 70 4 one_block)
remove_block-IsBuddy_example =
    remove_block-IsBuddy counting rb_tree rb_tree-TreeLaws 4 6 1 4 one_block 1 70 one_block-IsBuddy

remove_block-null_example :
    ((remove_block counting rb_tree 4 1 4 one_block 1).block ≡ null)
    ↔ (free_bytes counting rb_tree rb_tree-TreeLaws 4 6 4 one_block ≡ 0)
remove_block-null_example =
    remove_block-null counting rb_tree rb_tree-TreeLaws 4 6 1 4 one_block 1 one_block-IsBuddy
