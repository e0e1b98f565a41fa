-- ===== src/RedBlack/Tests.antt =====
-- Insertions into the tree of src/snmalloc/ds_core/redblacktree.h.
use snmalloc.Base.{
  ℕ, ◌<◌, ◌≡◌, ◌⊎◌, refl, arith, true, false, List, ◌∷◌, ◌++◌, All, all_nil, all_cons,
}
use snmalloc.RedBlack.{
  RbTree, leaf, node, is_red, plug, find, double_red, rebalance, insert_path, insert_elem, in_order,
}
use snmalloc.RedBlack.Balance.{
  IsBalanced, balanced_leaf, balanced_black, balanced_red, insert_elem-IsBalanced,
}
use snmalloc.RedBlack.Contents.{IsOrdered, insert_elem_lem}
use snmalloc.RedBlack.Removing.{remove_elem, remove_path, unlink, rightmost, splice, remove_min}
use snmalloc.RedBlack.Fixing.{IsBlackRooted}
use snmalloc.RedBlack.Unlinking.{remove_elem-IsBalanced}

-- Two values; a third one below both turns the root.
abbrev two_values : RbTree
two_values = node false (node true leaf 3 leaf) 5 leaf

turned :
    (insert_elem 1 two_values).1 ≡ node false (node false leaf 1 leaf) 3 (node false leaf 5 leaf)
unfolding insert_elem insert_path rebalance double_red find plug
turned = refl

two_values-IsBalanced : IsBalanced two_values 2
two_values-IsBalanced =
    balanced_black (balanced_red balanced_leaf refl balanced_leaf refl) balanced_leaf

two_values-IsOrdered : IsOrdered two_values
unfolding IsOrdered in_order
two_values-IsOrdered = (all_cons (omega arith) all_nil, all_nil, (all_nil, all_nil, tt, tt), tt)

insert_elem-IsBalanced_example :
    (whole : ℕ) × IsBalanced ((insert_elem 1 two_values).1) whole
    × (is_red ((insert_elem 1 two_values).1) ≡ false)
insert_elem-IsBalanced_example = insert_elem-IsBalanced 1 two_values 2 two_values-IsBalanced refl

insert_elem_lem_example :
    (insert_elem 4 two_values ≡ (false, two_values))
    ⊎ ((xs : List ℕ) × (ys : List ℕ) × ((insert_elem 4 two_values).0 ≡ true)
        × (in_order two_values ≡ xs ++ ys)
        × (in_order ((insert_elem 4 two_values).1) ≡ xs ++ 4 ∷ ys)
        × All (λ a. a < 4) xs
        × All (λ a. 4 < a) ys)
insert_elem_lem_example = insert_elem_lem 4 two_values two_values-IsOrdered

-- Removing the root puts the value before it in its place.
root_removed : (remove_elem 5 two_values).1 ≡ node false leaf 3 leaf
unfolding remove_elem remove_path unlink rightmost splice find plug
root_removed = refl

remove_elem-IsBalanced_example :
    IsBlackRooted ((remove_elem 3 two_values).1) × IsBlackRooted ((remove_min two_values).1)
remove_elem-IsBalanced_example = remove_elem-IsBalanced 3 two_values 2 two_values-IsBalanced refl
