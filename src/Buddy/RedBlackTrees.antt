-- ===== src/Buddy/RedBlackTrees.antt =====
-- The trees of src/snmalloc/backend_helpers/buddy.h are those of
-- src/snmalloc/ds_core/redblacktree.h, which meet what the allocator relies on.
use snmalloc.Base.{
  ℕ, ◌≡◌, ◌≢◌, ◌⊎◌, inl, inr, refl, sym, ap, ◌∙◌, Bool, true, false, not, Bool-cases,
}
use snmalloc.Base.{List, [], ◌∷◌, ◌++◌, All, all_nil, Pick, pick_here, pick_there, All-Pick}
use snmalloc.Buddy.{null, Tree}
use snmalloc.Buddy.Measure.{TreeLaws}
use snmalloc.Buddy.Slots.{All-put}
use snmalloc.RedBlack.{RbTree, leaf, node, is_null, find, insert_path, insert_elem, in_order}
use snmalloc.RedBlack.Balance.{insert_elem-IsBalanced}
use snmalloc.RedBlack.Contents.{before, after, in_order-insert_path}
use snmalloc.RedBlack.Removing.{remove_elem, remove_min}
use snmalloc.RedBlack.Fixing.{IsBlackRooted}
use snmalloc.RedBlack.Unlinking.{remove_elem-IsBalanced}
use snmalloc.RedBlack.Elements.{find_lem, remove_elem_lem, remove_min_lem}
use mathlib.Core.Bool.{true≢false}
use mathlib.Core.List.{append-nil}

-- The operations as the allocator calls them: a path from the root, a search, and the insertion or
-- the removal at the path's end.
abbrev pub rb_tree : Tree RbTree
rb_tree = record {
  contents = in_order;
  find = λ t a. not (is_null ((find a t []).0));
  insert = λ a t. insert_path a ((find a t []).1);
  remove = λ a t. (remove_elem a t).1;
  remove_min = remove_min;
}

-- A balanced tree with a black root, of addresses that are not null.
unfoldable pub IsRbTree : RbTree → Type 0
IsRbTree t = IsBlackRooted t × All (λ a. a ≢ null) (in_order t)

Pick-middle : (a : ℕ) (xs ys : List ℕ) → Pick a (xs ++ ys) (xs ++ a ∷ ys)
Pick-middle a [] ys = pick_here
Pick-middle a (x ∷ xs) ys = pick_there (Pick-middle a xs ys)

not_null : (b : Bool) → not b ≡ false → b ≡ true
not_null true e = refl
not_null false e = absurd (true≢false e)

is_some : (b : Bool) → not b ≡ true → b ≡ false
is_some true e = absurd (true≢false (sym e))
is_some false e = refl

null_empty : (t : RbTree) → is_null t ≡ true → in_order t ≡ []
unfolding in_order
null_empty leaf e = refl
null_empty (node red l k r) e = absurd (true≢false (sym e))

insert-Pick :
    (t : RbTree) (a : ℕ)
    → not (is_null ((find a t []).0)) ≡ false
    → Pick a (in_order t) (in_order (insert_path a ((find a t []).1)))
unfolding before after
insert-Pick t a absent =
    let kept = (find_lem a t []).0 in
    let gone = null_empty ((find a t []).0) (not_null _ absent) in
    let same : before ((find a t []).1) ++ after ((find a t []).1) ≡ in_order t =
      ap (λ (xs : List ℕ). before ((find a t []).1) ++ (xs ++ after ((find a t []).1))) (sym gone)
      ∙ kept
      ∙ append-nil (in_order t) in
    rw (in_order-insert_path a ((find a t []).1), ← same) (Pick-middle a _ _)

insert-IsRbTree :
    (t : RbTree) (a : ℕ)
    → IsRbTree t
    → a ≢ null
    → not (is_null ((find a t []).0)) ≡ false
    → IsRbTree (insert_path a ((find a t []).1))
unfolding IsRbTree insert_elem IsBlackRooted
insert-IsRbTree t a ((depth, ok, black), all) nonnull absent = (
  rw (not_null _ absent) at (insert_elem-IsBalanced a t depth ok black),
  All-put (insert-Pick t a absent) nonnull all,
)

remove-Pick :
    (t : RbTree) (a : ℕ)
    → IsRbTree t
    → not (is_null ((find a t []).0)) ≡ true
    → Pick a (in_order ((remove_elem a t).1)) (in_order t)
unfolding IsRbTree remove_elem IsBlackRooted
remove-Pick t a ((depth, ok, black), all) present = elim (remove_elem_lem a t depth ok black) [
  | inl absent ↦
      absurd (true≢false (ap (λ (r : Bool × RbTree). r.0) (rw (is_some _ present) at absent)))
  | inr (xs, ys, yes_, was, left) ↦ rw (was, left) (Pick-middle a xs ys)
]

remove-IsRbTree : (t : RbTree) (a : ℕ) → IsRbTree t → IsRbTree ((remove_elem a t).1)
unfolding IsRbTree IsBlackRooted
remove-IsRbTree t a ((depth, ok, black), all) = (
  (remove_elem-IsBalanced a t depth ok black).0,
  elim (remove_elem_lem a t depth ok black) [
    | inl absent ↦ rw absent all
    | inr (xs, ys, found, was, left) ↦ rw left ((All-Pick (Pick-middle a xs ys) (rw was at all)).1)
  ],
)

remove_min-Pick :
    (t : RbTree)
    → IsRbTree t
    → (in_order t ≡ [] × ((remove_min t).0 ≡ null) × (in_order ((remove_min t).1) ≡ []))
      ⊎ ((remove_min t).0 ≢ null
          × Pick ((remove_min t).0) (in_order ((remove_min t).1)) (in_order t))
unfolding IsRbTree IsBlackRooted remove_min
remove_min-Pick t ((depth, ok, black), all) = elim (Bool-cases (is_null t)) [
  | inl empty ↦ let none_in = null_empty t empty in inl (none_in, rw empty refl, rw empty none_in)
  | inr some_t ↦
      let first = remove_min_lem t depth ok black some_t in
      let p : Pick ((remove_min t).0) (in_order ((remove_min t).1)) (in_order t) =
        rw first pick_here in
      inr ((All-Pick p all).0, p)
]

remove_min-IsRbTree : (t : RbTree) → IsRbTree t → IsRbTree ((remove_min t).1)
unfolding IsRbTree IsBlackRooted
remove_min-IsRbTree t ((depth, ok, black), all) = (
  (remove_elem-IsBalanced 0 t depth ok black).1,
  elim (remove_min-Pick t ((depth, ok, black), all)) [
    | inl (was, out, left) ↦ rw left all_nil
    | inr (nonnull, p) ↦ (All-Pick p all).1
  ],
)

-- Balanced trees with a black root that hold no null meet everything that the buddy allocator
-- relies on: insertion of a value that is not found adds exactly it, removal of one that is found
-- takes exactly it out, `remove_min` takes out one of the values, and gives null only of the empty
-- tree; and each keeps the tree so.
pub rb_tree-TreeLaws : TreeLaws rb_tree IsRbTree
rb_tree-TreeLaws = record {
  insert-IsTree = insert-IsRbTree;
  remove-IsTree = remove-IsRbTree;
  remove_min-IsTree = remove_min-IsRbTree;
  insert-Pick = λ t a ok nonnull absent. insert-Pick t a absent;
  remove-Pick = λ t a ok nonnull present. remove-Pick t a ok present;
  remove_min-Pick = remove_min-Pick;
}
