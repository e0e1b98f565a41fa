-- ===== src/RedBlack/Removing.antt =====
-- src/snmalloc/ds_core/redblacktree.h: `remove_path` and what calls it.
use snmalloc.Base.{ℕ, Bool, true, false, not, if◌then◌else◌, List, [], ◌∷◌}
use snmalloc.RedBlack.{
  RbTree, leaf, node, RbStep, below, plug, is_red, set_red, get_dir, find, is_null,
}

-- The value of a node; null is 0.
abbrev pub value_of : RbTree → ℕ
value_of leaf = 0
value_of (node red l value r) = value

-- The rotations that end the loop, and the step to the parent that does not: whether the loop
-- ends, and what replaces the parent. The sibling is black.
unfoldable pub settle : RbTree → RbStep → Bool × RbTree
settle c parent =
    let dir = parent.dir in
    let sibling = parent.other in
    let near = get_dir dir sibling in
    let far = get_dir (not dir) sibling in
    if is_red far
    then (
      true,
      below dir parent.red (value_of sibling) (below dir false parent.value c near)
          (set_red false far),
    )
    else if is_red near
    then (
      true,
      below dir parent.red (value_of near) (below dir false parent.value c (get_dir dir near))
          (below dir (is_red sibling) (value_of sibling) (get_dir (not dir) near) far),
    )
    else if parent.red
    then (true, below dir false parent.value c (set_red true sibling))
    else (false, below dir false parent.value c (set_red true sibling))

-- The loop of `remove_path`: under the path's end one black node is missing. After the rotation
-- of a red sibling the parent is red, so that the next round is the last.
unfoldable pub double_black : RbTree → List RbStep → RbTree
double_black c [] = c
double_black c (parent ∷ path) =
    let sibling = parent.other in
    let turned : RbStep = record {
      dir = parent.dir;
      red = true;
      value = parent.value;
      other = get_dir parent.dir sibling;
    } in
    let above : RbStep = record {
      dir = parent.dir;
      red = false;
      value = value_of sibling;
      other = get_dir (not parent.dir) sibling;
    } in
    let settled = settle c parent in
    let up = double_black settled.1 path in
    if is_red sibling
    then plug ((settle c turned).1) (above ∷ path)
    else if settled.0
    then plug settled.1 path
    else up

-- `while (path.move(false))`.
unfoldable pub rightmost : RbTree → List RbStep → RbTree × List RbStep
rightmost leaf path = (leaf, path)
rightmost (node red l k r) path =
    let further = rightmost r (record { dir = false; red = red; value = k; other = l } ∷ path) in
    if is_null r then (node red l k r, path) else further

-- The steps from the node removed, down to the one that replaces it, with that one's value put in
-- the node's place.
unfoldable pub splice : ℕ → List RbStep → List RbStep → List RbStep
splice v [] path = path
splice v (s ∷ []) path = record s { value = v } ∷ path
splice v (s ∷ s2 ∷ steps) path = s ∷ splice v (s2 ∷ steps) path

-- Taking out the node at the end of the steps, which has no right child.
unfoldable pub unlink : RbTree × List RbStep → List RbStep → RbTree
unlink (curr, steps) path =
    let child = get_dir true curr in
    let whole = splice (value_of curr) steps path in
    if is_red curr then plug child whole else double_black child whole

-- The node to remove is at the end of the path: its left child's rightmost descendant replaces it,
-- or, without a left child, its right one's.
unfoldable pub remove_path : RbTree → List RbStep → RbTree
remove_path leaf path = plug leaf path
remove_path (node red l k r) path =
    if is_null l
    then unlink (rightmost (node red l k r) []) path
    else unlink (rightmost l (record { dir = true; red = red; value = k; other = r } ∷ [])) path

unfoldable pub remove_elem : ℕ → RbTree → Bool × RbTree
remove_elem v t =
    let found = find v t [] in
    if is_null found.0 then (false, t) else (true, remove_path (found.0) (found.1))

-- `while (path.move(true))`.
unfoldable pub leftmost : RbTree → List RbStep → RbTree × List RbStep
leftmost leaf path = (leaf, path)
leftmost (node red l k r) path =
    let further = leftmost l (record { dir = true; red = red; value = k; other = r } ∷ path) in
    if is_null l then (node red l k r, path) else further

unfoldable pub remove_min : RbTree → ℕ × RbTree
remove_min t =
    let least = leftmost t [] in
    if is_null t then (0, t) else (value_of (least.0), remove_path (least.0) (least.1))
