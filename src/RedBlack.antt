-- ===== src/RedBlack.antt =====
-- src/snmalloc/ds_core/redblacktree.h: `RBTree`, its search and its insertion. A tree of nodes that
-- refer to each other by `Rep` is a value; the direction `true` is to the left, where the smaller
-- values are. `RBPath` is the tree at its current end with the steps above it, the last one first,
-- each with what hangs on its other side; giving a new value to one of the path's references is
-- building the nodes anew, and the path is closed when the loop returns.
pub mod Balance
pub mod Contents
pub mod Removing
pub mod Fixing
pub mod Unlinking
pub mod Remaining
pub mod Values
pub mod Elements
mod Tests
use snmalloc.Base.{ℕ, Bool, true, false, ltb, ◌==◌, if◌then◌else◌, not, List, [], ◌∷◌, ◌++◌}

pub data RbTree : Type 0 where
  leaf : RbTree
  node : Bool → RbTree → ℕ → RbTree → RbTree

-- A step of a path: the direction taken, and the node it leaves with its other child.
pub record RbStep : Type 0 where
  pub dir : Bool
  pub red : Bool
  pub value : ℕ
  pub other : RbTree

-- The node of a step over a child in the step's direction.
abbrev pub below : Bool → Bool → ℕ → RbTree → RbTree → RbTree
below true red value child other = node red child value other
below false red value child other = node red other value child

unfoldable pub plug : RbTree → List RbStep → RbTree
plug t [] = t
plug t (s ∷ path) = plug (below s.dir s.red s.value t s.other) path

abbrev pub is_red : RbTree → Bool
is_red leaf = false
is_red (node red l value r) = red

-- Does nothing to null.
abbrev pub set_red : Bool → RbTree → RbTree
set_red red leaf = leaf
set_red red (node was l value r) = node red l value r

-- The child in a direction.
abbrev pub get_dir : Bool → RbTree → RbTree
get_dir dir leaf = leaf
get_dir true (node red l value r) = l
get_dir false (node red l value r) = r

-- `find` from a path on: the path's end is null when the value is not there.
unfoldable pub find : ℕ → RbTree → List RbStep → RbTree × List RbStep
find v leaf path = (leaf, path)
find v (node red l k r) path =
    let left = find v l (record { dir = true; red = red; value = k; other = r } ∷ path) in
    let right = find v r (record { dir = false; red = red; value = k; other = l } ∷ path) in
    if k == v then (node red l k r, path) else if ltb v k then left else right

abbrev pub same_dir : Bool → Bool → Bool
same_dir true b = b
same_dir false b = not b

-- A red node under a red parent: what replaces the grand parent.
unfoldable pub double_red : RbTree → RbStep → RbStep → RbTree
double_red leaf parent grand_parent = leaf
double_red (node red l value r) parent grand_parent =
    let dir = parent.dir in
    let curr = node red l value r in
    if same_dir grand_parent.dir dir
    then below dir parent.red parent.value (set_red false curr)
        (below dir grand_parent.red grand_parent.value parent.other grand_parent.other)
    else below dir red value
        (below (not dir) grand_parent.red grand_parent.value (get_dir dir curr) grand_parent.other)
        (below dir false parent.value (get_dir (not dir) curr) parent.other)

-- The loop of `insert_path`. The root is black, so a parent that is the root ends it.
unfoldable pub rebalance : RbTree → List RbStep → RbTree
rebalance t [] = set_red false t
rebalance t (parent ∷ []) = plug t (parent ∷ [])
rebalance t (parent ∷ grand_parent ∷ path) =
    let up = rebalance (double_red t parent grand_parent) path in
    if parent.red then up else plug t (parent ∷ grand_parent ∷ path)

unfoldable pub insert_path : ℕ → List RbStep → RbTree
insert_path v path = rebalance (node true leaf v leaf) path

abbrev pub is_null : RbTree → Bool
is_null leaf = true
is_null (node red l value r) = false

-- Whether the value was inserted, and the tree.
unfoldable pub insert_elem : ℕ → RbTree → Bool × RbTree
insert_elem v t =
    let found = find v t [] in
    if is_null found.0 then (true, insert_path v (found.1)) else (false, t)

-- The values from the left to the right.
unfoldable pub in_order : RbTree → List ℕ
in_order leaf = []
in_order (node red l value r) = in_order l ++ value ∷ in_order r
