-- ===== src/RedBlack/Elements.antt =====
-- src/snmalloc/ds_core/redblacktree.h: `remove_elem` and `remove_min` take out one value.
use snmalloc.Base.{
  ℕ, ◌≡◌, refl, sym, ◌∙◌, ap, ◌⊎◌, inl, inr, Bool, true, false, ltb, ◌==◌, ==_iff, Bool-cases, List,
  [], ◌∷◌, ◌++◌,
}
use snmalloc.RedBlack.{RbTree, leaf, node, RbStep, is_red, find, is_null, in_order}
use snmalloc.RedBlack.Balance.{IsBalanced}
use snmalloc.RedBlack.Contents.{before, after}
use snmalloc.RedBlack.Removing.{value_of, remove_path, remove_elem, leftmost, remove_min}
use snmalloc.RedBlack.Unlinking.{IsAt, find-IsAt, leftmost-IsAt, IsAt-root}
use snmalloc.RedBlack.Values.{in_order-remove_path}
use mathlib.Core.Bool.{true≢false}
use mathlib.Core.List.{append_assoc, append-nil}

-- A search leaves the values where they are, and ends at the value or at null.
pub find_lem :
    (v : ℕ) (t : RbTree) (path : List RbStep)
    → (before ((find v t path).1) ++ (in_order ((find v t path).0) ++ after ((find v t path).1))
        ≡ before path ++ (in_order t ++ after path))
      × ((is_null ((find v t path).0) ≡ true) ⊎ (value_of ((find v t path).0) ≡ v))
unfolding find in_order before after
find_lem v leaf path = (refl, inl refl)
find_lem v (node red l k r) path = elim (Bool-cases (k == v)) [
  | inl same ↦ rw same (refl, inr ((==_iff k v).0 same))
  | inr other ↦ elim (Bool-cases (ltb v k)) [
    | inl less ↦
        let rest = find_lem v l (record { dir = true; red = red; value = k; other = r } ∷ path) in
        rw (other, less) (rest.0 ∙ simp append_assoc refl, rest.1)
    | inr more ↦
        let rest = find_lem v r (record { dir = false; red = red; value = k; other = l } ∷ path) in
        rw (other, more) (rest.0 ∙ simp append_assoc refl, rest.1)
  ]
]

-- Removing the node at a path's end.
removed_at :
    (c : RbTree) (path : List RbStep) (v : ℕ)
    → is_null c ≡ false
    → value_of c ≡ v
    → IsAt c path
    → (xs : List ℕ) × (ys : List ℕ) × (before path ++ (in_order c ++ after path) ≡ xs ++ v ∷ ys)
      × (in_order (remove_path c path) ≡ xs ++ ys)
unfolding in_order
removed_at leaf path v some_c same at = absurd (true≢false some_c)
removed_at (node red l k r) path v some_c same at = (
  before path ++ in_order l,
  in_order r ++ after path,
  rw (← same) (simp append_assoc refl),
  in_order-remove_path red l k r path at.depth at.balanced ∙ simp append_assoc refl,
)

-- Of a balanced tree with a black root: either the search of `remove_elem` does not find the value
-- and the tree stays, or the value is one of the tree's and exactly it is taken from among them,
-- the others keeping their order.
pub remove_elem_lem :
    (v : ℕ) (t : RbTree) (depth : ℕ)
    → IsBalanced t depth
    → is_red t ≡ false
    → (remove_elem v t ≡ (false, t))
      ⊎ ((xs : List ℕ) × (ys : List ℕ) × ((remove_elem v t).0 ≡ true)
          × (in_order t ≡ xs ++ v ∷ ys)
          × (in_order ((remove_elem v t).1) ≡ xs ++ ys))
unfolding remove_elem before after
remove_elem_lem v t depth ok black = elim (Bool-cases (is_null ((find v t []).0))) [
  | inl absent ↦ inl (rw absent refl)
  | inr present ↦
      let kept = find_lem v t [] in
      let found : value_of ((find v t []).0) ≡ v = elim kept.1 [
        | inl none_found ↦ absurd (true≢false (sym none_found ∙ present))
        | inr e ↦ e
      ] in
      let (xs, ys, was, left) =
        removed_at ((find v t []).0) ((find v t []).1) v present found
          (find-IsAt v t [] (IsAt-root t depth ok black)) in
      inr
        (xs, ys, rw present refl, sym (append-nil (in_order t)) ∙ sym kept.0 ∙ was, rw present left)
]

-- The leftmost node has no left child, and nothing but the path stands before it.
leftmost_first :
    (t : RbTree) (path : List RbStep)
    → is_null t ≡ false
    → (before ((leftmost t path).1) ≡ before path)
      × (before ((leftmost t path).1)
            ++ (in_order ((leftmost t path).0) ++ after ((leftmost t path).1))
          ≡ before path ++ (in_order t ++ after path))
      × ((red : Bool) × (r : RbTree) × ((leftmost t path).0
            ≡ node red leaf (value_of ((leftmost t path).0)) r))
unfolding leftmost in_order before after
leftmost_first leaf path some_t = absurd (true≢false some_t)
leftmost_first (node red leaf k r) path some_t = (refl, refl, (red, r, refl))
leftmost_first (node red (node red2 l2 k2 r2) k r) path some_t =
    let rest =
      leftmost_first (node red2 l2 k2 r2)
        (record { dir = true; red = red; value = k; other = r } ∷ path) refl in
    (rest.0, rest.1 ∙ simp append_assoc refl, rest.2)

first_removed :
    (c : RbTree) (path : List RbStep) (red : Bool) (r : RbTree) (k : ℕ)
    → c ≡ node red leaf k r
    → before path ≡ []
    → IsAt c path
    → before path ++ (in_order c ++ after path) ≡ k ∷ in_order (remove_path c path)
unfolding in_order
first_removed c path red r k e none_before at =
    let at_node : IsAt (node red leaf k r) path = rw e at at in
    let left = in_order-remove_path red leaf k r path at_node.depth at_node.balanced in
    rw e (
      ap (λ (xs : List ℕ). xs ++ k ∷ (in_order r ++ after path)) none_before
      ∙ ap (λ (xs : List ℕ). k ∷ xs)
          (sym (left ∙ ap (λ (xs : List ℕ). xs ++ (in_order r ++ after path)) none_before)))

-- Of a balanced tree with a black root that is not empty, `remove_min` returns the first value from
-- the left, and leaves the others in their order.
pub remove_min_lem :
    (t : RbTree) (depth : ℕ)
    → IsBalanced t depth
    → is_red t ≡ false
    → is_null t ≡ false
    → in_order t ≡ (remove_min t).0 ∷ in_order ((remove_min t).1)
unfolding remove_min before after
remove_min_lem t depth ok black some_t =
    let (same, kept, (red, r, shape)) = leftmost_first t [] some_t in
    let at = leftmost-IsAt t [] some_t (IsAt-root t depth ok black) in
    rw some_t (
      sym (append-nil (in_order t))
      ∙ sym kept
      ∙ first_removed ((leftmost t []).0) ((leftmost t []).1) red r (value_of ((leftmost t []).0))
          shape same at.0)
