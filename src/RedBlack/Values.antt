-- ===== src/RedBlack/Values.antt =====
-- src/snmalloc/ds_core/redblacktree.h: the values that removal leaves.
use snmalloc.Base.{
  ℕ, ◌≤◌, ◌⊎◌, arith, ◌≡◌, refl, ◌∙◌, ap, inl, inr, Bool, true, false, Bool-cases, List, [], ◌∷◌,
  ◌++◌,
}
use snmalloc.RedBlack.{RbTree, leaf, node, RbStep, is_red, get_dir, is_null, in_order}
use snmalloc.RedBlack.Balance.{IsBalanced, balanced_leaf, balanced_black, balanced_red}
use snmalloc.RedBlack.Contents.{before, after, in_order-plug}
use snmalloc.RedBlack.Removing.{value_of, rightmost, splice, unlink, remove_path}
use snmalloc.RedBlack.Fixing.{depth_positive}
use snmalloc.RedBlack.Remaining.{in_order-double_black}
use mathlib.Core.Bool.{true≢false}
use mathlib.Core.List.{append_assoc}

-- A path's values with those of a tree at its end.
abbrev around : List RbStep → List ℕ → List ℕ
around path xs = before path ++ (xs ++ after path)

in_order-unlink :
    (curr : RbTree) (steps path : List RbStep)
    → in_order (unlink (curr, steps) path)
      ≡ around (splice (value_of curr) steps path) (in_order (get_dir true curr))
unfolding unlink
in_order-unlink curr steps path = elim (Bool-cases (is_red curr)) [
  | inl red ↦ rw red (in_order-plug (get_dir true curr) (splice (value_of curr) steps path))
  | inr black ↦ rw black (
      in_order-double_black (splice (value_of curr) steps path) (get_dir true curr)
      ∙ in_order-plug (get_dir true curr) (splice (value_of curr) steps path))
]

-- The rightmost node has the last value; without it the others stay in their order.
rightmost_last :
    (t : RbTree) (s : RbStep) (steps path : List RbStep) (v : ℕ)
    → is_null t ≡ false
    → (front : List ℕ) × (in_order t ≡ front ++ value_of ((rightmost t (s ∷ steps)).0) ∷ [])
      × (around
            (splice v ((rightmost t (s ∷ steps)).1) path)
            (in_order (get_dir true ((rightmost t (s ∷ steps)).0)))
          ≡ around (splice v (s ∷ steps) path) front)
unfolding rightmost splice in_order before after
rightmost_last leaf s steps path v some_t = absurd (true≢false some_t)
rightmost_last (node red l k leaf) s steps path v some_t = (in_order l, refl, refl)
rightmost_last (node red l k (node red2 l2 k2 r2)) s steps path v some_t =
    let (front, last, rest) =
      rightmost_last (node red2 l2 k2 r2) (record { dir = false; red = red; value = k; other = l })
        (s ∷ steps) path v refl in
    (
      in_order l ++ k ∷ front,
      ap (λ (t : List ℕ). in_order l ++ k ∷ t) last ∙ simp append_assoc refl,
      rest ∙ simp append_assoc refl,
    )

thin : (t : RbTree) (depth : ℕ) → IsBalanced t depth → depth ≤ 1 → is_red t ≡ false → t ≡ leaf
thin leaf depth ok low black = refl
thin (node true l v r) depth ok low black = absurd (true≢false black)
thin (node false l v r) depth (balanced_black {depth = d} l_ok r_ok) low black =
    absurd (omega (arith, depth_positive l d l_ok))

-- Without a left child a balanced node has at most a red leaf to its right.
right_only :
    (red : Bool) (k : ℕ) (r : RbTree) (depth : ℕ)
    → IsBalanced (node red leaf k r) depth
    → (r ≡ leaf) ⊎ ((w : ℕ) × (r ≡ node true leaf w leaf))
right_only false k leaf depth ok = inl refl
right_only false k (node false l w r) depth (balanced_black balanced_leaf r_ok) =
    inl (thin (node false l w r) 1 r_ok (omega arith) refl)
right_only false k (node true l w r) depth
      (balanced_black balanced_leaf (balanced_red l_ok l_b r_ok r_b)) =
    inr (w, rw (thin l 1 l_ok (omega arith) l_b, thin r 1 r_ok (omega arith) r_b) refl)
right_only true k r depth (balanced_red balanced_leaf l_b r_ok r_b) =
    inl (thin r 1 r_ok (omega arith) r_b)

join_last :
    (path : List RbStep) (xs front ys : List ℕ) (v : ℕ)
    → xs ≡ front ++ v ∷ []
    → before path ++ (front ++ v ∷ (ys ++ after path)) ≡ before path ++ ((xs ++ ys) ++ after path)
join_last path xs front ys v e = rw e (simp append_assoc refl)

in_order-no_left :
    (red : Bool) (k : ℕ) (r : RbTree) (path : List RbStep)
    → (r ≡ leaf) ⊎ ((w : ℕ) × (r ≡ node true leaf w leaf))
    → in_order (remove_path (node red leaf k r) path) ≡ before path ++ (in_order r ++ after path)
unfolding remove_path rightmost in_order before after splice
in_order-no_left red k r path (inl e) = rw e (in_order-unlink (node red leaf k leaf) [] path)
in_order-no_left red k r path (inr (w, e)) = rw e (
    in_order-unlink (node true leaf w leaf)
      (record { dir = false; red = red; value = k; other = leaf } ∷ []) path
    ∙ simp append_assoc refl)

-- Of a balanced node, the values of its two children are left in its place.
pub in_order-remove_path :
    (red : Bool) (l : RbTree) (k : ℕ) (r : RbTree) (path : List RbStep) (depth : ℕ)
    → IsBalanced (node red l k r) depth
    → in_order (remove_path (node red l k r) path)
      ≡ before path ++ ((in_order l ++ in_order r) ++ after path)
unfolding remove_path in_order before after splice
in_order-remove_path red (node red2 l2 k2 r2) k r path depth ok =
    let s : RbStep = record { dir = true; red = red; value = k; other = r } in
    let e : RbTree × List RbStep = rightmost (node red2 l2 k2 r2) (s ∷ []) in
    let (front, last, rest) = rightmost_last (node red2 l2 k2 r2) s [] path (value_of (e.0)) refl in
    in_order-unlink (e.0) (e.1) path
    ∙ rest
    ∙ join_last path (in_order (node red2 l2 k2 r2)) front (in_order r) (value_of (e.0)) last
in_order-remove_path red leaf k r path depth ok =
    in_order-no_left red k r path (right_only red k r depth ok)
