-- ===== src/RedBlack/Unlinking.antt =====
-- src/snmalloc/ds_core/redblacktree.h: `remove_path` keeps the tree a red-black tree.
use snmalloc.Base.{
  ℕ, suc, ◌≡◌, refl, sym, ◌∙◌, inl, inr, Bool, true, false, ltb, ◌==◌, Bool-cases, List, [], ◌∷◌,
  ◌++◌,
}
use snmalloc.RedBlack.{RbTree, leaf, node, RbStep, is_red, get_dir, find, is_null}
use snmalloc.RedBlack.Balance.{
  IsBalanced, balanced_black, balanced_red, Fits, fits_root, fits_black, fits_red, plug-IsBalanced,
  BlackStep,
}
use snmalloc.RedBlack.Removing.{
  rightmost, splice, unlink, remove_path, remove_elem, leftmost, remove_min,
}
use snmalloc.RedBlack.Fixing.{IsBlackRooted, RootBlack, double_black-IsBalanced}
use mathlib.Core.Bool.{true≢false}

-- A node on a path: the tree is balanced, the path fits it, and a red node hangs from a black step.
pub record IsAt (t : RbTree) (path : List RbStep) : Type 0 where
  pub depth : ℕ
  pub balanced : IsBalanced t depth
  pub fits : Fits path depth
  pub hangs : is_red t ≡ true → BlackStep path

-- The steps to the two children.
move_left :
    (red : Bool) (l : RbTree) (k : ℕ) (r : RbTree) (path : List RbStep) (depth : ℕ)
    → IsBalanced (node red l k r) depth
    → Fits path depth
    → (is_red (node red l k r) ≡ true → BlackStep path)
    → IsAt l (record { dir = true; red = red; value = k; other = r } ∷ path)
unfolding BlackStep
move_left false l k r path depth (balanced_black l_ok r_ok) fits hangs = record {
  depth = _;
  balanced = l_ok;
  fits = fits_black r_ok fits;
  hangs = λ red. refl;
}
move_left true l k r [] depth (balanced_red l_ok l_b r_ok r_b) fits hangs =
    absurd (true≢false (hangs refl))
move_left true l k r (s ∷ path) depth (balanced_red l_ok l_b r_ok r_b) (fits_red a b c d) hangs =
    absurd (true≢false (hangs refl))
move_left true l k r (s ∷ path) depth (balanced_red l_ok l_b r_ok r_b) (fits_black up fits) hangs =
    record {
      depth = depth;
      balanced = l_ok;
      fits = fits_red r_ok r_b up fits;
      hangs = λ red. absurd (true≢false (sym red ∙ l_b));
    }

move_right :
    (red : Bool) (l : RbTree) (k : ℕ) (r : RbTree) (path : List RbStep) (depth : ℕ)
    → IsBalanced (node red l k r) depth
    → Fits path depth
    → (is_red (node red l k r) ≡ true → BlackStep path)
    → IsAt r (record { dir = false; red = red; value = k; other = l } ∷ path)
unfolding BlackStep
move_right false l k r path depth (balanced_black l_ok r_ok) fits hangs = record {
  depth = _;
  balanced = r_ok;
  fits = fits_black l_ok fits;
  hangs = λ red. refl;
}
move_right true l k r [] depth (balanced_red l_ok l_b r_ok r_b) fits hangs =
    absurd (true≢false (hangs refl))
move_right true l k r (s ∷ path) depth (balanced_red l_ok l_b r_ok r_b) (fits_red a b c d) hangs =
    absurd (true≢false (hangs refl))
move_right true l k r (s ∷ path) depth (balanced_red l_ok l_b r_ok r_b) (fits_black up fits) hangs =
    record {
      depth = depth;
      balanced = r_ok;
      fits = fits_red l_ok l_b up fits;
      hangs = λ red. absurd (true≢false (sym red ∙ r_b));
    }

-- Without a right child.
IsLast : RbTree → Type 0
IsLast leaf = true ≡ false
IsLast (node red l k r) = is_null r ≡ true

record IsEnd (path : List RbStep) (e : RbTree × List RbStep) : Type 0 where
  at_end : IsAt (e.0) (e.1 ++ path)
  last : IsLast (e.0)
  left_black : RootBlack (e.1) (get_dir true (e.0))

rightmost-IsEnd :
    (t : RbTree) (steps path : List RbStep)
    → is_null t ≡ false
    → IsAt t (steps ++ path)
    → RootBlack steps (get_dir true t)
    → IsEnd path (rightmost t steps)
unfolding rightmost IsLast RootBlack
rightmost-IsEnd leaf steps path some_t at left = absurd (true≢false some_t)
rightmost-IsEnd (node red l k r) steps path some_t at left = elim (Bool-cases (is_null r)) [
  | inl end ↦ rw end (record { at_end = at; last = end; left_black = left })
  | inr more ↦ rw more (
      rightmost-IsEnd r (record { dir = false; red = red; value = k; other = l } ∷ steps) path more
        (move_right red l k r (steps ++ path) at.depth at.balanced at.fits at.hangs) tt)
]

-- A path fits whatever the values in its steps.
splice-Fits :
    (v : ℕ) (steps path : List RbStep) (depth : ℕ)
    → Fits (steps ++ path) depth
    → Fits (splice v steps path) depth
unfolding splice
splice-Fits v [] path depth fits = fits
splice-Fits v (s ∷ []) path depth (fits_black other fits) = fits_black other fits
splice-Fits v (s ∷ []) (s2 ∷ path) depth (fits_red other other_b up fits) =
    fits_red other other_b up fits
splice-Fits v (s ∷ s2 ∷ steps) path depth (fits_black other fits) =
    fits_black other (splice-Fits v (s2 ∷ steps) path (suc depth) fits)
splice-Fits v (s ∷ s2 ∷ []) path depth (fits_red other other_b up fits) =
    fits_red other other_b up fits
splice-Fits v (s ∷ s2 ∷ s3 ∷ steps) path depth (fits_red other other_b up fits) =
    fits_red other other_b up (splice-Fits v (s3 ∷ steps) path (suc depth) fits)

splice-RootBlack :
    (v : ℕ) (steps path : List RbStep) (c : RbTree)
    → RootBlack steps c
    → RootBlack (splice v steps path) c
unfolding splice RootBlack
splice-RootBlack v [] [] c black = black
splice-RootBlack v [] (s ∷ path) c black = tt
splice-RootBlack v (s ∷ []) path c black = tt
splice-RootBlack v (s ∷ s2 ∷ steps) path c black = tt

unlink-IsBlackRooted :
    (curr : RbTree) (steps path : List RbStep) (depth : ℕ)
    → IsBalanced curr depth
    → Fits (steps ++ path) depth
    → IsLast curr
    → RootBlack steps (get_dir true curr)
    → IsBlackRooted (unlink (curr, steps) path)
unfolding unlink IsLast IsBlackRooted
unlink-IsBlackRooted leaf steps path depth ok fits last left = absurd (true≢false last)
unlink-IsBlackRooted (node true l k r) steps path depth (balanced_red l_ok l_b r_ok r_b) fits last
      left =
    plug-IsBalanced (splice k steps path) l depth l_ok l_b (splice-Fits k steps path depth fits)
unlink-IsBlackRooted (node false l k r) steps path depth (balanced_black l_ok r_ok) fits last left =
    double_black-IsBalanced (splice k steps path) l _ l_ok (splice-Fits k steps path _ fits)
      (splice-RootBlack k steps path l left)

null_black : (t : RbTree) → is_null t ≡ true → is_red t ≡ false
null_black leaf e = refl
null_black (node red l k r) e = absurd (true≢false (sym e))

end_unlinked :
    (e : RbTree × List RbStep) (path : List RbStep) → IsEnd path e → IsBlackRooted (unlink e path)
end_unlinked (curr, steps) path end =
    unlink-IsBlackRooted curr steps path end.at_end.depth end.at_end.balanced end.at_end.fits
      end.last end.left_black

remove_path-IsBlackRooted :
    (t : RbTree) (path : List RbStep)
    → is_null t ≡ false
    → IsAt t path
    → IsBlackRooted (remove_path t path)
unfolding remove_path RootBlack
remove_path-IsBlackRooted leaf path some_t at = absurd (true≢false some_t)
remove_path-IsBlackRooted (node red l k r) path some_t at = elim (Bool-cases (is_null l)) [
  | inl none_l ↦
      rw none_l (
        end_unlinked _ path
          (rightmost-IsEnd (node red l k r) [] path refl at (null_black l none_l)))
  | inr some_l ↦ rw some_l (
      end_unlinked _ path (
        rightmost-IsEnd l (record { dir = true; red = red; value = k; other = r } ∷ []) path some_l
          (move_left red l k r path at.depth at.balanced at.fits at.hangs) tt))
]

pub find-IsAt :
    (v : ℕ) (t : RbTree) (path : List RbStep)
    → IsAt t path
    → IsAt ((find v t path).0) ((find v t path).1)
unfolding find
find-IsAt v leaf path at = at
find-IsAt v (node red l k r) path at = elim (Bool-cases (k == v)) [
  | inl same ↦ rw same at
  | inr other ↦ elim (Bool-cases (ltb v k)) [
    | inl less ↦
        rw (other, less)
          (find-IsAt v l _ (move_left red l k r path at.depth at.balanced at.fits at.hangs))
    | inr more ↦
        rw (other, more)
          (find-IsAt v r _ (move_right red l k r path at.depth at.balanced at.fits at.hangs))
  ]
]

pub leftmost-IsAt :
    (t : RbTree) (path : List RbStep)
    → is_null t ≡ false
    → IsAt t path
    → IsAt ((leftmost t path).0) ((leftmost t path).1) × (is_null ((leftmost t path).0) ≡ false)
unfolding leftmost
leftmost-IsAt leaf path some_t at = absurd (true≢false some_t)
leftmost-IsAt (node red l k r) path some_t at = elim (Bool-cases (is_null l)) [
  | inl end ↦ rw end (at, refl)
  | inr more ↦
      rw more
        (leftmost-IsAt l _ more (move_left red l k r path at.depth at.balanced at.fits at.hangs))
]

pub IsAt-root : (t : RbTree) (depth : ℕ) → IsBalanced t depth → is_red t ≡ false → IsAt t []
IsAt-root t depth ok black = record {
  depth = depth;
  balanced = ok;
  fits = fits_root;
  hangs = λ red. absurd (true≢false (sym red ∙ black));
}

-- Of a tree with a black root, in which no red node has a red child and every way down from the
-- root passes the same number of black nodes, the tree that `remove_elem` leaves is such a tree
-- again, and so is the one that `remove_min` leaves.
pub remove_elem-IsBalanced :
    (v : ℕ) (t : RbTree) (depth : ℕ)
    → IsBalanced t depth
    → is_red t ≡ false
    → IsBlackRooted ((remove_elem v t).1) × IsBlackRooted ((remove_min t).1)
unfolding remove_elem remove_min IsBlackRooted
remove_elem-IsBalanced v t depth ok black = (
  elim (Bool-cases (is_null ((find v t []).0))) [
    | inl absent ↦ rw absent (depth, ok, black)
    | inr present ↦ rw present (
        remove_path-IsBlackRooted ((find v t []).0) ((find v t []).1) present
          (find-IsAt v t [] (IsAt-root t depth ok black)))
  ],
  elim (Bool-cases (is_null t)) [
    | inl empty ↦ rw empty (depth, ok, black)
    | inr some_t ↦
        let least = leftmost-IsAt t [] some_t (IsAt-root t depth ok black) in
        rw some_t
          (remove_path-IsBlackRooted ((leftmost t []).0) ((leftmost t []).1) least.1 least.0)
  ],
)
