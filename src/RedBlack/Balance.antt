-- ===== src/RedBlack/Balance.antt =====
-- src/snmalloc/ds_core/redblacktree.h: insertion keeps the tree a red-black tree.
use snmalloc.Base.{
  ℕ, suc, ◌≡◌, refl, sym, ◌∙◌, Bool, true, false, not, ltb, ◌==◌, Bool-cases, inl, inr, List, [],
  ◌∷◌,
}
use snmalloc.RedBlack.{
  RbTree, leaf, node, RbStep, below, plug, is_red, set_red, get_dir, find, same_dir, double_red,
  rebalance, insert_path, insert_elem, is_null,
}
use mathlib.Core.Bool.{true≢false}

-- No red node has a red child, and every way down has `depth` black nodes.
pub data IsBalanced : RbTree → ℕ → Type 0 where
  balanced_leaf : IsBalanced leaf 1
  balanced_black :
      {l r : RbTree} {v depth : ℕ}
      → IsBalanced l depth
      → IsBalanced r depth
      → IsBalanced (node false l v r) (suc depth)
  balanced_red :
      {l r : RbTree} {v depth : ℕ}
      → IsBalanced l depth
      → is_red l ≡ false
      → IsBalanced r depth
      → is_red r ≡ false
      → IsBalanced (node true l v r) depth

-- The steps above a balanced tree of some depth: their other children fit, and a red step hangs
-- from a black one.
pub data Fits : List RbStep → ℕ → Type 0 where
  fits_root : {depth : ℕ} → Fits [] depth
  fits_black :
      {dir : Bool} {v depth : ℕ} {other : RbTree} {path : List RbStep}
      → IsBalanced other depth
      → Fits path (suc depth)
      → Fits (record { dir = dir; red = false; value = v; other = other } ∷ path) depth
  fits_red :
      {dir up_dir : Bool} {v up depth : ℕ} {other up_other : RbTree} {path : List RbStep}
      → IsBalanced other depth
      → is_red other ≡ false
      → IsBalanced up_other depth
      → Fits path (suc depth)
      → Fits
          (record { dir = dir; red = true; value = v; other = other }
            ∷ record { dir = up_dir; red = false; value = up; other = up_other }
            ∷ path)
          depth

pub below_black :
    (dir : Bool) (v : ℕ) {c o : RbTree} {depth : ℕ}
    → IsBalanced c depth
    → IsBalanced o depth
    → IsBalanced (below dir false v c o) (suc depth)
below_black true v c o = balanced_black c o
below_black false v c o = balanced_black o c

pub below_red :
    (dir : Bool) (v : ℕ) {c o : RbTree} {depth : ℕ}
    → IsBalanced c depth
    → is_red c ≡ false
    → IsBalanced o depth
    → is_red o ≡ false
    → IsBalanced (below dir true v c o) depth
below_red true v c c_b o o_b = balanced_red c c_b o o_b
below_red false v c c_b o o_b = balanced_red o o_b c c_b

pub below-is_red : (dir red : Bool) (v : ℕ) (c o : RbTree) → is_red (below dir red v c o) ≡ red
below-is_red true red v c o = refl
below-is_red false red v c o = refl

-- A black tree put back at the end of a path, and any tree under a black step.
pub plug-IsBalanced :
    (path : List RbStep) (t : RbTree) (depth : ℕ)
    → IsBalanced t depth
    → is_red t ≡ false
    → Fits path depth
    → (whole : ℕ) × IsBalanced (plug t path) whole × (is_red (plug t path) ≡ false)
unfolding plug
plug-IsBalanced [] t depth ok black fits_root = (depth, ok, black)
plug-IsBalanced (s ∷ path) t depth ok black (fits_black other fits) =
    plug-IsBalanced path _ _ (below_black _ _ ok other) (below-is_red _ _ _ _ _) fits
plug-IsBalanced (s ∷ s2 ∷ path) t depth ok black (fits_red other other_black up fits) =
    plug-IsBalanced path _ _ (below_black _ _ (below_red _ _ ok black other other_black) up)
      (below-is_red _ _ _ _ _) fits

pub set_black :
    (t : RbTree) (depth : ℕ)
    → IsBalanced t depth
    → is_red t ≡ true
    → IsBalanced (set_red false t) (suc depth)
set_black leaf depth ok red = absurd (true≢false (sym red))
set_black (node true l v r) depth (balanced_red l_ok l_b r_ok r_b) red = balanced_black l_ok r_ok
set_black (node false l v r) depth ok red = absurd (true≢false (sym red))

children :
    (dir : Bool) (l r : RbTree) (v depth : ℕ)
    → IsBalanced (node true l v r) depth
    → IsBalanced (get_dir dir (node true l v r)) depth
children true l r v depth (balanced_red l_ok l_b r_ok r_b) = l_ok
children false l r v depth (balanced_red l_ok l_b r_ok r_b) = r_ok

-- A red node under a red step under a black one becomes a red node one level higher.
double_red-IsBalanced :
    (t : RbTree) (depth : ℕ) (dir up_dir : Bool) (v up : ℕ) (other up_other : RbTree)
    → IsBalanced t depth
    → is_red t ≡ true
    → IsBalanced other depth
    → is_red other ≡ false
    → IsBalanced up_other depth
    → let raised =
        double_red t
          (record { dir = dir; red = true; value = v; other = other })
          (record { dir = up_dir; red = false; value = up; other = up_other }) in
      IsBalanced raised (suc depth) × (is_red raised ≡ true)
unfolding double_red
double_red-IsBalanced leaf depth dir up_dir v up other up_other ok red other_ok other_b up_ok =
    absurd (true≢false (sym red))
double_red-IsBalanced (node false l w r) depth dir up_dir v up other up_other ok red other_ok
      other_b up_ok =
    absurd (true≢false (sym red))
double_red-IsBalanced (node true l w r) depth dir up_dir v up other up_other ok red other_ok other_b
      up_ok =
    elim (Bool-cases (same_dir up_dir dir)) [
      | inl same ↦ rw same (
        below_red dir v (set_black (node true l w r) depth ok refl) refl
            (below_black dir up other_ok up_ok) (below-is_red dir false up other up_other),
        below-is_red dir true v _ _,
      )
      | inr turn ↦ rw turn (
        below_red dir w (below_black (not dir) up (children dir l r w depth ok) up_ok)
            (below-is_red (not dir) false up _ _)
            (below_black dir v (children (not dir) l r w depth ok) other_ok)
            (below-is_red dir false v _ _),
        below-is_red dir true w _ _,
      )
    ]

rebalance-IsBalanced :
    (path : List RbStep) (t : RbTree) (depth : ℕ)
    → IsBalanced t depth
    → is_red t ≡ true
    → Fits path depth
    → (whole : ℕ) × IsBalanced (rebalance t path) whole × (is_red (rebalance t path) ≡ false)
unfolding rebalance plug
rebalance-IsBalanced [] t depth ok red fits_root = (suc depth, set_black t depth ok red, black t)
  where
    black : (u : RbTree) → is_red (set_red false u) ≡ false
    black leaf = refl
    black (node was l v r) = refl
rebalance-IsBalanced (s ∷ []) t depth ok red (fits_black other fits) =
    (_, below_black _ _ ok other, below-is_red _ _ _ _ _)
rebalance-IsBalanced (s ∷ s2 ∷ path) t depth ok red (fits_black other fits) =
    plug-IsBalanced (s2 ∷ path) _ _ (below_black _ _ ok other) (below-is_red _ _ _ _ _) fits
rebalance-IsBalanced (s ∷ s2 ∷ path) t depth ok red (fits_red other other_b up fits) =
    let (raised_ok, raised_red) =
      double_red-IsBalanced t depth _ _ _ _ _ _ ok red other other_b up in
    rebalance-IsBalanced path _ (suc depth) raised_ok raised_red fits

unfoldable pub BlackStep : List RbStep → Type 0
BlackStep [] = true ≡ false
BlackStep (s ∷ path) = s.red ≡ false

-- A search that ends at a null node leaves a path that fits it.
pub find-Fits :
    (v : ℕ) (t : RbTree) (path : List RbStep) (depth : ℕ)
    → IsBalanced t depth
    → Fits path depth
    → (is_red t ≡ true → BlackStep path)
    → is_null ((find v t path).0) ≡ true
    → Fits ((find v t path).1) 1
unfolding find BlackStep
find-Fits v leaf path depth balanced_leaf fits black null = fits
find-Fits v (node false l k r) path depth (balanced_black l_ok r_ok) fits black null =
    elim (Bool-cases (k == v)) [
      | inl same ↦ absurd (true≢false (sym (rw same at null)))
      | inr other ↦ elim (Bool-cases (ltb v k)) [
        | inl less ↦
            rw (other, less)
              (find-Fits v l _ _ l_ok (fits_black r_ok fits) (λ red. refl)
                (rw (other, less) at null))
        | inr more ↦
            rw (other, more)
              (find-Fits v r _ _ r_ok (fits_black l_ok fits) (λ red. refl)
                (rw (other, more) at null))
      ]
    ]
find-Fits v (node true l k r) [] depth (balanced_red l_ok l_b r_ok r_b) fits black null =
    absurd (true≢false (black refl))
find-Fits v (node true l k r) (s ∷ path) depth (balanced_red l_ok l_b r_ok r_b) (fits_red a b c d)
      black null =
    absurd (true≢false (black refl))
find-Fits v (node true l k r) (s ∷ path) depth (balanced_red l_ok l_b r_ok r_b) (fits_black up fits)
      black null =
    elim (Bool-cases (k == v)) [
      | inl same ↦ absurd (true≢false (sym (rw same at null)))
      | inr other ↦ elim (Bool-cases (ltb v k)) [
        | inl less ↦
            rw (other, less)
              (find-Fits v l _ _ l_ok (fits_red r_ok r_b up fits)
                (λ red. absurd (true≢false (sym red ∙ l_b))) (rw (other, less) at null))
        | inr more ↦
            rw (other, more)
              (find-Fits v r _ _ r_ok (fits_red l_ok l_b up fits)
                (λ red. absurd (true≢false (sym red ∙ r_b))) (rw (other, more) at null))
      ]
    ]

-- Of a tree with a black root, in which no red node has a red child and every way down from the
-- root passes the same number of black nodes, the tree after `insert_elem` is such a tree again.
pub insert_elem-IsBalanced :
    (v : ℕ) (t : RbTree) (depth : ℕ)
    → IsBalanced t depth
    → is_red t ≡ false
    → (whole : ℕ) × IsBalanced ((insert_elem v t).1) whole × (is_red ((insert_elem v t).1) ≡ false)
unfolding insert_elem insert_path
insert_elem-IsBalanced v t depth ok black = elim (Bool-cases (is_null ((find v t []).0))) [
  | inr present ↦ rw present (depth, ok, black)
  | inl absent ↦ rw absent (
      rebalance-IsBalanced ((find v t []).1) (node true leaf v leaf) 1
        (balanced_red balanced_leaf refl balanced_leaf refl) refl
        (find-Fits v t [] depth ok fits_root (λ red. absurd (true≢false (sym red ∙ black))) absent))
]
