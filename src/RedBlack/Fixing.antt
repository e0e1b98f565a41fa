-- ===== src/RedBlack/Fixing.antt =====
-- src/snmalloc/ds_core/redblacktree.h: removal keeps the tree a red-black tree.
use snmalloc.Base.{
  ℕ, suc, ◌≤◌, arith, ◌≡◌, refl, sym, ◌∙◌, inl, inr, Bool, true, false, not, if◌then◌else◌,
  Bool-cases, List, [], ◌∷◌,
}
use snmalloc.RedBlack.{RbTree, leaf, node, RbStep, below, plug, is_red, set_red, get_dir}
use snmalloc.RedBlack.Balance.{
  IsBalanced, balanced_leaf, balanced_black, balanced_red, Fits, fits_black, fits_red, below_black,
  below_red, below-is_red, plug-IsBalanced, set_black,
}
use snmalloc.RedBlack.Removing.{value_of, settle, double_black}
use mathlib.Core.Bool.{true≢false}

any_colour :
    (dir b : Bool) (v : ℕ) {c o : RbTree} {depth : ℕ}
    → IsBalanced c depth
    → is_red c ≡ false
    → IsBalanced o depth
    → is_red o ≡ false
    → IsBalanced (below dir b v c o) (if b then depth else suc depth)
any_colour dir true v c c_b o o_b = below_red dir v c c_b o o_b
any_colour dir false v c c_b o o_b = below_black dir v c o

black_child :
    (dir : Bool) (l r : RbTree) (v depth : ℕ)
    → IsBalanced (node false l v r) (suc depth)
    → IsBalanced (get_dir dir (node false l v r)) depth
black_child true l r v depth (balanced_black l_ok r_ok) = l_ok
black_child false l r v depth (balanced_black l_ok r_ok) = r_ok

red_child :
    (dir : Bool) (t : RbTree) (depth : ℕ)
    → IsBalanced t depth
    → is_red t ≡ true
    → IsBalanced (get_dir dir t) depth × (is_red (get_dir dir t) ≡ false)
red_child dir leaf depth ok red = absurd (true≢false (sym red))
red_child dir (node false l v r) depth ok red = absurd (true≢false (sym red))
red_child true (node true l v r) depth (balanced_red l_ok l_b r_ok r_b) red = (l_ok, l_b)
red_child false (node true l v r) depth (balanced_red l_ok l_b r_ok r_b) red = (r_ok, r_b)

black_after : (t : RbTree) → is_red (set_red false t) ≡ false
black_after leaf = refl
black_after (node red l v r) = refl

recolour :
    (dir : Bool) (l r : RbTree) (v depth : ℕ)
    → IsBalanced (node false l v r) (suc depth)
    → is_red (get_dir dir (node false l v r)) ≡ false
    → is_red (get_dir (not dir) (node false l v r)) ≡ false
    → IsBalanced (node true l v r) depth
recolour true l r v depth (balanced_black l_ok r_ok) near far = balanced_red l_ok near r_ok far
recolour false l r v depth (balanced_black l_ok r_ok) near far = balanced_red l_ok far r_ok near

-- What `settle` makes: under a red parent it is done and restores the depth; under a black one it
-- restores the depth with a black node, or gives one that lacks it.
data IsSettled (b : Bool) (depth : ℕ) : Bool × RbTree → Type 0 where
  settled :
      {t : RbTree}
      → IsBalanced t (if b then suc depth else suc (suc depth))
      → (b ≡ false → is_red t ≡ false)
      → IsSettled b depth (true, t)
  missing :
      {t : RbTree}
      → b ≡ false
      → IsBalanced t (suc depth)
      → is_red t ≡ false
      → IsSettled b depth (false, t)

settle-IsSettled :
    (c : RbTree) (dir b : Bool) (v : ℕ) (l r : RbTree) (w depth : ℕ)
    → IsBalanced c depth
    → IsBalanced (node false l w r) (suc depth)
    → IsSettled b depth
        (settle c (record { dir = dir; red = b; value = v; other = node false l w r }))
unfolding settle
settle-IsSettled c dir b v l r w depth c_ok s_ok =
    elim (Bool-cases (is_red (get_dir (not dir) (node false l w r)))) [
      | inl far ↦ rw far (
          settled
            (any_colour dir b w (below_black dir v c_ok (black_child dir l r w depth s_ok))
              (below-is_red dir false v _ _)
              (set_black _ depth (black_child (not dir) l r w depth s_ok) far) (black_after _))
            (λ black. below-is_red dir b w _ _ ∙ black))
      | inr far ↦ elim (Bool-cases (is_red (get_dir dir (node false l w r)))) [
        | inl near ↦
            let near_ok = black_child dir l r w depth s_ok in
            rw (far, near)
              (settled
                (any_colour dir b _
                  (below_black dir v c_ok ((red_child dir _ depth near_ok near).0))
                  (below-is_red dir false v _ _)
                  (below_black dir w ((red_child (not dir) _ depth near_ok near).0)
                    (black_child (not dir) l r w depth s_ok))
                  (below-is_red dir false w _ _))
                (λ black. below-is_red dir b _ _ _ ∙ black))
        | inr near ↦ rw (far, near) (last b near far)
      ]
    ]
  where
    last :
        (b2 : Bool)
        → is_red (get_dir dir (node false l w r)) ≡ false
        → is_red (get_dir (not dir) (node false l w r)) ≡ false
        → IsSettled b2 depth (
            if b2
            then (true, below dir false v c (node true l w r))
            else (false, below dir false v c (node true l w r)))
    last true near far =
        settled (below_black dir v c_ok (recolour dir l r w depth s_ok near far))
          (λ black. below-is_red dir false v _ _)
    last false near far =
        missing refl (below_black dir v c_ok (recolour dir l r w depth s_ok near far))
          (below-is_red dir false v _ _)

pub depth_positive : (t : RbTree) (depth : ℕ) → IsBalanced t depth → 1 ≤ depth
depth_positive leaf depth balanced_leaf = omega arith
depth_positive (node false l v r) depth (balanced_black l_ok r_ok) = omega arith
depth_positive (node true l v r) depth (balanced_red l_ok l_b r_ok r_b) =
    depth_positive l depth l_ok

shape :
    (s : RbTree) (depth : ℕ)
    → IsBalanced s depth
    → 2 ≤ depth
    → is_red s ≡ false
    → (l : RbTree) × (w : ℕ) × (r : RbTree) × (s ≡ node false l w r)
shape leaf depth balanced_leaf deep black = absurd (omega arith)
shape (node false l w r) depth ok deep black = (l, w, r, refl)
shape (node true l w r) depth ok deep black = absurd (true≢false black)

IsSettled-of :
    (c : RbTree) (dir b : Bool) (v : ℕ) (s : RbTree) (depth : ℕ)
    → IsBalanced c depth
    → IsBalanced s (suc depth)
    → is_red s ≡ false
    → IsSettled b depth (settle c (record { dir = dir; red = b; value = v; other = s }))
IsSettled-of c dir b v s depth c_ok s_ok black =
    let (l, w, r, e) =
      shape s (suc depth) s_ok (omega (arith, depth_positive c depth c_ok)) black in
    rw e (settle-IsSettled c dir b v l r w depth c_ok (rw e at s_ok))

settled_tree :
    (depth : ℕ) (r : Bool × RbTree)
    → IsSettled true depth r
    → (r.0 ≡ true) × IsBalanced (r.1) (suc depth)
settled_tree depth (true, t) (settled ok black) = (refl, ok)
settled_tree depth (false, t) (missing b ok black) = absurd (true≢false b)

-- Some depth, and a black root.
unfoldable pub IsBlackRooted : RbTree → Type 0
IsBlackRooted t = (whole : ℕ) × IsBalanced t whole × (is_red t ≡ false)

go_on :
    (depth : ℕ) (path : List RbStep) (r : Bool × RbTree)
    → IsSettled false depth r
    → Fits path (suc (suc depth))
    → ((t : RbTree)
        → IsBalanced t (suc depth)
        → is_red t ≡ false
        → IsBlackRooted (double_black t path))
    → IsBlackRooted (if r.0 then plug r.1 path else double_black r.1 path)
unfolding IsBlackRooted
go_on depth path (true, t) (settled ok black) fits more =
    plug-IsBalanced path t (suc (suc depth)) ok (black refl) fits
go_on depth path (false, t) (missing b ok black) fits more = more t ok black

-- At the root the tree is black.
unfoldable pub RootBlack : List RbStep → RbTree → Type 0
RootBlack [] c = is_red c ≡ false
RootBlack (s ∷ path) c = Unit

root_black : (path : List RbStep) (t : RbTree) → is_red t ≡ false → RootBlack path t
unfolding RootBlack
root_black [] t black = black
root_black (s ∷ path) t black = tt

pub double_black-IsBalanced :
    (path : List RbStep) (c : RbTree) (depth : ℕ)
    → IsBalanced c depth
    → Fits path (suc depth)
    → RootBlack path c
    → IsBlackRooted (double_black c path)
unfolding double_black RootBlack IsBlackRooted plug
double_black-IsBalanced [] c depth ok fits black = (depth, ok, black)
double_black-IsBalanced (s ∷ path) c depth ok (fits_black other fits) any =
    elim (Bool-cases (is_red s.other)) [
      | inl red ↦
          let near = red_child s.dir s.other (suc depth) other red in
          let far = red_child (not s.dir) s.other (suc depth) other red in
          let turned =
            settled_tree depth _
              (IsSettled-of c s.dir true s.value (get_dir s.dir s.other) depth ok near.0 near.1) in
          rw red (
            plug-IsBalanced path _ _ (below_black s.dir (value_of s.other) turned.1 far.0)
              (below-is_red s.dir false _ _ _) fits)
      | inr black ↦ rw black (
          go_on depth path _ (IsSettled-of c s.dir false s.value s.other depth ok other black) fits
            (λ t t_ok t_b.
              double_black-IsBalanced path t (suc depth) t_ok fits (root_black path t t_b)))
    ]
double_black-IsBalanced (s ∷ s2 ∷ path) c depth ok (fits_red other other_b up fits) any =
    let done =
      settled_tree depth _ (IsSettled-of c s.dir true s.value s.other depth ok other other_b) in
    rw (other_b, done.0)
      (plug-IsBalanced path _ _ (below_black s2.dir s2.value done.1 up)
        (below-is_red s2.dir false _ _ _) fits)
