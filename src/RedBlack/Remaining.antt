-- ===== src/RedBlack/Remaining.antt =====
-- src/snmalloc/ds_core/redblacktree.h: what removal does to the values from left to right.
use snmalloc.Base.{
  ℕ, ◌≡◌, refl, sym, ◌∙◌, inl, inr, Bool, true, false, not, Bool-cases, List, [], ◌∷◌,
}
use snmalloc.RedBlack.{RbTree, leaf, node, RbStep, below, plug, is_red, set_red, get_dir, in_order}
use snmalloc.RedBlack.Contents.{plug-congruent}
use snmalloc.RedBlack.Removing.{value_of, settle, double_black}
use mathlib.Core.Bool.{true≢false}
use mathlib.Core.List.{append_assoc}

in_order-blackened : (t : RbTree) → in_order (set_red false t) ≡ in_order t
unfolding in_order
in_order-blackened leaf = refl
in_order-blackened (node red l v r) = refl

-- The last round of the loop, by the colours of the sibling's children.
in_order-node :
    (c : RbTree) (dir red : Bool) (v : ℕ) (sr : Bool) (sl : RbTree) (w : ℕ) (s2 : RbTree)
    → in_order ((settle c (record { dir = dir; red = red; value = v; other = node sr sl w s2 })).1)
      ≡ in_order (below dir red v c (node sr sl w s2))
unfolding settle in_order
in_order-node c true red v sr sl w (node true l x r) = simp append_assoc refl
in_order-node c true red v sr (node true l x r) w leaf = simp append_assoc refl
in_order-node c true red v sr (node true l x r) w (node false l2 y r2) = simp append_assoc refl
in_order-node c true true v sr leaf w leaf = refl
in_order-node c true false v sr leaf w leaf = refl
in_order-node c true true v sr leaf w (node false l2 y r2) = refl
in_order-node c true false v sr leaf w (node false l2 y r2) = refl
in_order-node c true true v sr (node false l x r) w leaf = refl
in_order-node c true false v sr (node false l x r) w leaf = refl
in_order-node c true true v sr (node false l x r) w (node false l2 y r2) = refl
in_order-node c true false v sr (node false l x r) w (node false l2 y r2) = refl
in_order-node c false red v sr (node true l x r) w s2 = simp append_assoc refl
in_order-node c false red v sr leaf w (node true l x r) = simp append_assoc refl
in_order-node c false red v sr (node false l2 y r2) w (node true l x r) = simp append_assoc refl
in_order-node c false true v sr leaf w leaf = refl
in_order-node c false false v sr leaf w leaf = refl
in_order-node c false true v sr leaf w (node false l2 y r2) = refl
in_order-node c false false v sr leaf w (node false l2 y r2) = refl
in_order-node c false true v sr (node false l x r) w leaf = refl
in_order-node c false false v sr (node false l x r) w leaf = refl
in_order-node c false true v sr (node false l x r) w (node false l2 y r2) = refl
in_order-node c false false v sr (node false l x r) w (node false l2 y r2) = refl

in_order-settle :
    (c : RbTree) (dir red : Bool) (v : ℕ) (s : RbTree)
    → in_order ((settle c (record { dir = dir; red = red; value = v; other = s })).1)
      ≡ in_order (below dir red v c s)
unfolding settle in_order
in_order-settle c true true v leaf = refl
in_order-settle c true false v leaf = refl
in_order-settle c false true v leaf = refl
in_order-settle c false false v leaf = refl
in_order-settle c dir red v (node sr sl w s2) = in_order-node c dir red v sr sl w s2

-- The rotation of a red sibling.
in_order-turned :
    (c : RbTree) (dir red : Bool) (v : ℕ) (s : RbTree)
    → is_red s ≡ true
    → in_order
        (below dir false (value_of s) (below dir true v c (get_dir dir s)) (get_dir (not dir) s))
      ≡ in_order (below dir red v c s)
unfolding in_order
in_order-turned c dir red v leaf h = absurd (true≢false (sym h))
in_order-turned c true red v (node sr sl w s2) h = simp append_assoc refl
in_order-turned c false red v (node sr sl w s2) h = simp append_assoc refl

pub in_order-double_black :
    (path : List RbStep) (c : RbTree) → in_order (double_black c path) ≡ in_order (plug c path)
unfolding double_black plug
in_order-double_black [] c = refl
in_order-double_black (s ∷ path) c = elim (Bool-cases (is_red s.other)) [
  | inl red ↦
      let turned : RbStep = record {
        dir = s.dir;
        red = true;
        value = s.value;
        other = get_dir s.dir s.other;
      } in
      let above : RbStep = record {
        dir = s.dir;
        red = false;
        value = value_of s.other;
        other = get_dir (not s.dir) s.other;
      } in
      rw red (
        plug-congruent ((settle c turned).1) (below s.dir true s.value c (get_dir s.dir s.other))
          (above ∷ path) (in_order-settle c s.dir true s.value (get_dir s.dir s.other))
        ∙ plug-congruent _ (below s.dir s.red s.value c s.other) path
            (in_order-turned c s.dir s.red s.value s.other red))
  | inr black ↦ elim (Bool-cases ((settle c s).0)) [
    | inl done ↦
        rw (black, done)
          (plug-congruent ((settle c s).1) (below s.dir s.red s.value c s.other) path
            (in_order-settle c s.dir s.red s.value s.other))
    | inr more ↦
        rw (black, more)
          (in_order-double_black path ((settle c s).1)
            ∙ plug-congruent ((settle c s).1) (below s.dir s.red s.value c s.other) path
                (in_order-settle c s.dir s.red s.value s.other))
  ]
]
