-- ===== src/RedBlack/Contents.antt =====
-- src/snmalloc/ds_core/redblacktree.h: what insertion does to the values from left to right.
use snmalloc.Base.{
  ℕ, ◌<◌, ◌≡◌, refl, sym, ap, ◌∙◌, arith, Bool, true, false, ltb, ◌==◌, if◌then◌else◌, Bool-cases,
  inl, inr, ◌⊎◌, ltb→lt, List, [], ◌∷◌, ◌++◌,
}
use snmalloc.Base.{All, all_nil, all_cons}
use snmalloc.RedBlack.{
  RbTree, leaf, node, RbStep, below, plug, find, same_dir, double_red, rebalance, insert_path,
  insert_elem, is_null, in_order,
}
use mathlib.Core.Bool.{true≢false}
use mathlib.Core.List.{append_assoc, append-nil}

-- What stands to the left and to the right of a path's end.
unfoldable pub before : List RbStep → List ℕ
before [] = []
before (s ∷ path) = if s.dir then before path else before path ++ (in_order s.other ++ s.value ∷ [])

unfoldable pub after : List RbStep → List ℕ
after [] = []
after (s ∷ path) = if s.dir then s.value ∷ in_order s.other ++ after path else after path

in_order-below :
    (dir red : Bool) (v : ℕ) (t o : RbTree) (path : List RbStep)
    → before path ++ (in_order (below dir red v t o) ++ after path)
      ≡ before (record { dir = dir; red = red; value = v; other = o } ∷ path)
        ++ (in_order t ++ after (record { dir = dir; red = red; value = v; other = o } ∷ path))
unfolding before after in_order
in_order-below true red v t o path = simp append_assoc refl
in_order-below false red v t o path = simp append_assoc refl

pub in_order-plug :
    (t : RbTree) (path : List RbStep)
    → in_order (plug t path) ≡ before path ++ (in_order t ++ after path)
unfolding plug before after
in_order-plug t [] = simp append-nil refl
in_order-plug t (s ∷ path) =
    in_order-plug (below s.dir s.red s.value t s.other) path
    ∙ in_order-below s.dir s.red s.value t s.other path

-- Only the values of what is put at the end of a path matter.
pub plug-congruent :
    (t u : RbTree) (path : List RbStep)
    → in_order t ≡ in_order u
    → in_order (plug t path) ≡ in_order (plug u path)
plug-congruent t u path e =
    in_order-plug t path
    ∙ ap (λ (xs : List ℕ). before path ++ (xs ++ after path)) e
    ∙ sym (in_order-plug u path)

-- The rotations keep the values in their order.
double_red-turns :
    (up_dir dir : Bool) (red c d : Bool) (l r o p : RbTree) (w v g : ℕ)
    → in_order (
        double_red
          (node red l w r)
          (record { dir = dir; red = c; value = v; other = o })
          (record { dir = up_dir; red = d; value = g; other = p }))
      ≡ in_order (below up_dir d g (below dir c v (node red l w r) o) p)
unfolding double_red in_order
double_red-turns true true red c d l r o p w v g = simp append_assoc refl
double_red-turns true false red c d l r o p w v g = simp append_assoc refl
double_red-turns false true red c d l r o p w v g = simp append_assoc refl
double_red-turns false false red c d l r o p w v g = simp append_assoc refl

below-is_null : (dir red : Bool) (v : ℕ) (t o : RbTree) → is_null (below dir red v t o) ≡ false
below-is_null true red v t o = refl
below-is_null false red v t o = refl

double_red-is_null :
    (red : Bool) (l : RbTree) (w : ℕ) (r : RbTree) (p g : RbStep)
    → is_null (double_red (node red l w r) p g) ≡ false
unfolding double_red
double_red-is_null red l w r p g = elim (Bool-cases (same_dir g.dir p.dir)) [
  | inl same ↦ rw same (below-is_null p.dir p.red p.value _ _)
  | inr turn ↦ rw turn (below-is_null p.dir red w _ _)
]

rebalance-in_order :
    (path : List RbStep) (t : RbTree)
    → is_null t ≡ false
    → in_order (rebalance t path) ≡ in_order (plug t path)
unfolding rebalance plug in_order
rebalance-in_order [] (node red l v r) some_t = refl
rebalance-in_order [] leaf some_t = refl
rebalance-in_order (p ∷ []) t some_t = refl
rebalance-in_order (p ∷ g ∷ path) leaf some_t = absurd (true≢false some_t)
rebalance-in_order (p ∷ g ∷ path) (node red l v r) some_t = elim (Bool-cases p.red) [
  | inr stop ↦ rw stop refl
  | inl more ↦
      ap
        (λ (b : Bool). in_order (
          if b
          then rebalance (double_red (node red l v r) p g) path
          else plug (node red l v r) (p ∷ g ∷ path)))
        more
      ∙ rebalance-in_order path (double_red (node red l v r) p g) (double_red-is_null red l v r p g)
      ∙ plug-congruent (double_red (node red l v r) p g)
          (below g.dir g.red g.value (below p.dir p.red p.value (node red l v r) p.other) g.other)
          path (double_red-turns g.dir p.dir red p.red g.red l r p.other g.other v p.value g.value)
]

-- What the insertion at a path's end does to the values.
pub in_order-insert_path :
    (v : ℕ) (path : List RbStep) → in_order (insert_path v path) ≡ before path ++ v ∷ after path
unfolding insert_path in_order
in_order-insert_path v path =
    rebalance-in_order path (node true leaf v leaf) refl
    ∙ in_order-plug (node true leaf v leaf) path

-- Of a search tree the values to the left of a node are smaller, those to the right larger.
unfoldable pub IsOrdered : RbTree → Type 0
IsOrdered leaf = Unit
IsOrdered (node red l k r) =
    All (λ a. a < k) (in_order l) × All (λ a. k < a) (in_order r) × IsOrdered l × IsOrdered r

All-append : {P : ℕ → Type 0} (xs ys : List ℕ) → All P xs → All P ys → All P (xs ++ ys)
All-append [] ys all_nil q = q
All-append (x ∷ xs) ys (all_cons p ps) q = all_cons p (All-append xs ys ps q)

All-weaken : {P Q : ℕ → Type 0} → ((a : ℕ) → P a → Q a) → (xs : List ℕ) → All P xs → All Q xs
All-weaken f [] all_nil = all_nil
All-weaken f (x ∷ xs) (all_cons p ps) = all_cons (f x p) (All-weaken f xs ps)

-- A search that ends at a null node has what is smaller on its left and what is larger on its
-- right, and leaves the values where they are.
find-absent :
    (v : ℕ) (t : RbTree) (path : List RbStep)
    → IsOrdered t
    → All (λ a. a < v) (before path)
    → All (λ a. v < a) (after path)
    → is_null ((find v t path).0) ≡ true
    → All (λ a. a < v) (before ((find v t path).1))
      × All (λ a. v < a) (after ((find v t path).1))
      × (before ((find v t path).1) ++ after ((find v t path).1)
          ≡ before path ++ (in_order t ++ after path))
unfolding find IsOrdered in_order before after
find-absent v leaf path ordered small large null = (small, large, refl)
find-absent v (node red l k r) path (l_k, k_r, l_ok, r_ok) small large null =
    elim (Bool-cases (k == v)) [
      | inl same ↦ absurd (true≢false (sym (rw same at null)))
      | inr other ↦ elim (Bool-cases (ltb v k)) [
        | inl less ↦
            let v_k : v < k = ltb→lt v k less in
            let rest =
              find-absent v l (record { dir = true; red = red; value = k; other = r } ∷ path) l_ok
                small
                (all_cons v_k (
                  All-append (in_order r) (after path)
                    (All-weaken (λ a h. omega arith) (in_order r) k_r) large))
                (rw (other, less) at null) in
            rw (other, less) (rest.0, rest.1, rest.2 ∙ simp append_assoc refl)
        | inr more ↦
            let k_v : k < v = ground (arith, other, more) in
            let rest =
              find-absent v r (record { dir = false; red = red; value = k; other = l } ∷ path) r_ok
                (All-append (before path) _ small (
                  All-append (in_order l) (k ∷ [])
                    (All-weaken (λ a h. omega arith) (in_order l) l_k) (all_cons k_v all_nil)))
                large (rw (other, more) at null) in
            rw (other, more) (rest.0, rest.1, rest.2 ∙ simp append_assoc refl)
      ]
    ]

-- Of a search tree that `insert_elem` changes, the values are those before with the new one put
-- between the smaller and the larger ones; a value that is there already leaves the tree alone.
pub insert_elem_lem :
    (v : ℕ) (t : RbTree)
    → IsOrdered t
    → ((insert_elem v t) ≡ (false, t))
      ⊎ ((xs : List ℕ) × (ys : List ℕ) × ((insert_elem v t).0 ≡ true)
          × (in_order t ≡ xs ++ ys)
          × (in_order ((insert_elem v t).1) ≡ xs ++ v ∷ ys)
          × All (λ a. a < v) xs
          × All (λ a. v < a) ys)
unfolding insert_elem insert_path before after in_order
insert_elem_lem v t ordered = elim (Bool-cases (is_null ((find v t []).0))) [
  | inr present ↦ inl (rw present refl)
  | inl absent ↦
      let path = (find v t []).1 in
      let (small, large, same) = find-absent v t [] ordered all_nil all_nil absent in
      inr (
        before ((find v t []).1),
        after ((find v t []).1),
        rw absent refl,
        sym (same ∙ append-nil (in_order t)),
        rw absent (
            rebalance-in_order ((find v t []).1) (node true leaf v leaf) refl
            ∙ in_order-plug (node true leaf v leaf) ((find v t []).1)),
        small,
        large,
      )
]
