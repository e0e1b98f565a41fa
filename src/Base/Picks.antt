-- ===== src/Base/Picks.antt =====
-- Taking one element out of a list, and what that does to a property of all elements and to a
-- sum over them.
use Prim.Native.Nat.{ℕ, zero, suc, ◌+◌}
use mathlib.Core.Path.{◌≡◌, refl, ap}
use mathlib.Core.List.{List, [], ◌∷◌}
use mathlib.Core.Option.{some, some-injective, none-ne-some}
use native.Mathlib.Omega.{arith}
use snmalloc.Base.Lists.{length, get_elem?, set}

pub data All {ℓ κ} {A : Type ℓ} (P : A → Type κ) : List A → Type (ℓ ⊔ κ) where
  all_nil : All P []
  all_cons : {x : A} {xs : List A} → P x → All P xs → All P (x ∷ xs)

-- `Pick x xs ys`: `ys` is `xs` with `x` put in at some place.
pub data Pick {ℓ} {A : Type ℓ} (x : A) : List A → List A → Type ℓ where
  pick_here : {xs : List A} → Pick x xs (x ∷ xs)
  pick_there : {y : A} {xs ys : List A} → Pick x xs ys → Pick x (y ∷ xs) (y ∷ ys)

module _ {ℓ} {A : Type ℓ} where
  unfoldable pub sum : (A → ℕ) → List A → ℕ
  sum f [] = 0
  sum f (x ∷ xs) = f x + sum f xs

  -- Out of bounds nothing is removed.
  abbrev pub remove_at : List A → ℕ → List A
  remove_at [] i = []
  remove_at (x ∷ xs) zero = xs
  remove_at (x ∷ xs) (suc i) = x ∷ remove_at xs i

module _ {ℓ} {A : Type ℓ} {x : A} where
  pub sum-Pick : (f : A → ℕ) {xs ys : List A} → Pick x xs ys → f x + sum f xs ≡ sum f ys
  unfolding sum
  sum-Pick f pick_here = refl
  sum-Pick f (pick_there p) = omega (arith, sum-Pick f p)

  pub length-Pick : {xs ys : List A} → Pick x xs ys → suc (length xs) ≡ length ys
  length-Pick pick_here = refl
  length-Pick (pick_there p) = ap suc (length-Pick p)

  pub All-Pick {κ} : {P : A → Type κ} {xs ys : List A} → Pick x xs ys → All P ys → P x × All P xs
  All-Pick pick_here (all_cons px pxs) = (px, pxs)
  All-Pick (pick_there p) (all_cons py pys) =
      let rest = All-Pick p pys in (rest.0, all_cons py rest.1)

  pub remove_at-Pick : (ys : List A) (i : ℕ) → get_elem? ys i ≡ some x → Pick x (remove_at ys i) ys
  remove_at-Pick [] i e = absurd (none-ne-some x e)
  remove_at-Pick (y ∷ ys) zero e = rw (some-injective y x e) pick_here
  remove_at-Pick (y ∷ ys) (suc i) e = pick_there (remove_at-Pick ys i e)

  -- Writing at the place of `x`.
  pub sum-set :
      (f : A → ℕ) (ys : List A) (i : ℕ) (v : A)
      → get_elem? ys i ≡ some x
      → sum f (set ys i v) + f x ≡ sum f ys + f v
  unfolding sum
  sum-set f [] i v e = absurd (none-ne-some x e)
  sum-set f (y ∷ ys) zero v e = rw (some-injective y x e) (omega arith)
  sum-set f (y ∷ ys) (suc i) v e = omega (arith, sum-set f ys i v e)

module _ {ℓ} {A : Type ℓ} where
  pub All-set {κ} :
      {P : A → Type κ} (ys : List A) (i : ℕ) (v : A) → All P ys → P v → All P (set ys i v)
  All-set [] i v all pv = all
  All-set (y ∷ ys) zero v (all_cons py pys) pv = all_cons pv pys
  All-set (y ∷ ys) (suc i) v (all_cons py pys) pv = all_cons py (All-set ys i v pys pv)

  pub remove_at-set : (ys : List A) (i : ℕ) (v : A) → remove_at (set ys i v) i ≡ remove_at ys i
  remove_at-set [] i v = refl
  remove_at-set (y ∷ ys) zero v = refl
  remove_at-set (y ∷ ys) (suc i) v = ap (λ (t : List A). y ∷ t) (remove_at-set ys i v)
