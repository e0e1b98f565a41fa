-- ===== src/FlagLock/Owner.antt =====
-- src/snmalloc/ds_aal/flaglock.h: which threads are inside, and which one owns the word.
use snmalloc.Base.{ℕ, zero, suc, ◌+◌, ◌*◌, ◌≤◌, ◌<◌, ◌≡◌, ◌≢◌, ◌⊎◌, inl, inr, refl, ap, arith}
use snmalloc.Base.{some}
use snmalloc.Base.{List, [], ◌∷◌, get_elem?, set, sum, sum-set, lt-or-le}
use snmalloc.FlagLock.{Point, outside, acquiring, lost, spinning, won, holding, leaving}
use mathlib.Core.Option.{some-injective, none-ne-some}

-- Whether a point lies between the exchange that took the word and the store that frees it.
unfoldable pub inside : Point → ℕ
inside won = 1
inside holding = 1
inside leaving = 1
inside outside = 0
inside acquiring = 0
inside lost = 0
inside spinning = 0

unfoldable pub owns : Point → ℕ
owns holding = 1
owns outside = 0
owns acquiring = 0
owns lost = 0
owns spinning = 0
owns won = 0
owns leaving = 0

-- The identity of the thread that owns the word, the first of the list having the identity `i + 1`.
unfoldable pub owner_of : ℕ → List Point → ℕ
owner_of i [] = 0
owner_of i (p ∷ ps) = owns p * (i + 1) + owner_of (i + 1) ps

owns-inside : (p : Point) → owns p ≤ inside p
unfolding owns inside
owns-inside won = omega arith
owns-inside holding = omega arith
owns-inside leaving = omega arith
owns-inside outside = omega arith
owns-inside acquiring = omega arith
owns-inside lost = omega arith
owns-inside spinning = omega arith

pub none_inside : (i : ℕ) (ps : List Point) → sum inside ps ≡ 0 → owner_of i ps ≡ 0
unfolding owner_of sum
none_inside i [] h = refl
none_inside i (p ∷ ps) h =
    let e : owns p ≡ 0 = omega (arith, owns-inside p) in
    omega (arith, none_inside (i + 1) ps (omega arith), ap (λ (t : ℕ). t * (i + 1)) e)

pub owner_of-set :
    (k : ℕ) (ps : List Point) (i : ℕ) (p v : Point)
    → get_elem? ps i ≡ some p
    → owner_of k (set ps i v) + owns p * (k + i + 1) ≡ owner_of k ps + owns v * (k + i + 1)
unfolding owner_of
owner_of-set k [] i p v e = absurd (none-ne-some p e)
owner_of-set k (x ∷ ps) zero p v e = rw (some-injective x p e) (omega arith)
owner_of-set k (x ∷ ps) (suc i) p v e =
    let same : k + suc i + 1 ≡ k + 1 + i + 1 = omega arith in
    omega (
      arith,
      owner_of-set (k + 1) ps i p v e,
      ap (λ (t : ℕ). owns p * t) same,
      ap (λ (t : ℕ). owns v * t) same,
    )

-- With at most one thread inside, and `i` inside, the owner is `i` or none.
pub owner_inside :
    (k : ℕ) (ps : List Point) (i : ℕ) (p : Point)
    → get_elem? ps i ≡ some p
    → inside p ≡ 1
    → sum inside ps ≤ 1
    → owner_of k ps ≡ owns p * (k + i + 1)
unfolding owner_of sum inside
owner_inside k [] i p e here one = absurd (none-ne-some p e)
owner_inside k (x ∷ ps) zero p e here one =
    let same = some-injective x p e in
    rw same (omega (arith, ap inside same, none_inside (k + 1) ps (omega (arith, ap inside same))))
owner_inside k (x ∷ ps) (suc i) p e here one =
    let rest : 1 ≤ sum inside ps = omega (arith, sum-set inside ps i outside e) in
    let x_out : owns x ≡ 0 = omega (arith, owns-inside x) in
    let same : k + suc i + 1 ≡ k + 1 + i + 1 = omega arith in
    omega (
      arith,
      owner_inside (k + 1) ps i p e here (omega arith),
      ap (λ (t : ℕ). t * (k + 1)) x_out,
      ap (λ (t : ℕ). owns p * t) same,
    )

owner_above : (k : ℕ) (ps : List Point) → (owner_of k ps ≡ 0) ⊎ (k < owner_of k ps)
unfolding owner_of owns
owner_above k [] = inl refl
owner_above k (holding ∷ ps) = inr (omega arith)
owner_above k (outside ∷ ps) = grind (arith, owner_above (k + 1) ps)
owner_above k (acquiring ∷ ps) = grind (arith, owner_above (k + 1) ps)
owner_above k (lost ∷ ps) = grind (arith, owner_above (k + 1) ps)
owner_above k (spinning ∷ ps) = grind (arith, owner_above (k + 1) ps)
owner_above k (won ∷ ps) = grind (arith, owner_above (k + 1) ps)
owner_above k (leaving ∷ ps) = grind (arith, owner_above (k + 1) ps)

pub owner_elsewhere :
    (k : ℕ) (ps : List Point) (i : ℕ) (p : Point)
    → get_elem? ps i ≡ some p
    → owns p ≡ 0
    → sum inside ps ≤ 1
    → owner_of k ps ≢ k + i + 1
unfolding owner_of sum
owner_elsewhere k [] i p e not_owner one h = absurd (none-ne-some p e)
owner_elsewhere k (x ∷ ps) zero p e not_owner one h =
    let out : owns x ≡ 0 = omega (arith, ap owns (some-injective x p e)) in
    grind (arith, owner_above (k + 1) ps, ap (λ (t : ℕ). t * (k + 1)) out)
owner_elsewhere k (x ∷ ps) (suc i) p e not_owner one h = elim (lt-or-le (owns x) 1) [
  | inl less ↦
      let out : owns x ≡ 0 = omega arith in
      owner_elsewhere (k + 1) ps i p e not_owner (omega arith)
        (omega (arith, ap (λ (t : ℕ). t * (k + 1)) out))
  | inr more ↦
      let in_ : owns x ≡ 1 = omega (arith, owns-inside x) in
      absurd (
        omega (
          arith,
          none_inside (k + 1) ps (omega (arith, owns-inside x)),
          ap (λ (t : ℕ). t * (k + 1)) in_,
        ))
]
