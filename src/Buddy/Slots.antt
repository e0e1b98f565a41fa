-- ===== src/Buddy/Slots.antt =====
-- src/snmalloc/backend_helpers/buddy.h: the three cache slots and one bucket.
use snmalloc.Base.{ℕ, ◌+◌, ◌≡◌, inl, inr, refl, ap}
use snmalloc.Base.{true, ◌==◌, ◌||◌, List, [], ◌∷◌, ◌++◌}
use snmalloc.Base.{arith, All, all_nil, all_cons, Pick, pick_here, pick_there, sum, Bool-cases}
use snmalloc.Buddy.{null, has, replace, exchange, rep_compare}

module _ (f : ℕ → ℕ) where
  pub sum-append : (xs ys : List ℕ) → sum f (xs ++ ys) ≡ sum f xs + sum f ys
  unfolding sum
  sum-append [] ys = omega arith
  sum-append (x ∷ xs) ys = omega (arith, sum-append xs ys)

  -- The slot that is replaced.
  pub sum-replace :
      (a b : ℕ) (c : List ℕ) → has a c ≡ true → sum f (replace a b c) + f a ≡ sum f c + f b
  unfolding sum has replace
  sum-replace a b [] e = absurd (ground (arith, e))
  sum-replace a b (x ∷ c) e = elim (Bool-cases (a == x)) [
    | inl same ↦ let eq : a ≡ x = ground (arith, same) in rw same (omega (arith, ap f eq))
    | inr other ↦ rw other (omega (arith, sum-replace a b c (rw other at e)))
  ]

  pub sum-exchange :
      (a : ℕ) (c : List ℕ) → f ((exchange a c).0) + sum f ((exchange a c).1) ≡ f a + sum f c
  unfolding sum exchange
  sum-exchange a [] = refl
  sum-exchange a (x ∷ c) = elim (Bool-cases ((null == a) || rep_compare x a)) [
    | inl swap ↦ rw swap (omega (arith, sum-exchange x c))
    | inr hold ↦ rw hold (omega (arith, sum-exchange a c))
  ]

module _ {P : ℕ → Type 0} where
  pub All-append : (xs ys : List ℕ) → All P xs → All P ys → All P (xs ++ ys)
  All-append [] ys all_nil q = q
  All-append (x ∷ xs) ys (all_cons p ps) q = all_cons p (All-append xs ys ps q)

  pub All-put : {a : ℕ} {xs ys : List ℕ} → Pick a xs ys → P a → All P xs → All P ys
  All-put pick_here pa q = all_cons pa q
  All-put (pick_there p) pa (all_cons py q) = all_cons py (All-put p pa q)

  pub All-append_parts : (xs ys : List ℕ) → All P (xs ++ ys) → All P xs × All P ys
  All-append_parts [] ys q = (all_nil, q)
  All-append_parts (x ∷ xs) ys (all_cons p q) =
      let rest = All-append_parts xs ys q in (all_cons p rest.0, rest.1)

  pub All-replace : (a b : ℕ) (c : List ℕ) → P b → All P c → All P (replace a b c)
  unfolding replace
  All-replace a b [] pb all_nil = all_nil
  All-replace a b (x ∷ c) pb (all_cons p ps) = elim (Bool-cases (a == x)) [
    | inl same ↦ rw same (all_cons pb ps)
    | inr other ↦ rw other (all_cons p (All-replace a b c pb ps))
  ]

  pub All-exchange :
      (a : ℕ) (c : List ℕ) → P a → All P c → P ((exchange a c).0) × All P ((exchange a c).1)
  unfolding exchange
  All-exchange a [] pa all_nil = (pa, all_nil)
  All-exchange a (x ∷ c) pa (all_cons p ps) = elim (Bool-cases ((null == a) || rep_compare x a)) [
    | inl swap ↦ let rest = All-exchange x c p ps in rw swap (rest.0, all_cons pa rest.1)
    | inr hold ↦ let rest = All-exchange a c pa ps in rw hold (rest.0, all_cons p rest.1)
  ]

-- Null comes out only when nothing went in.
pub exchange-null :
    (a : ℕ) (c : List ℕ)
    → (exchange a c).0 ≡ null
    → (a ≡ null) × All (λ x. x ≡ null) c × All (λ x. x ≡ null) ((exchange a c).1)
unfolding exchange
exchange-null a [] e = (e, all_nil, all_nil)
exchange-null a (x ∷ c) e = elim (Bool-cases (null == a)) [
  | inl empty ↦
      let a_null : a ≡ null = ground (arith, empty) in
      let rest = exchange-null x c (rw empty at e) in
      rw empty (a_null, all_cons rest.0 rest.1, all_cons a_null rest.2)
  | inr full ↦ elim (Bool-cases (rep_compare x a)) [
    | inl more ↦
        let rest = exchange-null x c (rw (full, more) at e) in absurd (ground (arith, more, rest.0))
    | inr less ↦
        let rest = exchange-null a c (rw (full, less) at e) in absurd (ground (arith, full, rest.0))
  ]
]
