-- ===== src/FreeList/Segment.antt =====
-- src/snmalloc/mem/freelist.h: a signed list in memory, and the stores that leave it alone or
-- extend it.
use snmalloc.Base.{ℕ, ◌+◌, ◌≤◌, ◌≡◌, ◌≢◌, ◌⊎◌, ap, ◌∙◌, arith}
use snmalloc.Base.{Bool, true, false, if◌then◌else◌, List, [], ◌∷◌, ◌++◌}
use snmalloc.Base.{All, all_nil, all_cons}
use snmalloc.FreeList.{
  Memory, store, Mitigations, FreeListKey, prev_field, signed_prev, code_next, store_next,
}
use snmalloc.FreeList.Words.{store_same, store_other}

-- The two words of an object and those of another, or of a list's head, do not overlap.
abbrev pub Apart : ℕ → ℕ → Type 0
Apart a b = (a + 16 ≤ b) ⊎ (b + 16 ≤ a)

-- The head's address and the objects' are apart from each other.
unfoldable pub Spread : ℕ → List ℕ → Type 0
Spread c [] = Unit
Spread c (x ∷ xs) = All (Apart c) (x ∷ xs) × Spread x xs

pub All-head : {P : ℕ → Type 0} {x : ℕ} {xs : List ℕ} → All P (x ∷ xs) → P x
All-head (all_cons p ps) = p

pub All-tail : {P : ℕ → Type 0} {x : ℕ} {xs : List ℕ} → All P (x ∷ xs) → All P xs
All-tail (all_cons p ps) = ps

All-append_parts : {P : ℕ → Type 0} (xs ys : List ℕ) → All P (xs ++ ys) → All P xs × All P ys
All-append_parts [] ys q = (all_nil, q)
All-append_parts (x ∷ xs) ys (all_cons p q) =
    let rest = All-append_parts xs ys q in (all_cons p rest.0, rest.1)

module _ (mitigations : Mitigations) (key : FreeListKey) (key_tweak : ℕ) where
  -- From the word at `c` on, the objects `xs`, each one's back pointer signed; the next pointer to
  -- store is at `e`.
  unfoldable pub Segment : Memory → ℕ → List ℕ → ℕ → Type 0
  Segment m c [] e = e ≡ c
  Segment m c (x ∷ xs) e =
      (m c ≡ code_next mitigations key key_tweak x)
      × (mitigations.freelist_backward_edge ≡ true
          → m (prev_field x) ≡ signed_prev mitigations key key_tweak c x)
      × Segment m x xs e

  -- The last word is the head's or the last object's.
  pub last_apart :
      {P : ℕ → Type 0} (m : Memory) (c : ℕ) (xs : List ℕ) (e : ℕ)
      → Segment m c xs e
      → P c
      → All P xs
      → P e
  unfolding Segment
  last_apart {P} m c [] e s pc all = let at_c : e ≡ c = s in rw at_c pc
  last_apart {P} m c (x ∷ xs) e s pc (all_cons px pxs) = last_apart {P = P} m x xs e s.2 px pxs

  -- A store outside the list.
  pub Segment-store_outside :
      (m : Memory) (c : ℕ) (xs : List ℕ) (e a v : ℕ)
      → c ≢ a
      → All (λ x. (x ≢ a) × (prev_field x ≢ a)) xs
      → Segment m c xs e
      → Segment (store m a v) c xs e
  unfolding Segment
  Segment-store_outside m c [] e a v c_a all s = s
  Segment-store_outside m c (x ∷ xs) e a v c_a (all_cons x_a xs_a) s = (
    store_other m a v c c_a ∙ s.0,
    (λ on. store_other m a v (prev_field x) x_a.1 ∙ s.1 on),
    Segment-store_outside m x xs e a v x_a.0 xs_a s.2,
  )

  pub Spread-All : (c : ℕ) (xs : List ℕ) → Spread c xs → All (Apart c) xs
  unfolding Spread
  Spread-All c [] spread = all_nil
  Spread-All c (x ∷ xs) spread = spread.0

  -- Of a later object, the word at its address is neither that at `c` nor the second of `x`.
  end_words :
      (c x : ℕ) (xs : List ℕ)
      → All (Apart c) xs
      → All (Apart x) xs
      → All (λ e. (c ≢ e) × (prev_field x ≢ e)) xs
  end_words c x [] all_nil all_nil = all_nil
  end_words c x (y ∷ ys) (all_cons c_y c_ys) (all_cons x_y x_ys) =
      all_cons ((λ h. absurd (grind (arith, c_y, h))), (λ h. absurd (grind (arith, x_y, h))))
        (end_words c x ys c_ys x_ys)

  -- A store of the next pointer at the end.
  pub Segment-store_end :
      (m : Memory) (c : ℕ) (xs : List ℕ) (e v : ℕ)
      → Spread c xs
      → Segment m c xs e
      → Segment (store m e v) c xs e
  unfolding Segment Spread
  Segment-store_end m c [] e v spread s = s
  Segment-store_end m c (x ∷ xs) e v (all_cons c_x c_xs, spread) s =
      let words =
        last_apart {P = λ t. (c ≢ t) × (prev_field x ≢ t)} m x xs e s.2
          ((λ h. absurd (grind (arith, c_x, h))), (λ h. absurd (omega arith)))
          (end_words c x xs c_xs (Spread-All x xs spread)) in
      (
        store_other m e v c words.0 ∙ s.0,
        (λ on. store_other m e v (prev_field x) words.1 ∙ s.1 on),
        Segment-store_end m x xs e v spread s.2,
      )

  -- Two segments with a signed link between them are one.
  pub Segment-join :
      (m : Memory) (c : ℕ) (xs : List ℕ) (e : ℕ) (ys : List ℕ) (f : ℕ)
      → Segment m c xs e
      → Segment m e ys f
      → Segment m c (xs ++ ys) f
  unfolding Segment
  Segment-join m c [] e ys f s t = let at_c : e ≡ c = s in rw at_c at t
  Segment-join m c (x ∷ xs) e ys f s t = (s.0, s.1, Segment-join m x xs e ys f s.2 t)

  pub Spread-append :
      (c : ℕ) (xs zs : List ℕ)
      → Spread c (xs ++ zs)
      → Spread c xs × All (Apart c) zs × All (λ x. All (Apart x) zs) xs
  unfolding Spread
  Spread-append c [] zs spread = (tt, Spread-All c zs spread, all_nil)
  Spread-append c (x ∷ xs) zs (all_cons c_x c_rest, rest) =
      let (spread_xs, x_zs, xs_zs) = Spread-append x xs zs rest in
      let (c_xs, c_zs) = All-append_parts xs zs c_rest in
      ((all_cons c_x c_xs, spread_xs), c_zs, all_cons x_zs xs_zs)

  pub Spread-tail :
      (c : ℕ) (xs : List ℕ) (n : ℕ) (ys : List ℕ) → Spread c (xs ++ n ∷ ys) → Spread n ys
  unfolding Spread
  Spread-tail c [] n ys spread = spread.1
  Spread-tail c (x ∷ xs) n ys spread = Spread-tail x xs n ys spread.1

  -- The second word of an object apart from a list's is outside of it.
  pub second_outside :
      (n : ℕ) (xs : List ℕ)
      → All (λ x. Apart x n) xs
      → All (λ x. (x ≢ prev_field n) × (prev_field x ≢ prev_field n)) xs
  second_outside n [] all_nil = all_nil
  second_outside n (x ∷ xs) (all_cons p ps) =
      all_cons ((λ h. absurd (grind (arith, p, h))), (λ h. absurd (grind (arith, p, h))))
        (second_outside n xs ps)

  pub first_outside :
      (e : ℕ) (xs : List ℕ) → All (Apart e) xs → All (λ x. (x ≢ e) × (prev_field x ≢ e)) xs
  first_outside e [] all_nil = all_nil
  first_outside e (x ∷ xs) (all_cons p ps) =
      all_cons ((λ h. absurd (grind (arith, p, h))), (λ h. absurd (grind (arith, p, h))))
        (first_outside e xs ps)

  abbrev signed : Memory → ℕ → ℕ → Memory
  signed m c n =
      if mitigations.freelist_backward_edge
      then store m (prev_field n) (signed_prev mitigations key key_tweak c n)
      else m

  -- Signing an object outside a list, with the mitigation or without.
  pub Segment-signed :
      (b : Bool) (m : Memory) (c : ℕ) (xs : List ℕ) (e n v : ℕ)
      → c ≢ prev_field n
      → All (λ x. Apart x n) xs
      → Segment m c xs e
      → Segment (if b then store m (prev_field n) v else m) c xs e
  Segment-signed true m c xs e n v c_n xs_n s =
      Segment-store_outside m c xs e (prev_field n) v c_n (second_outside n xs xs_n) s
  Segment-signed false m c xs e n v c_n xs_n s = s

  heads : (n : ℕ) (ys xs : List ℕ) → All (λ x. All (Apart x) (n ∷ ys)) xs → All (λ x. Apart x n) xs
  heads n ys [] all_nil = all_nil
  heads n ys (x ∷ xs) (all_cons (all_cons p _) ps) = all_cons p (heads n ys xs ps)

  pub flip : (n : ℕ) (xs : List ℕ) → All (Apart n) xs → All (λ x. Apart x n) xs
  flip n [] all_nil = all_nil
  flip n (x ∷ xs) (all_cons p ps) = all_cons (grind (arith, p)) (flip n xs ps)

  -- `store_next` of the first object of a segment at the end of another joins the two.
  pub Segment-store_next :
      (m : Memory) (c : ℕ) (xs : List ℕ) (e n : ℕ) (ys : List ℕ) (f : ℕ)
      → Spread c (xs ++ n ∷ ys)
      → Segment m c xs e
      → Segment m n ys f
      → Segment (store_next mitigations key key_tweak m e n) c (xs ++ n ∷ ys) f
  unfolding store_next Segment Spread
  Segment-store_next m c xs e n ys f spread s t =
      let (spread_xs, c_zs, xs_zs) = Spread-append c xs (n ∷ ys) spread in
      let e_zs = last_apart {P = λ a. All (Apart a) (n ∷ ys)} m c xs e s c_zs xs_zs in
      let e_n = All-head e_zs in
      let c_n = All-head c_zs in
      let n_ys = Spread-All n ys (Spread-tail c xs n ys spread) in
      let first =
        Segment-store_end (signed m e n) c xs e (code_next mitigations key key_tweak n) spread_xs (
          Segment-signed mitigations.freelist_backward_edge m c xs e n _
            (λ h. absurd (grind (arith, c_n, h))) (heads n ys xs xs_zs) s) in
      let second =
        Segment-store_outside (signed m e n) n ys f e (code_next mitigations key key_tweak n)
          (λ h. absurd (grind (arith, e_n, h))) (first_outside e ys (All-tail e_zs))
          (Segment-signed mitigations.freelist_backward_edge m n ys f n _
            (λ h. absurd (omega arith)) (flip n ys n_ys) t) in
      Segment-join _ c xs e (n ∷ ys) f first (
        store_same (signed m e n) e (code_next mitigations key key_tweak n),
        (λ on.
            store_other (signed m e n) e _ (prev_field n) (λ h. absurd (grind (arith, e_n, h)))
            ∙ ap
                (λ (b : Bool).
                  (if b
                      then store m (prev_field n) (signed_prev mitigations key key_tweak e n)
                      else m)
                    (prev_field n))
                on
            ∙ store_same m (prev_field n) _),
        second,
      )
