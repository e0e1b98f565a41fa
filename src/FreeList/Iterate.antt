-- ===== src/FreeList/Iterate.antt =====
-- src/snmalloc/mem/freelist.h: taking every object of a signed list from an iterator.
use snmalloc.Base.{ℕ, ◌≡◌, ◌≢◌, refl, ap, sym, ◌∙◌, arith}
use snmalloc.Base.{Bool, true, false, ◌==◌, ◌||◌, not, if◌then◌else◌, List, [], ◌∷◌}
use snmalloc.Base.{All, all_cons, length, some, ==_iff}
use mathlib.Core.Option
use snmalloc.FreeList.{
  Memory, store, Mitigations, FreeListKey, prev_field, signed_prev, code_next, read_next, nullptr,
}
use snmalloc.FreeList.{iter_take, take_all, cleanup}
use snmalloc.FreeList.Words.{store_other, code_next_inverse}
use snmalloc.FreeList.Segment.{
  Apart, Segment, first_outside, second_outside, flip, All-head, All-tail,
}

-- No object of the list has the word at an address.
unfoldable pub Outside : ℕ → List ℕ → Type 0
Outside a xs = All (λ x. (x ≢ a) × (prev_field x ≢ a)) xs

-- The objects are apart from each other.
unfoldable pub Pairs : List ℕ → Type 0
Pairs [] = Unit
Pairs (x ∷ xs) = All (Apart x) xs × Pairs xs

module _ (mitigations : Mitigations) (key : FreeListKey) (key_tweak : ℕ) where
  -- The signature that an iterator expects next.
  abbrev pub next_prev : ℕ → ℕ → ℕ → ℕ
  next_prev c n p =
      if mitigations.freelist_backward_edge then signed_prev mitigations key key_tweak c n else p

  -- What an iterator's two words promise: the objects, each signed as expected.
  unfoldable pub Iterates : Memory → ℕ → ℕ → List ℕ → Type 0
  Iterates m c p [] = c ≡ nullptr
  Iterates m c p (x ∷ xs) =
      (c ≡ x)
      × (x ≢ nullptr)
      × (mitigations.freelist_backward_edge ≡ true → m (prev_field x) ≡ p)
      × Iterates m (read_next mitigations key key_tweak m x)
          (next_prev x (read_next mitigations key key_tweak m x) p) xs

  -- A terminated segment, from the head with its signature.
  pub Segment-Iterates :
      (m : Memory) (c : ℕ) (xs : List ℕ) (e p : ℕ)
      → Segment mitigations key key_tweak m c xs e
      → All (λ x. x ≢ nullptr) xs
      → m e ≡ code_next mitigations key key_tweak nullptr
      → (mitigations.freelist_backward_edge ≡ true
          → p ≡ signed_prev mitigations key key_tweak c (read_next mitigations key key_tweak m c))
      → Iterates m (read_next mitigations key key_tweak m c) p xs
  unfolding Segment Iterates read_next
  Segment-Iterates m c [] e p s nonnull ends signature =
      ap (code_next mitigations key key_tweak) (ap m (sym s) ∙ ends)
      ∙ code_next_inverse mitigations key key_tweak nullptr
  Segment-Iterates m c (x ∷ xs) e p s (all_cons x_some xs_some) ends signature = (
    first,
    x_some,
    (λ on. s.1 on ∙ ap (signed_prev mitigations key key_tweak c) (sym first) ∙ sym (signature on)),
    Segment-Iterates m x xs e _ s.2 xs_some ends (λ on.
        ap
          (λ (b : Bool).
            if b
            then signed_prev mitigations key key_tweak x (read_next mitigations key key_tweak m x)
            else p)
          on),
  )
    where
      first : code_next mitigations key key_tweak (m c) ≡ x
      first =
          ap (code_next mitigations key key_tweak) s.0
          ∙ code_next_inverse mitigations key key_tweak x

  Iterates-store :
      (m : Memory) (c p : ℕ) (xs : List ℕ) (a v : ℕ)
      → Outside a xs
      → Iterates m c p xs
      → Iterates (store m a v) c p xs
  unfolding Iterates read_next Outside
  Iterates-store m c p [] a v out it = it
  Iterates-store m c p (x ∷ xs) a v (all_cons x_out xs_out) it = (
    it.0,
    it.1,
    (λ on. store_other m a v (prev_field x) x_out.1 ∙ it.2 on),
    rw (store_other m a v x x_out.0) (
        Iterates-store m (read_next mitigations key key_tweak m x)
          (next_prev x (read_next mitigations key key_tweak m x) p) xs a v xs_out it.3),
  )

  Iterates-cleanup :
      (clear backward : Bool) (m : Memory) (c p n : ℕ) (xs : List ℕ)
      → All (Apart n) xs
      → Iterates m c p xs
      → Iterates
          (if clear
            then (if backward then store (store m n 0) (prev_field n) 0 else store m n 0)
            else m)
          c
          p
          xs
  unfolding Outside
  Iterates-cleanup false backward m c p n xs n_xs it = it
  Iterates-cleanup true false m c p n xs n_xs it =
      Iterates-store m c p xs n 0 (first_outside mitigations key key_tweak n xs n_xs) it
  Iterates-cleanup true true m c p n xs n_xs it =
      Iterates-store (store m n 0) c p xs (prev_field n) 0
        (second_outside mitigations key key_tweak n xs (flip mitigations key key_tweak n xs n_xs))
        (Iterates-store m c p xs n 0 (first_outside mitigations key key_tweak n xs n_xs) it)

  cleanup-other :
      (clear backward : Bool) (m : Memory) (n a : ℕ)
      → n ≢ a
      → prev_field n ≢ a
      → (if clear
            then (if backward then store (store m n 0) (prev_field n) 0 else store m n 0)
            else m)
          a
        ≡ m a
  cleanup-other false backward m n a n_a p_a = refl
  cleanup-other true false m n a n_a p_a = store_other m n 0 a (λ h. n_a (sym h))
  cleanup-other true true m n a n_a p_a =
      store_other (store m n 0) (prev_field n) 0 a (λ h. p_a (sym h))
      ∙ store_other m n 0 a (λ h. n_a (sym h))

  pub checked : (b : Bool) (s p : ℕ) → (b ≡ true → s ≡ p) → (not b || (s == p)) ≡ true
  checked false s p h = refl
  checked true s p h = (==_iff s p).1 (h refl)

  -- The iterator gives every object once, in order, and touches only their words.
  pub take_all-lem :
      (c p : ℕ) (xs : List ℕ) (m : Memory)
      → Iterates m c p xs
      → Pairs xs
      → (m2 : Memory) × (take_all mitigations key key_tweak
            (length xs)
            m
            (record { curr = c; prev = p })
          ≡ some (xs, m2))
        × ((a : ℕ) → Outside a xs → m2 a ≡ m a)
  unfolding Iterates take_all iter_take Outside cleanup Pairs
  take_all-lem c p [] m it pairs =
      let ended : (c == nullptr) ≡ true = (==_iff c nullptr).1 it in
      (m, rw ended refl, λ a out. refl)
  take_all-lem c p (x ∷ xs) m it (x_xs, pairs) =
      let more : (x == nullptr) ≡ false = ground (arith, it.1) in
      let next = read_next mitigations key key_tweak m x in
      let (m2, taken, others) =
        take_all-lem next (next_prev x next p) xs (cleanup mitigations key key_tweak m x)
          (Iterates-cleanup mitigations.clear_meta mitigations.freelist_backward_edge m next
            (next_prev x next p) x xs x_xs it.3)
          pairs in
      (
        m2,
        rw (it.0, more, checked mitigations.freelist_backward_edge (m (prev_field x)) p it.2)
            (ap (Option.map (λ (t : List ℕ × Memory). (x ∷ t.0, t.1))) taken),
        λ a out.
            others a (All-tail out)
            ∙ cleanup-other mitigations.clear_meta mitigations.freelist_backward_edge m x a
                ((All-head out).0) ((All-head out).1),
      )
