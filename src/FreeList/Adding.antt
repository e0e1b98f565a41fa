-- ===== src/FreeList/Adding.antt =====
-- src/snmalloc/mem/freelist.h: `Builder::add` and `Builder::close` on a builder's two lists.
use snmalloc.Base.{ℕ, ◌+◌, ◌<◌, ◌≡◌, ◌≢◌, inl, inr, refl, sym, arith}
use snmalloc.Base.{◌==◌, if◌then◌else◌, Bool-cases, List, [], ◌∷◌, ◌++◌}
use snmalloc.Base.{All, all_nil, all_cons, length}
use snmalloc.FreeList.{Memory, Mitigations, FreeListKey, nullptr, uint16}
use snmalloc.FreeList.{Queue, Builder, queue_add, queue_init, builder_init, add}
use snmalloc.FreeList.Segment.{Apart, Spread, Segment, flip}
use snmalloc.FreeList.Building.{IsBuilder, Clear, queue_add-IsQueue, store_next-Clear, All-append}

Spread-snoc :
    (c : ℕ) (xs : List ℕ) (n : ℕ)
    → Spread c xs
    → Apart c n
    → All (λ x. Apart x n) xs
    → Spread c (xs ++ n ∷ [])
unfolding Spread
Spread-snoc c [] n spread c_n all_nil = (all_cons c_n all_nil, tt)
Spread-snoc c (x ∷ xs) n (c_xs, spread) c_n (all_cons x_n xs_n) =
    (All-snoc (x ∷ xs) n c_xs c_n, Spread-snoc x xs n spread x_n xs_n)
  where
    All-snoc : {P : ℕ → Type 0} (ys : List ℕ) (y : ℕ) → All P ys → P y → All P (ys ++ y ∷ [])
    All-snoc [] y all_nil p = all_cons p all_nil
    All-snoc (z ∷ ys) y (all_cons q qs) p = all_cons q (All-snoc ys y qs p)

-- An object that is apart from all that a builder has.
pub record IsNew (n : ℕ) (b : Builder) (xs ys : List ℕ) : Type 0 where
  pub some_n : n ≢ nullptr
  pub head_0_n : Apart b.list_0.head n
  pub head_1_n : Apart b.list_1.head n
  pub n_xs : All (Apart n) xs
  pub n_ys : All (Apart n) ys

module _ (mitigations : Mitigations) (key : FreeListKey) (key_tweak : ℕ) where
  Clear-add :
      (q q2 : Queue) (xs : List ℕ) (r : Queue) (ys : List ℕ) (n : ℕ)
      → q2.head ≡ q.head
      → Clear mitigations key key_tweak q xs r ys
      → Apart r.head n
      → All (Apart n) ys
      → Clear mitigations key key_tweak q2 (xs ++ n ∷ []) r ys
  unfolding Clear
  Clear-add q q2 xs r ys n same (heads, q_ys, xs_ys) r_n n_ys = rw same (
    heads,
    q_ys,
    All-append mitigations key key_tweak xs (n ∷ []) xs_ys (all_cons (r_n, n_ys) all_nil),
  )

  Clear-added :
      (r : Queue) (ys : List ℕ) (q q2 : Queue) (xs : List ℕ) (n : ℕ)
      → q2.head ≡ q.head
      → Clear mitigations key key_tweak r ys q xs
      → Apart r.head n
      → All (λ y. Apart y n) ys
      → Clear mitigations key key_tweak r ys q2 (xs ++ n ∷ [])
  unfolding Clear
  Clear-added r ys q q2 xs n same (heads, r_xs, ys_xs) r_n ys_n = rw same (
    heads,
    All-append mitigations key key_tweak xs (n ∷ []) r_xs (all_cons r_n all_nil),
    zip ys ys_xs ys_n,
  )
    where
      zip :
          (zs : List ℕ)
          → All (λ y. Apart q.head y × All (Apart y) xs) zs
          → All (λ y. Apart y n) zs
          → All (λ y. Apart q.head y × All (Apart y) (xs ++ n ∷ [])) zs
      zip [] all_nil all_nil = all_nil
      zip (z ∷ zs) (all_cons (q_z, z_xs) rest) (all_cons z_n zs_n) =
          all_cons
            (q_z, All-append mitigations key key_tweak xs (n ∷ []) z_xs (all_cons z_n all_nil))
            (zip zs rest zs_n)

  -- A builder whose two lists hold `xs` and `ys`, no two objects or heads overlapping in memory,
  -- and an object apart from them all that is not null; the lists stay shorter than `2 ^ 16`. After
  -- `add` the list that the bit selects holds the object as its last, and the other is as it was.
  pub add-IsBuilder :
      (m : Memory) (b : Builder) (xs ys : List ℕ) (n index : ℕ)
      → IsBuilder mitigations key key_tweak m b xs ys
      → IsNew n b xs ys
      → length xs + 1 < uint16
      → length ys + 1 < uint16
      → let added = add mitigations key key_tweak m b n index in
        IsBuilder mitigations key key_tweak
          (added.0)
          (added.1)
          (if index == 0 then xs ++ n ∷ [] else xs)
          (if index == 0 then ys else ys ++ n ∷ [])
  unfolding add queue_add
  add-IsBuilder m b xs ys n index ok new small_xs small_ys = elim (Bool-cases (index == 0)) [
    | inl at_0 ↦ rw at_0 (record {
      queue_0 =
          queue_add-IsQueue mitigations key key_tweak m b.list_0 xs n ok.queue_0 new.some_n
            (Spread-snoc b.list_0.head xs n ok.queue_0.spread new.head_0_n
              (flip mitigations key key_tweak n xs new.n_xs))
            small_xs;
      queue_1 =
          store_next-Clear mitigations key key_tweak m b.list_0 xs b.list_1 ys n ok.queue_0
            ok.queue_1 ok.clear_0 new.head_1_n new.n_ys;
      clear_0 = Clear-add b.list_0 _ xs b.list_1 ys n refl ok.clear_0 new.head_1_n new.n_ys;
      clear_1 =
          Clear-added b.list_1 ys b.list_0 _ xs n refl ok.clear_1 new.head_1_n
            (flip mitigations key key_tweak n ys new.n_ys);
    })
    | inr at_1 ↦ rw at_1 (record {
      queue_0 =
          store_next-Clear mitigations key key_tweak m b.list_1 ys b.list_0 xs n ok.queue_1
            ok.queue_0 ok.clear_1 new.head_0_n new.n_xs;
      queue_1 =
          queue_add-IsQueue mitigations key key_tweak m b.list_1 ys n ok.queue_1 new.some_n
            (Spread-snoc b.list_1.head ys n ok.queue_1.spread new.head_1_n
              (flip mitigations key key_tweak n ys new.n_ys))
            small_ys;
      clear_0 =
          Clear-added b.list_0 xs b.list_1 _ ys n refl ok.clear_0 new.head_0_n
            (flip mitigations key key_tweak n xs new.n_xs);
      clear_1 = Clear-add b.list_1 _ ys b.list_0 xs n refl ok.clear_1 new.head_0_n new.n_xs;
    })
  ]

  -- A builder that has been initialised holds nothing.
  pub builder_init-IsBuilder :
      (m : Memory) (b : Builder) (slab : ℕ)
      → b.list_1.head ≢ b.list_0.head
      → let fresh = builder_init mitigations key key_tweak m b slab in
        IsBuilder mitigations key key_tweak (fresh.0) (fresh.1) [] []
  unfolding builder_init queue_init Segment Spread Clear
  builder_init-IsBuilder m b slab heads = record {
    queue_0 = record {
      spread = tt;
      nonnull = all_nil;
      linked = refl;
      counted = refl;
      small = omega arith;
    };
    queue_1 = record {
      spread = tt;
      nonnull = all_nil;
      linked = refl;
      counted = refl;
      small = omega arith;
    };
    clear_0 = (heads, all_nil, all_nil);
    clear_1 = ((λ h. heads (sym h)), all_nil, all_nil);
  }
