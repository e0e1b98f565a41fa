-- ===== src/FreeList/Building.antt =====
-- src/snmalloc/mem/freelist.h: `Builder::add`, `append_segment` and `extract_segment` on the lists
-- in memory.
use snmalloc.Base.{ℕ, suc, ◌+◌, ◌<◌, ◌≡◌, ◌≢◌, refl, ◌∙◌, arith}
use snmalloc.Base.{List, [], ◌∷◌, ◌++◌}
use snmalloc.Base.{All, all_nil, all_cons, length, length-append}
use snmalloc.FreeList.{Memory, Mitigations, FreeListKey, nullptr, uint16}
use snmalloc.FreeList.{Queue, Builder, store_next, queue_add, append_segment}
use snmalloc.FreeList.Segment.{
  Apart, Spread, Segment, last_apart, first_outside, flip, Segment-signed, Segment-store_outside,
  Segment-store_next,
}

module _ (mitigations : Mitigations) (key : FreeListKey) (key_tweak : ℕ) where
  -- A queue that holds the objects `xs`, in this order.
  pub record IsQueue (m : Memory) (q : Queue) (xs : List ℕ) : Type 0 where
    pub spread : Spread q.head xs
    pub nonnull : All (λ x. x ≢ nullptr) xs
    pub linked : Segment mitigations key key_tweak m q.head xs q.last
    pub counted : q.length ≡ length xs
    pub small : length xs < uint16

  pub All-append : {P : ℕ → Type 0} (xs ys : List ℕ) → All P xs → All P ys → All P (xs ++ ys)
  All-append [] ys all_nil q = q
  All-append (x ∷ xs) ys (all_cons p ps) q = all_cons p (All-append xs ys ps q)

  -- A segment given by its first and last object is appended to the list of a queue, when the
  -- objects are apart from the queue's and no more than a `uint16_t` counts; `add` is the case of
  -- one object.
  pub append_segment-IsQueue :
      (m : Memory) (q : Queue) (xs : List ℕ) (first : ℕ) (ys : List ℕ) (last size : ℕ)
      → IsQueue m q xs
      → Segment mitigations key key_tweak m first ys last
      → All (λ x. x ≢ nullptr) (first ∷ ys)
      → Spread q.head (xs ++ first ∷ ys)
      → size ≡ suc (length ys)
      → length xs + size < uint16
      → let appended = append_segment mitigations key key_tweak m q first last size in
        IsQueue (appended.0) (appended.1) (xs ++ first ∷ ys)
  unfolding append_segment
  append_segment-IsQueue m q xs first ys last size ok segment some_ys spread size_ys fits =
      let whole : length (xs ++ first ∷ ys) ≡ length xs + size =
        length-append xs (first ∷ ys) ∙ omega (arith, size_ys) in
      let sum : q.length + size ≡ length xs + size = omega (arith, ok.counted) in
      record {
        spread = spread;
        nonnull = All-append xs (first ∷ ys) ok.nonnull some_ys;
        linked =
            Segment-store_next mitigations key key_tweak m q.head xs q.last first ys last spread
              ok.linked segment;
        counted = omega (arith, whole, sum, fits);
        small = omega (arith, whole, fits);
      }

  pub queue_add-IsQueue :
      (m : Memory) (q : Queue) (xs : List ℕ) (n : ℕ)
      → IsQueue m q xs
      → n ≢ nullptr
      → Spread q.head (xs ++ n ∷ [])
      → length xs + 1 < uint16
      → let added = queue_add mitigations key key_tweak m q n in
        IsQueue (added.0) (added.1) (xs ++ n ∷ [])
  unfolding queue_add append_segment Segment
  queue_add-IsQueue m q xs n ok some_n spread fits =
      append_segment-IsQueue m q xs n [] n 1 ok refl (all_cons some_n all_nil) spread refl fits

  -- The stores into one queue leave another.
  store_next-IsQueue :
      (m : Memory) (q : Queue) (xs : List ℕ) (e n : ℕ)
      → IsQueue m q xs
      → q.head ≢ e
      → All (Apart e) xs
      → Apart q.head n
      → All (Apart n) xs
      → IsQueue (store_next mitigations key key_tweak m e n) q xs
  unfolding store_next
  store_next-IsQueue m q xs e n ok head_e e_xs head_n n_xs = record {
    spread = ok.spread;
    nonnull = ok.nonnull;
    linked =
        Segment-store_outside mitigations key key_tweak _ q.head xs q.last e _ head_e
          (first_outside mitigations key key_tweak e xs e_xs)
          (Segment-signed mitigations key key_tweak mitigations.freelist_backward_edge m q.head xs
            q.last n _ (λ h. absurd (grind (arith, head_n, h)))
            (flip mitigations key key_tweak n xs n_xs) ok.linked);
    counted = ok.counted;
    small = ok.small;
  }

  -- What one list is to another: its head and its objects are apart from the other's objects.
  unfoldable pub Clear : Queue → List ℕ → Queue → List ℕ → Type 0
  Clear q xs r ys =
      (r.head ≢ q.head) × (All (Apart q.head) ys) × All (λ x. Apart r.head x × All (Apart x) ys) xs

  -- The end of one list is apart from the other list.
  pub Clear-last :
      (m : Memory) (q : Queue) (xs : List ℕ) (r : Queue) (ys : List ℕ)
      → IsQueue m q xs
      → Clear q xs r ys
      → (r.head ≢ q.last) × All (Apart q.last) ys
  unfolding Clear
  Clear-last m q xs r ys ok (heads, q_ys, xs_ys) =
      last_apart mitigations key key_tweak {P = λ e. (r.head ≢ e) × All (Apart e) ys} m q.head xs
        q.last ok.linked (heads, q_ys) (each xs xs_ys)
    where
      each :
          (zs : List ℕ)
          → All (λ x. Apart r.head x × All (Apart x) ys) zs
          → All (λ e. (r.head ≢ e) × All (Apart e) ys) zs
      each [] all_nil = all_nil
      each (z ∷ zs) (all_cons (r_z, z_ys) rest) =
          all_cons ((λ h. absurd (grind (arith, r_z, h))), z_ys) (each zs rest)

  pub store_next-Clear :
      (m : Memory) (q : Queue) (xs : List ℕ) (r : Queue) (ys : List ℕ) (n : ℕ)
      → IsQueue m q xs
      → IsQueue m r ys
      → Clear q xs r ys
      → Apart r.head n
      → All (Apart n) ys
      → IsQueue (store_next mitigations key key_tweak m q.last n) r ys
  store_next-Clear m q xs r ys n ok_q ok_r clear head_n n_ys =
      let (head_e, e_ys) = Clear-last m q xs r ys ok_q clear in
      store_next-IsQueue m r ys q.last n ok_r head_e e_ys head_n n_ys

  -- A builder that holds the objects `xs` and `ys` in its two lists.
  pub record IsBuilder (m : Memory) (b : Builder) (xs ys : List ℕ) : Type 0 where
    pub queue_0 : IsQueue m b.list_0 xs
    pub queue_1 : IsQueue m b.list_1 ys
    pub clear_0 : Clear b.list_0 xs b.list_1 ys
    pub clear_1 : Clear b.list_1 ys b.list_0 xs
