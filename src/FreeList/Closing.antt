-- ===== src/FreeList/Closing.antt =====
-- src/snmalloc/mem/freelist.h: `Builder::close`, and what its iterator gives.
use snmalloc.Base.{ℕ, ◌≡◌, inl, inr, refl, ap, ◌∙◌, arith}
use snmalloc.Base.{ltb, if◌then◌else◌, Bool-cases, List, [], ◌∷◌}
use snmalloc.Base.{All, all_nil, all_cons, length, some}
use snmalloc.FreeList.{Memory, Mitigations, FreeListKey, prev_field, code_next, nullptr}
use snmalloc.FreeList.{
  Queue, Builder, queue_close, store_null, read_next, read_head, get_fake_signed_prev, close,
  take_all,
}
use snmalloc.FreeList.Words.{store_same}
use snmalloc.FreeList.Segment.{
  Apart, Spread, Segment, Spread-All, first_outside, second_outside, flip, Segment-store_end,
  Segment-store_outside,
}
use snmalloc.FreeList.Iterate.{Outside, Pairs, Segment-Iterates, take_all-lem}
use snmalloc.FreeList.Building.{IsQueue, IsBuilder, Clear, Clear-last}

module _ (mitigations : Mitigations) (key : FreeListKey) (key_tweak : ℕ) where
  Spread-Pairs : (c : ℕ) (xs : List ℕ) → Spread c xs → Pairs xs
  unfolding Spread Pairs
  Spread-Pairs c [] spread = tt
  Spread-Pairs c (x ∷ xs) (c_xs, spread) =
      (Spread-All mitigations key key_tweak x xs spread, Spread-Pairs x xs spread)

  -- Two memories that agree on the words of a list.
  Segment-agree :
      (m m2 : Memory) (c : ℕ) (ys : List ℕ) (f : ℕ)
      → m2 c ≡ m c
      → All (λ y. (m2 y ≡ m y) × (m2 (prev_field y) ≡ m (prev_field y))) ys
      → Segment mitigations key key_tweak m c ys f
      → Segment mitigations key key_tweak m2 c ys f
  unfolding Segment
  Segment-agree m m2 c [] f same all s = s
  Segment-agree m m2 c (y ∷ ys) f same (all_cons (first, second) rest) s =
      (same ∙ s.0, (λ on. second ∙ s.1 on), Segment-agree m m2 y ys f first rest s.2)

  agree-Outside :
      (m m2 : Memory) (xs : List ℕ)
      → ((a : ℕ) → Outside a xs → m2 a ≡ m a)
      → (h : ℕ) (ys : List ℕ) → All (λ y. Apart h y × All (Apart y) xs) ys
      → All (λ y. (m2 y ≡ m y) × (m2 (prev_field y) ≡ m (prev_field y))) ys
  unfolding Outside
  agree-Outside m m2 xs agree h [] all_nil = all_nil
  agree-Outside m m2 xs agree h (y ∷ ys) (all_cons (h_y, y_xs) rest) =
      all_cons
        (
          agree y (first_outside mitigations key key_tweak y xs y_xs),
          agree (prev_field y) (
              second_outside mitigations key key_tweak y xs
                (flip mitigations key key_tweak y xs y_xs)),
        )
        (agree-Outside m m2 xs agree h ys rest)

  -- Closing a list and taking all of it gives its objects in order; the list is left empty, and
  -- another list as it was.
  queue_close-lem :
      (m : Memory) (q : Queue) (xs : List ℕ) (r : Queue) (ys : List ℕ)
      → IsQueue mitigations key key_tweak m q xs
      → IsQueue mitigations key key_tweak m r ys
      → Clear mitigations key key_tweak q xs r ys
      → Clear mitigations key key_tweak r ys q xs
      → let closed = queue_close mitigations key key_tweak m q in
        (m2 : Memory) × (take_all mitigations key key_tweak (length xs) (closed.0) (closed.1)
          ≡ some (xs, m2))
        × IsQueue mitigations key key_tweak m2 (closed.2) []
        × IsQueue mitigations key key_tweak m2 r ys
  unfolding queue_close store_null read_next read_head get_fake_signed_prev Clear Segment Spread
      Outside
  queue_close-lem m q xs r ys ok_q ok_r (heads, q_ys, xs_ys) (heads_2, r_xs, ys_xs) =
      let t = store_null mitigations key key_tweak m q.last in
      let ended =
        Segment-store_end mitigations key key_tweak m q.head xs q.last
          (code_next mitigations key key_tweak nullptr) ok_q.spread ok_q.linked in
      let starts =
        Segment-Iterates mitigations key key_tweak t q.head xs q.last
          (get_fake_signed_prev mitigations key key_tweak t q) ended ok_q.nonnull
          (store_same m q.last _) (λ on. refl) in
      let (m2, taken, others) =
        take_all-lem mitigations key key_tweak (read_head mitigations key key_tweak t q)
          (get_fake_signed_prev mitigations key key_tweak t q) xs t starts
          (Spread-Pairs q.head xs ok_q.spread) in
      let (r_last, last_ys) =
        Clear-last mitigations key key_tweak m q xs r ys ok_q (heads, q_ys, xs_ys) in
      let kept =
        Segment-store_outside mitigations key key_tweak m r.head ys r.last q.last
          (code_next mitigations key key_tweak nullptr) r_last
          (first_outside mitigations key key_tweak q.last ys last_ys) ok_r.linked in
      (
        m2,
        taken,
        record {
          spread = tt;
          nonnull = all_nil;
          linked = refl;
          counted = refl;
          small = omega arith;
        },
        record {
          spread = ok_r.spread;
          nonnull = ok_r.nonnull;
          linked =
              Segment-agree t m2 r.head ys r.last
                (others r.head (first_outside mitigations key key_tweak r.head xs r_xs))
                (agree-Outside t m2 xs others q.head ys ys_xs) kept;
          counted = ok_r.counted;
          small = ok_r.small;
        },
      )

  -- A builder whose two lists hold `xs` and `ys`, no two objects or heads overlapping in memory.
  -- `close` ends the list with more objects, the second one when they are as long: taking from the
  -- iterator until it is empty passes every check and gives the objects in the order in which they
  -- were added; the number returned is that of the other list, which the builder still holds, in
  -- the memory that the taking leaves, beside an empty one.
  pub close_lem :
      (m : Memory) (b : Builder) (xs ys : List ℕ)
      → IsBuilder mitigations key key_tweak m b xs ys
      → let closed = close mitigations key key_tweak m b in
        let first = ltb (length ys) (length xs) in
        (m2 : Memory) × (take_all mitigations key key_tweak
            (length (if first then xs else ys))
            (closed.1)
            (closed.2)
          ≡ some (if first then xs else ys, m2))
        × (closed.0 ≡ length (if first then ys else xs))
        × IsBuilder mitigations key key_tweak m2
            (closed.3)
            (if first then [] else xs)
            (if first then ys else [])
  unfolding close Clear queue_close
  close_lem m b xs ys ok =
      let same : ltb b.list_1.length b.list_0.length ≡ ltb (length ys) (length xs) =
        ap (λ (t : ℕ). ltb t b.list_0.length) ok.queue_1.counted
        ∙ ap (ltb (length ys)) ok.queue_0.counted in
      elim (Bool-cases (ltb (length ys) (length xs))) [
        | inl longer ↦
            let (m2, taken, emptied, kept) =
              queue_close-lem m b.list_0 xs b.list_1 ys ok.queue_0 ok.queue_1 ok.clear_0
                ok.clear_1 in
            rw (same, longer)
              (
                m2,
                taken,
                ok.queue_1.counted,
                record {
                  queue_0 = emptied;
                  queue_1 = kept;
                  clear_0 = (ok.clear_0.0, ok.clear_0.1, all_nil);
                  clear_1 = (ok.clear_1.0, all_nil, heads_only b.list_0.head ys xs ok.clear_1.2);
                },
              )
        | inr shorter ↦
            let (m2, taken, emptied, kept) =
              queue_close-lem m b.list_1 ys b.list_0 xs ok.queue_1 ok.queue_0 ok.clear_1
                ok.clear_0 in
            rw (same, shorter)
              (
                m2,
                taken,
                ok.queue_0.counted,
                record {
                  queue_0 = kept;
                  queue_1 = emptied;
                  clear_0 = (ok.clear_0.0, all_nil, heads_only b.list_1.head xs ys ok.clear_0.2);
                  clear_1 = (ok.clear_1.0, ok.clear_1.1, all_nil);
                },
              )
      ]
    where
      heads_only :
          (h : ℕ) (us vs : List ℕ)
          → All (λ y. Apart h y × All (Apart y) vs) us
          → All (λ y. Apart h y × All (Apart y) []) us
      heads_only h [] vs all_nil = all_nil
      heads_only h (u ∷ us) vs (all_cons (h_u, u_vs) rest) =
          all_cons (h_u, all_nil) (heads_only h us vs rest)
