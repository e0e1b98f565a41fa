-- ===== src/FreeList/Moving.antt =====
-- src/snmalloc/mem/freelist.h: a whole list moved from one builder to another by
-- `extract_segment` and `append_segment`.
use snmalloc.Base.{ℕ, ◌+◌, ◌<◌, ◌≡◌, ◌≢◌, refl, ap, ◌∙◌, arith}
use snmalloc.Base.{List, [], ◌∷◌, ◌++◌, All, all_nil, length}
use snmalloc.FreeList.{Memory, store, Mitigations, FreeListKey, code_next, uint16}
use snmalloc.FreeList.{Queue, queue_init, read_head, append_segment, extract_segment}
use snmalloc.FreeList.Words.{store_same, code_next_inverse}
use snmalloc.FreeList.Segment.{
  Apart, Spread, Segment, first_outside, Segment-store_outside, All-tail, All-head,
}
use snmalloc.FreeList.Building.{IsQueue, append_segment-IsQueue}

module _ (mitigations : Mitigations) (key : FreeListKey) (key_tweak : ℕ) where
  -- Two queues that hold `xs` and the objects `y ∷ ys`, of which and of the first one's head no
  -- two overlap, the second head apart from all; together they have fewer than `2 ^ 16` objects.
  -- The segment extracted from the second, appended to the first with its length, makes the first
  -- hold all of the objects in order, and leaves the second empty; its head then holds the address
  -- of its first object without the encoding.
  pub append_segment-extract_segment :
      (m : Memory) (q : Queue) (xs : List ℕ) (r : Queue) (y : ℕ) (ys : List ℕ)
      → IsQueue mitigations key key_tweak m q xs
      → IsQueue mitigations key key_tweak m r (y ∷ ys)
      → Spread q.head (xs ++ y ∷ ys)
      → q.head ≢ r.head
      → All (Apart r.head) xs
      → length xs + r.length < uint16
      → let out = extract_segment mitigations key key_tweak m r in
        let appended =
          append_segment mitigations key key_tweak (out.2) q (out.0) (out.1) r.length in
        IsQueue mitigations key key_tweak (appended.0) (appended.1) (xs ++ y ∷ ys)
        × IsQueue mitigations key key_tweak (out.2) (out.3) []
        × ((out.2) r.head ≡ y)
  unfolding extract_segment queue_init read_head Segment Spread
  append_segment-extract_segment m q xs r y ys ok_q ok_r spread heads r_xs fits =
      let first : code_next mitigations key key_tweak (m r.head) ≡ y =
        ap (code_next mitigations key key_tweak) ok_r.linked.0
        ∙ code_next_inverse mitigations key key_tweak y in
      let left : Memory = store m r.head y in
      let r_y = All-head ok_r.spread.0 in
      let ok_q2 : IsQueue mitigations key key_tweak left q xs = record {
        spread = ok_q.spread;
        nonnull = ok_q.nonnull;
        linked =
            Segment-store_outside mitigations key key_tweak m q.head xs q.last r.head y heads
              (first_outside mitigations key key_tweak r.head xs r_xs) ok_q.linked;
        counted = ok_q.counted;
        small = ok_q.small;
      } in
      let segment : Segment mitigations key key_tweak left y ys r.last =
        Segment-store_outside mitigations key key_tweak m y ys r.last r.head y
          (λ h. absurd (grind (arith, r_y, h)))
          (first_outside mitigations key key_tweak r.head ys (All-tail ok_r.spread.0))
          ok_r.linked.2 in
      rw first (
        append_segment-IsQueue mitigations key key_tweak left q xs y ys r.last r.length ok_q2
            segment ok_r.nonnull spread ok_r.counted fits,
        record {
          spread = tt;
          nonnull = all_nil;
          linked = refl;
          counted = refl;
          small = omega arith;
        },
        store_same m r.head y,
      )
