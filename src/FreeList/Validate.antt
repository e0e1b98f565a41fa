-- ===== src/FreeList/Validate.antt =====
-- src/snmalloc/mem/freelist.h: `Builder::validate` finds out whether a list in memory is well
-- signed and of the length recorded.
use snmalloc.Base.{ℕ, zero, suc, ◌+◌, ◌≤◌, ◌<◌, ◌≡◌, ◌≢◌, inl, inr, refl, ap, sym, ◌∙◌, arith}
use snmalloc.Base.{
  Bool, true, false, ◌==◌, ==_iff, ◌||◌, not, Bool-cases, Option-cases, List, [], ◌∷◌,
}
use snmalloc.Base.{length, some, if◌then◌else◌}
use snmalloc.FreeList.{Memory, Mitigations, FreeListKey, prev_field, signed_prev, code_next}
use snmalloc.FreeList.{Queue, read_next, read_head, get_fake_signed_prev, validate_from, validate}
use snmalloc.FreeList.Words.{code_next_inverse}
use snmalloc.FreeList.Segment.{Apart, Spread, Segment, last_apart, All-head, All-tail}
use snmalloc.FreeList.Iterate.{checked}
use snmalloc.FreeList.Building.{IsQueue}
use mathlib.Core.Option.{some-injective, none-ne-some}
use mathlib.Core.Bool.{true≢false}

module _ (mitigations : Mitigations) (key : FreeListKey) (key_tweak : ℕ) where
  -- The last object of a longer list is not the first.
  last_later :
      (m : Memory) (x : ℕ) (y : ℕ) (ys : List ℕ) (e : ℕ)
      → Spread x (y ∷ ys)
      → Segment mitigations key key_tweak m x (y ∷ ys) e
      → x ≢ e
  unfolding Segment Spread
  last_later m x y ys e (x_ys, spread) s =
      let apart =
        last_apart mitigations key key_tweak {P = Apart x} m y ys e s.2 (All-head x_ys)
          (All-tail x_ys) in
      λ h. absurd (grind (arith, apart, h))

  validate_from-Segment :
      (xs : List ℕ) (fuel : ℕ) (m : Memory) (q : Queue) (x p count : ℕ)
      → Spread x xs
      → Segment mitigations key key_tweak m x xs q.last
      → (mitigations.freelist_backward_edge ≡ true → m (prev_field x) ≡ p)
      → length xs < fuel
      → validate_from mitigations key key_tweak fuel m q x p count ≡ some (count + length xs)
  unfolding validate_from Segment Spread read_next
  validate_from-Segment xs zero m q x p count spread s signature enough = absurd (omega arith)
  validate_from-Segment [] (suc fuel) m q x p count spread s signature enough =
      let at_end : (x == q.last) ≡ true = (==_iff x q.last).1 (sym s) in
      rw
        (
          checked mitigations key key_tweak mitigations.freelist_backward_edge (m (prev_field x)) p
              signature,
          at_end,
        )
        (ap some (omega arith))
  validate_from-Segment (y ∷ ys) (suc fuel) m q x p count spread s signature enough =
      let on : (x == q.last) ≡ false = ground (arith, last_later m x y ys q.last spread s) in
      let next : code_next mitigations key key_tweak (m x) ≡ y =
        ap (code_next mitigations key key_tweak) s.0
        ∙ code_next_inverse mitigations key key_tweak y in
      rw
        (
          checked mitigations key key_tweak mitigations.freelist_backward_edge (m (prev_field x)) p
              signature,
          on,
          next,
        )
        (validate_from-Segment ys fuel m q y (signed_prev mitigations key key_tweak x y) (count + 1)
            spread.1 s.2 s.1 (omega arith)
          ∙ ap some (omega arith))

  check_passed : (b : Bool) (s p : ℕ) → (not b || (s == p)) ≡ true → b ≡ true → s ≡ p
  check_passed b s p h on = (==_iff s p).0 (rw on at h)

  -- What a run of the loop that passes has seen.
  validate_from_sound :
      (fuel : ℕ) (m : Memory) (q : Queue) (x p count n : ℕ)
      → validate_from mitigations key key_tweak fuel m q x p count ≡ some n
      → (xs : List ℕ) × Segment mitigations key key_tweak m x xs q.last
        × (n ≡ count + length xs)
        × (mitigations.freelist_backward_edge ≡ true → m (prev_field x) ≡ p)
  unfolding validate_from Segment read_next
  validate_from_sound zero m q x p count n h = absurd (none-ne-some n h)
  validate_from_sound (suc fuel) m q x p count n h =
      elim (Bool-cases (not mitigations.freelist_backward_edge || (m (prev_field x) == p))) [
        | inr failed ↦ absurd (none-ne-some n (rw failed at h))
        | inl passed ↦ elim (Bool-cases (x == q.last)) [
          | inl at_end ↦ (
            [],
            sym ((==_iff x q.last).0 at_end),
            sym (some-injective count n (rw (passed, at_end) at h)) ∙ omega arith,
            check_passed mitigations.freelist_backward_edge (m (prev_field x)) p passed,
          )
          | inr more ↦
              let y = code_next mitigations key key_tweak (m x) in
              let (ys, s, counted, signature) =
                validate_from_sound fuel m q y (signed_prev mitigations key key_tweak x y)
                  (count + 1) n (rw (passed, more) at h) in
              (
                y ∷ ys,
                (sym (code_next_inverse mitigations key key_tweak (m x)), signature, s),
                counted ∙ omega arith,
                check_passed mitigations.freelist_backward_edge (m (prev_field x)) p passed,
              )
        ]
      ]

  -- A check that the mitigation guards passes when it is off or the check does.
  off_or_checked : (b : Bool) {check : Bool} → check ≡ true → (if not b then true else check) ≡ true
  off_or_checked true h = h
  off_or_checked false h = refl

  was_checked : (b check : Bool) → b ≡ true → (if not b then true else check) ≡ true → check ≡ true
  was_checked true check on h = h
  was_checked false check on h = absurd (true≢false (sym on))

  -- Of a queue that holds objects of which no two overlap, correctly signed and counted, `validate`
  -- passes, whichever mitigations are on, with as many turns of its loop as there are objects.
  pub validate-IsQueue :
      (fuel : ℕ) (m : Memory) (q : Queue) (xs : List ℕ)
      → IsQueue mitigations key key_tweak m q xs
      → length xs ≤ fuel
      → validate mitigations key key_tweak fuel m q ≡ true
  unfolding validate read_head get_fake_signed_prev Segment Spread
  validate-IsQueue fuel m q [] ok enough =
      let emptied : (q.head == q.last) ≡ true = (==_iff q.head q.last).1 (sym ok.linked) in
      off_or_checked mitigations.freelist_teardown_validate
        (rw emptied ((==_iff q.length 0).1 ok.counted))
  validate-IsQueue fuel m q (x ∷ xs) ok enough =
      let some_in : (q.head == q.last) ≡ false =
        ground (arith, last_later m q.head x xs q.last ok.spread ok.linked) in
      let first : code_next mitigations key key_tweak (m q.head) ≡ x =
        ap (code_next mitigations key key_tweak) ok.linked.0
        ∙ code_next_inverse mitigations key key_tweak x in
      off_or_checked mitigations.freelist_teardown_validate (
        rw
          (
            some_in,
            first,
            validate_from-Segment xs fuel m q x (signed_prev mitigations key key_tweak q.head x) 1
                ok.spread.1 ok.linked.2 ok.linked.1 (omega arith),
          )
          ((==_iff _ q.length).1 (omega (arith, ok.counted))))

  -- When `validate` passes with its mitigation on, the memory holds a list of objects that starts at
  -- the head, ends at the recorded end, carries at every object the signature of its link if the
  -- backward edge is signed, and has the recorded length.
  pub validate_sound :
      (fuel : ℕ) (m : Memory) (q : Queue)
      → mitigations.freelist_teardown_validate ≡ true
      → validate mitigations key key_tweak fuel m q ≡ true
      → (xs : List ℕ) × Segment mitigations key key_tweak m q.head xs q.last
        × (q.length ≡ length xs)
  unfolding validate read_head get_fake_signed_prev Segment
  validate_sound fuel m q on guarded =
      let h = was_checked mitigations.freelist_teardown_validate _ on guarded in
      elim (Bool-cases (q.head == q.last)) [
        | inl emptied ↦
            ([], sym ((==_iff q.head q.last).0 emptied), (==_iff q.length 0).0 (rw emptied at h))
        | inr some_in ↦
            let x = code_next mitigations key key_tweak (m q.head) in
            elim (Option-cases (
              validate_from mitigations key key_tweak fuel m q x
                (signed_prev mitigations key key_tweak q.head x) 1)) [
                  | inl failed ↦ absurd (true≢false (sym (rw (some_in, failed) at h)))
                  | inr (n, passed) ↦
                      let (xs, s, counted, signature) =
                        validate_from_sound fuel m q x
                          (signed_prev mitigations key key_tweak q.head x) 1 n passed in
                      (
                        x ∷ xs,
                        (
                          sym (code_next_inverse mitigations key key_tweak (m q.head)),
                          signature,
                          s,
                        ),
                        sym ((==_iff n q.length).0 (rw (some_in, passed) at h))
                            ∙ counted
                            ∙ omega arith,
                      )
                ]
      ]
