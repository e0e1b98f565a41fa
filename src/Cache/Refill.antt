-- ===== src/Cache/Refill.antt =====
-- `small_refill`: a slab of the class or a new one gives its free objects to the fast free list.
use snmalloc.Base.{ℕ, ◌+◌, ◌-◌, ◌%◌, ◌^◌, ◌<◌, ◌≡◌, ◌⊎◌, refl, arith, Bool, true, false, ◌==◌}
use snmalloc.Base.{not, ltb, leb, ◌&&◌, Bool-cases, inl, inr, Option, none, some}
use snmalloc.Base.{List, [], ◌∷◌, all_cons, sum, length, Pick, pick_here, pick_there}
use snmalloc.Base.{All-Pick, length-Pick, sum-Pick}
use snmalloc.Sizeclass.{
  num_small_sizeclasses, sizeclass_to_slab_object_count, threshold_for_waking_slab,
}
use snmalloc.SlabMeta.{Slab, alloc_free_list, set_sleeping, initialise}
use snmalloc.SlabMeta.Counters.{IsAwake, IsAsleep, alloc_free_list_lem}
use snmalloc.Cache.{Cache, pop_back, pop, insert_slab, small_refill_slow, small_refill_from}
use snmalloc.Cache.{uncount, small_refill}
use snmalloc.Cache.Invariant.{IsCache, unused_count, sum-unused_count-le}

pop_back-Pick : (m : Slab) (ms : List Slab) → Pick (pop_back m ms).0 (pop_back m ms).1 (m ∷ ms)
unfolding pop_back
pop_back-Pick m [] = pick_here
pop_back-Pick m (n ∷ ns) = pick_there (pop_back-Pick n ns)

pop-Pick :
    (is_fifo : Bool) (m : Slab) (ms : List Slab)
    → Pick (pop is_fifo m ms).0 (pop is_fifo m ms).1 (m ∷ ms)
unfolding pop
pop-Pick true m ms = pick_here
pop-Pick false m ms = pop_back-Pick m ms

module _ (strict : Bool) (sc : ℕ) (small : sc < num_small_sizeclasses) where
  insert_slab-IsCache :
      (m : Slab) (still_active : Bool) (c : Cache)
      → IsCache strict sc c
      → ((still_active ≡ true) × IsAwake strict sc m)
        ⊎ ((still_active ≡ false) × IsAsleep strict sc m)
      → m.queued < sizeclass_to_slab_object_count strict sc
      → length c.available + length c.laden + 1 < 2 ^ 16
      → IsCache strict sc (insert_slab m still_active c)
  unfolding insert_slab sum unused_count
  insert_slab-IsCache m still_active c ok (inl (e, a)) some_out room =
      let add : (c.length + 1) % 2 ^ 16 ≡ c.length + 1 = omega (arith, ok.length_eq) in
      rw (e, add)
        (record {
          awake = all_cons a ok.awake;
          aside = ok.aside;
          length_eq = omega (arith, ok.length_eq);
          unused_eq = ground (arith, ok.unused_eq, a.counted);
          room = omega arith;
        })
  insert_slab-IsCache m still_active c ok (inr (e, a)) some_out room = rw e (record {
    awake = ok.awake;
    aside = all_cons (inl a) ok.aside;
    length_eq = ok.length_eq;
    unused_eq = ok.unused_eq;
    room = omega arith;
  })

  alloc_free_list-queued :
      (remaining : ℕ) (m : Slab) → (alloc_free_list strict sc remaining m).0.queued ≡ remaining
  unfolding alloc_free_list set_sleeping
  alloc_free_list-queued remaining m =
      elim (Bool-cases (leb (threshold_for_waking_slab strict sc) remaining)) [
        | inl e ↦ rw e refl
        | inr e ↦ rw e refl
      ]

  uncount-IsCache :
      (m : Slab) (rest : List Slab) (c : Cache)
      → IsCache strict sc c
      → Pick m rest c.available
      → IsCache strict sc (uncount m rest c)
        × IsAwake strict sc m
        × (length (uncount m rest c).available + 1 ≡ length c.available)
        × ((uncount m rest c).laden ≡ c.laden)
  unfolding uncount unused_count
  uncount-IsCache m rest c ok p =
      let split = All-Pick p ok.awake in
      let fewer = length-Pick p in
      let counts = sum-Pick unused_count p in
      let l : (c.length + 2 ^ 16 - 1) % 2 ^ 16 ≡ c.length - 1 =
        omega (arith, ok.length_eq, ok.room) in
      elim (Bool-cases (m.needed == 0)) [
        | inl e ↦
            let one : unused_count m ≡ 1 = rw e refl in
            let fits : sum unused_count c.available < 2 ^ 16 =
              omega (arith, sum-unused_count-le c.available, ok.room) in
            let u : (c.unused + 2 ^ 16 - 1) % 2 ^ 16 ≡ c.unused - 1 =
              omega (arith, ok.unused_eq, one, counts, fits) in
            rw (e, l, u)
              (
                record {
                  awake = split.1;
                  aside = ok.aside;
                  length_eq = omega (arith, ok.length_eq, fewer);
                  unused_eq = omega (arith, ok.unused_eq, one, counts);
                  room = omega (arith, ok.room, fewer);
                },
                split.0,
                omega (arith, fewer),
                refl,
              )
        | inr e ↦
            let none_free : unused_count m ≡ 0 = rw e refl in
            rw (e, l)
              (
                record {
                  awake = split.1;
                  aside = ok.aside;
                  length_eq = omega (arith, ok.length_eq, fewer);
                  unused_eq = omega (arith, ok.unused_eq, none_free, counts);
                  room = omega (arith, ok.room, fewer);
                },
                split.0,
                omega (arith, fewer),
                refl,
              )
      ]

  -- A slab of the class after its free list has been taken, put in its set.
  taken-IsCache :
      (remaining : ℕ) (m : Slab) (c : Cache)
      → m.large ≡ false
      → remaining < sizeclass_to_slab_object_count strict sc
      → IsCache strict sc c
      → length c.available + length c.laden + 1 < 2 ^ 16
      → let r = alloc_free_list strict sc remaining m in IsCache strict sc (insert_slab r.0 r.1 c)
  taken-IsCache remaining m c of_small some_out ok room =
      let r = alloc_free_list strict sc remaining m in
      insert_slab-IsCache r.0 r.1 c ok
        (alloc_free_list_lem strict sc small remaining m of_small (omega arith))
        (omega (arith, alloc_free_list-queued remaining m)) room

  initialise-large : (m : Slab) → (initialise strict sc m).large ≡ false
  unfolding initialise
  initialise-large m = refl

  -- The state in order, and no change if there is no object.
  abbrev IsRefilled : Cache → Option ℕ × Cache → Type 0
  IsRefilled c r = IsCache strict sc r.1 × (r.0 ≡ none → r.1 ≡ c)

  module _ (c : Cache) (ok : IsCache strict sc c) (remaining : ℕ)
      (some_out : remaining < sizeclass_to_slab_object_count strict sc)
      (room : length c.available + length c.laden + 1 < 2 ^ 16) where
    slow-IsRefilled :
        (fresh : Option ℕ) → IsRefilled c (small_refill_slow strict sc fresh remaining c)
    unfolding small_refill_slow
    slow-IsRefilled none = (ok, λ e. refl)
    slow-IsRefilled (some ident) = (
      taken-IsCache remaining _ c (initialise-large _) some_out ok room,
      λ e. absurd (ground (arith, e)),
    )

    from-IsRefilled :
        (extra_slab lifo : Bool) (bit : ℕ) (fresh : Option ℕ) (sl : List Slab)
        → c.available ≡ sl
        → IsRefilled c (small_refill_from strict sc extra_slab lifo bit fresh remaining c sl)
    unfolding small_refill_from
    from-IsRefilled extra_slab lifo bit fresh [] e = slow-IsRefilled fresh
    from-IsRefilled extra_slab lifo bit fresh (m ∷ ms) e =
        let popped = pop (not lifo) m ms in
        let pick : Pick popped.0 popped.1 c.available = rw e (pop-Pick (not lifo) m ms) in
        let u = uncount-IsCache popped.0 popped.1 c ok pick in
        let taken =
          taken-IsCache remaining popped.0 (uncount popped.0 popped.1 c) u.1.of_small some_out u.0
            (rw u.3 (omega (arith, u.2, ok.room))) in
        elim (Bool-cases (ltb 0 c.length)) [
          | inl some_slab ↦
              rw some_slab (elim (Bool-cases (extra_slab && c.length == 1 && bit == 0)) [
                | inl skip ↦ rw skip (slow-IsRefilled fresh)
                | inr take ↦ rw take (taken, λ e. absurd (ground (arith, e)))
              ])
          | inr no_slab ↦ rw no_slab (slow-IsRefilled fresh)
        ]

-- In a state that is in order, refilling keeps the sets and the counters in order, whichever
-- mitigations are on and whichever slab is used, if fewer objects stay on the slab's free lists than
-- the slab holds and one more slab can be counted; when there is no object, since the back end has no
-- chunk, nothing changes.
pub small_refill-IsCache :
    (strict : Bool) (sc : ℕ) (extra_slab lifo : Bool) (bit : ℕ) (fresh : Option ℕ) (remaining : ℕ)
    (c : Cache)
    → sc < num_small_sizeclasses
    → IsCache strict sc c
    → remaining < sizeclass_to_slab_object_count strict sc
    → length c.available + length c.laden + 1 < 2 ^ 16
    → let r = small_refill strict sc extra_slab lifo bit fresh remaining c in
      IsCache strict sc r.1 × (r.0 ≡ none → r.1 ≡ c)
unfolding small_refill
small_refill-IsCache strict sc extra_slab lifo bit fresh remaining c small ok some_out room =
    from-IsRefilled strict sc small c ok remaining some_out room extra_slab lifo bit fresh
      c.available refl
