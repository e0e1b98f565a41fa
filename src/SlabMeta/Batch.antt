-- ===== src/SlabMeta/Batch.antt =====
-- A batch of deallocations on one slab, against single deallocations.
use snmalloc.Base.{
  ℕ, zero, suc, ◌+◌, ◌-◌, ◌^◌, ◌≤◌, ◌<◌, ◌≡◌, refl, sym, ap, ◌∙◌, arith, Bool, true, false,
}
use snmalloc.Base.{lt-or-le, ◌⊎◌, inl, inr}
use snmalloc.Sizeclass.{num_small_sizeclasses}
use snmalloc.Sizeclass.{threshold_for_waking_slab, sizeclass_to_slab_object_count}
use snmalloc.SlabMeta.{Slab, set_not_sleeping, wake, return_objects}
use snmalloc.SlabMeta.{return_each}
use snmalloc.SlabMeta.Counters.{IsLimited, limits, IsAwake, IsAsleep}
use snmalloc.SlabMeta.Rounds.{each_below, batch_below, batch_each, batch_none}

module _ (strict : Bool) (sc : ℕ) where
  -- Up to the counter of a slab that is awake.
  batch_awake :
      (fuel n : ℕ) (first : Bool) (m : Slab)
      → m.sleeping ≡ false
      → 0 < n
      → n ≤ m.needed
      → m.needed < 2 ^ 16
      → (return_objects strict sc (suc (suc fuel)) first (record { batch = n; meta = m })
          ≡ record m { needed = m.needed - n })
        × (return_each strict sc n m ≡ record m { needed = m.needed - n })
  unfolding wake return_each
  batch_awake fuel n first m awake some le fits = elim (lt-or-le n m.needed) [
    | inl h ↦
        (batch_below strict sc (suc fuel) n m some fits first h, each_below strict sc n m h fits)
    | inr h ↦
        let count : m.needed + 0 ≡ n = omega arith in
        let none : m.needed - n ≡ 0 = omega arith in
        let round = batch_each strict sc (suc fuel) 0 first m (omega arith) (omega arith) in
        let woken : wake strict sc (record m { needed = 0 }) ≡ record m { needed = 0 } =
          rw awake refl in
        (
          rw none
              (rw (count, woken) at round.0 ∙ batch_none strict sc fuel (record m { needed = 0 })),
          rw none (rw (count, woken) at round.1),
        )
  ]

  -- The same on a later round, where nothing may be left.
  rest_awake :
      (fuel n : ℕ) (m : Slab)
      → m.sleeping ≡ false
      → n ≤ m.needed
      → m.needed < 2 ^ 16
      → (return_objects strict sc (suc (suc fuel)) false (record { batch = n; meta = m })
          ≡ record m { needed = m.needed - n })
        × (return_each strict sc n m ≡ record m { needed = m.needed - n })
  unfolding return_each
  rest_awake fuel zero m awake le fits =
      let same =
        ap (λ (t : ℕ). record m { needed = t })
          (let e : m.needed ≡ m.needed - 0 = omega arith in e) in
      (batch_none strict sc (suc fuel) m ∙ same, same)
  rest_awake fuel (suc n) m awake le fits =
      batch_awake fuel (suc n) false m awake (omega arith) le fits

  woken-set_not_sleeping :
      (m : Slab)
      → m.sleeping ≡ true
      → wake strict sc (record m { needed = 0 })
        ≡ set_not_sleeping strict sc (record m { needed = 0 })
  unfolding wake
  woken-set_not_sleeping m asleep = rw asleep refl

  set_not_sleeping-queued : (m : Slab) → (set_not_sleeping strict sc m).queued ≡ m.queued
  unfolding set_not_sleeping
  set_not_sleeping-queued m = refl

  module _ (small : sc < num_small_sizeclasses) where
    lim : IsLimited (threshold_for_waking_slab strict sc) (sizeclass_to_slab_object_count strict sc)
    lim = limits strict sc small

    -- `set_not_sleeping` with any number of objects back, of which the rest of the batch is part.
    set_not_sleeping_lem :
        (m : Slab)
        → let w = set_not_sleeping strict sc m in
          (w.sleeping ≡ false)
          × (w.needed
              ≡ sizeclass_to_slab_object_count strict sc - threshold_for_waking_slab strict sc)
          × (w.large ≡ m.large)
    unfolding set_not_sleeping
    set_not_sleeping_lem m = (refl, omega (arith, lim.below, lim.small), refl)

-- A batch of up to as many objects as are out leaves a slab as one deallocation at a time does,
-- and the slab is again awake or asleep with its counter right.
pub return_objects-eq-return_each :
    (strict : Bool) (sc n : ℕ) (m : Slab)
    → sc < num_small_sizeclasses
    → IsAwake strict sc m ⊎ IsAsleep strict sc m
    → 0 < n
    → n + m.queued ≤ sizeclass_to_slab_object_count strict sc
    → let added = record m { queued = m.queued + n } in
      let r = return_objects strict sc 3 true (record { batch = n; meta = added }) in
      (r ≡ return_each strict sc n added) × (IsAwake strict sc r ⊎ IsAsleep strict sc r)
return_objects-eq-return_each strict sc n m small (inl awake) some out =
    let lim = limits strict sc small in
    let added : Slab = record m { queued = m.queued + n } in
    let done =
      batch_awake strict sc 1 n true added awake.active some (omega (arith, awake.counted))
        (omega (arith, awake.counted, lim.small)) in
    (
      done.0 ∙ sym done.1,
      rw done.0 (
          inl (record {
            active = awake.active;
            of_small = awake.of_small;
            counted = omega (arith, awake.counted);
            enough = omega (arith, awake.enough);
          })),
    )
return_objects-eq-return_each strict sc n m small (inr asleep) some out =
    let lim = limits strict sc small in
    let added : Slab = record m { queued = m.queued + n } in
    elim (lt-or-le n m.needed) [
      | inl h ↦
          let fits : m.needed < 2 ^ 16 = omega (arith, asleep.counted, lim.below, lim.small) in
          let below = batch_below strict sc 2 n added some fits true h in
          (
            below ∙ sym (each_below strict sc n added h fits),
            rw below (
                inr (record {
                  inactive = asleep.inactive;
                  of_small = asleep.of_small;
                  counted = omega (arith, asleep.counted);
                  waits = omega arith;
                })),
          )
      | inr h ↦
          let k = n - m.needed in
          let fits : m.needed + k < 2 ^ 16 = omega (arith, lim.small) in
          let count : m.needed + k ≡ n = omega arith in
          let zeroed : Slab = record added { needed = 0 } in
          let w = set_not_sleeping_lem strict sc small zeroed in
          let q = set_not_sleeping-queued strict sc zeroed in
          let round =
            rw (count, woken-set_not_sleeping strict sc added asleep.inactive) at
              (batch_each strict sc 2 k true added asleep.waits fits) in
          let rest =
            rest_awake strict sc 0 k (set_not_sleeping strict sc zeroed) w.0
              (omega (arith, w.1, asleep.counted, lim.below)) (omega (arith, w.1, lim.small)) in
          let done = round.0 ∙ rest.0 in
          (
            done ∙ sym (round.1 ∙ rest.1),
            rw done (
                inl (record {
                  active = w.0;
                  of_small = w.2 ∙ asleep.of_small;
                  counted = omega (arith, w.1, q, asleep.counted, lim.below);
                  enough = omega (arith, q, asleep.counted);
                })),
          )
    ]
