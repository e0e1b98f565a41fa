-- ===== src/SlabMeta/Counters.antt =====
-- The two states of a slab, and the counter in each.
use snmalloc.Base.{ℕ, ◌+◌, ◌≤◌, ◌<◌, ◌≡◌, refl, arith, Bool, true, false}
use snmalloc.Base.{lt-or-le, ◌⊎◌, inl, inr, ltb, leb}
use snmalloc.Sizeclass.{threshold_for_waking_slab, sizeclass_to_slab_object_count, small_entry}
use snmalloc.Sizeclass.{num_small_sizeclasses}
use snmalloc.Base.{all_below, all_below_sound, ◌&&◌}
use snmalloc.Bits.{from_exp_mant, next_pow2_bits_const, clz_const}
use snmalloc.SlabMeta.{Slab, set_sleeping, set_not_sleeping, alloc_free_list}

-- What the counters need to know of a class: some object wakes a slab, and not all of them.
pub record IsLimited (threshold capacity : ℕ) : Type 0 where
  pub some : 0 < threshold
  pub below : threshold < capacity
  pub small : capacity ≤ 1024

limits_ok : Bool → ℕ → Bool
limits_ok strict sc =
    let threshold = threshold_for_waking_slab strict sc in
    let capacity = sizeclass_to_slab_object_count strict sc in
    ltb 0 threshold && ltb threshold capacity && leb capacity 1024

all_limits : (strict : Bool) → all_below num_small_sizeclasses (limits_ok strict) ≡ true
unfolding all_below limits_ok threshold_for_waking_slab sizeclass_to_slab_object_count small_entry
    from_exp_mant next_pow2_bits_const clz_const
all_limits true = refl
all_limits false = refl

pub limits :
    (strict : Bool) (sc : ℕ)
    → sc < num_small_sizeclasses
    → IsLimited (threshold_for_waking_slab strict sc) (sizeclass_to_slab_object_count strict sc)
unfolding limits_ok
limits strict sc h =
    let ok = all_below_sound num_small_sizeclasses (limits_ok strict) sc (all_limits strict) h in
    record { some = ground arith; below = ground arith; small = ground arith }

-- A slab that its class allocates from: it waits until no object is out.
pub record IsAwake (strict : Bool) (sc : ℕ) (m : Slab) : Type 0 where
  pub active : m.sleeping ≡ false
  pub of_small : m.large ≡ false
  pub counted : m.needed + m.queued ≡ sizeclass_to_slab_object_count strict sc
  pub enough : threshold_for_waking_slab strict sc ≤ m.queued

-- A slab set aside: it waits until enough of its objects are back.
pub record IsAsleep (strict : Bool) (sc : ℕ) (m : Slab) : Type 0 where
  pub inactive : m.sleeping ≡ true
  pub of_small : m.large ≡ false
  pub counted : m.needed + m.queued ≡ threshold_for_waking_slab strict sc
  pub waits : 0 < m.needed

module _ (strict : Bool) (sc : ℕ) (small : sc < num_small_sizeclasses) where
  lim : IsLimited (threshold_for_waking_slab strict sc) (sizeclass_to_slab_object_count strict sc)
  lim = limits strict sc small

  -- When a slab's free list is taken but for `remaining` entries, the slab stays active exactly if
  -- those are enough to wake a slab, and its counter is right for the state that it then has.
  pub alloc_free_list_lem :
      (remaining : ℕ) (m : Slab)
      → m.large ≡ false
      → remaining ≤ sizeclass_to_slab_object_count strict sc
      → let r = alloc_free_list strict sc remaining m in
        ((r.1 ≡ true) × IsAwake strict sc r.0) ⊎ ((r.1 ≡ false) × IsAsleep strict sc r.0)
  unfolding alloc_free_list set_sleeping
  alloc_free_list_lem remaining m of_small le =
      elim (lt-or-le remaining (threshold_for_waking_slab strict sc)) [
        | inl h ↦
            let test : leb (threshold_for_waking_slab strict sc) remaining ≡ false = ground arith in
            rw test (
              inr (
                refl,
                record {
                  inactive = refl;
                  of_small = of_small;
                  counted = omega (arith, lim.below, lim.small);
                  waits = omega (arith, lim.below, lim.small);
                },
              ))
        | inr h ↦
            let test : leb (threshold_for_waking_slab strict sc) remaining ≡ true = ground arith in
            rw test (
              inl (
                refl,
                record {
                  active = refl;
                  of_small = of_small;
                  counted = omega (arith, lim.below, lim.small);
                  enough = h;
                },
              ))
      ]

  -- Waking the slab whose counter has come down to 0.
  pub set_not_sleeping-IsAwake :
      (m : Slab)
      → m.large ≡ false
      → m.queued ≡ threshold_for_waking_slab strict sc
      → IsAwake strict sc (set_not_sleeping strict sc m)
        × (0 < (set_not_sleeping strict sc m).needed)
  unfolding set_not_sleeping
  set_not_sleeping-IsAwake m of_small full = (
    record {
      active = refl;
      of_small = of_small;
      counted = omega (arith, lim.below, lim.small, full);
      enough = omega (arith, full);
    },
    omega (arith, lim.below, lim.small),
  )
