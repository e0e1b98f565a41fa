-- ===== src/SlabMeta/Tests.antt =====
-- Slabs of class 6, whose objects have 112 bytes: 146 to a slab, 32 to wake it.
use snmalloc.Base.{◌+◌, ◌≤◌, ◌≡◌, refl, arith, true, false, ◌⊎◌, inr}
use snmalloc.Bits.{clz_const, from_exp_mant, next_pow2_bits_const}
use snmalloc.Sizeclass.{threshold_for_waking_slab, sizeclass_to_slab_object_count, small_entry}
use snmalloc.SlabMeta.{Slab, return_objects, return_each, wake}
use snmalloc.SlabMeta.{set_not_sleeping, step}
use snmalloc.SlabMeta.Counters.{IsAwake, IsAsleep}
use snmalloc.SlabMeta.Batch.{return_objects-eq-return_each}

abbrev dozing : Slab
dozing = record { ident = 64; queued = 2; needed = 30; sleeping = true; large = false }

dozing-IsAsleep : IsAsleep false 6 dozing
unfolding threshold_for_waking_slab small_entry from_exp_mant next_pow2_bits_const clz_const
dozing-IsAsleep = record { inactive = refl; of_small = refl; counted = refl; waits = omega arith }

room_for_forty : 40 + 2 ≤ sizeclass_to_slab_object_count false 6
unfolding sizeclass_to_slab_object_count small_entry from_exp_mant next_pow2_bits_const clz_const
room_for_forty = omega arith

-- Forty objects at once wake the slab.
woken :
    return_objects false 6 3 true (record { batch = 40; meta = record dozing { queued = 42 } })
    ≡ record dozing { queued = 42; needed = 104; sleeping = false }
unfolding return_objects step wake set_not_sleeping threshold_for_waking_slab
    sizeclass_to_slab_object_count small_entry from_exp_mant next_pow2_bits_const clz_const
woken = refl

return_objects-eq-return_each_example :
    let added = record dozing { queued = 2 + 40 } in
    let r = return_objects false 6 3 true (record { batch = 40; meta = added }) in
    (r ≡ return_each false 6 40 added) × (IsAwake false 6 r ⊎ IsAsleep false 6 r)
return_objects-eq-return_each_example =
    return_objects-eq-return_each false 6 40 dozing (omega arith) (inr dozing-IsAsleep)
      (omega arith) room_for_forty
