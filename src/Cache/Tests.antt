-- ===== src/Cache/Tests.antt =====
-- The slabs of class 6, whose objects have 112 bytes: 146 to a slab, 32 to wake it.
use snmalloc.Base.{◌<◌, ◌≡◌, refl, arith, true, false, inl}
use snmalloc.Base.{[], ◌∷◌, ◌++◌, none, all_nil, all_cons, sum}
use snmalloc.Bits.{clz_const, from_exp_mant, next_pow2_bits_const}
use snmalloc.Sizeclass.{threshold_for_waking_slab, sizeclass_to_slab_object_count, small_entry}
use snmalloc.SlabMeta.{Slab, return_object, set_not_sleeping}
use snmalloc.Cache.{Cache, in_laden, dealloc_local_object, dealloc_found}
use snmalloc.Cache.{dealloc_local_slabs, trim_slabs, trim_slab, small_refill}
use snmalloc.Cache.{dealloc_local_object_slow, dealloc_local_object_meta}
use snmalloc.Cache.Invariant.{IsCache, unused_count}
use snmalloc.Cache.Trim.{slabs_with, dealloc_local_slabs_lem}
use snmalloc.Cache.Dealloc.{IsTrim}
use snmalloc.Cache.Dealloc.Laws.{dealloc_local_object-IsCache}
use snmalloc.Cache.Refill.{small_refill-IsCache}

abbrev used_slab : Slab
used_slab = record { ident = 64; queued = 145; needed = 1; sleeping = false; large = false }

abbrev free_slab : Slab
free_slab = record { ident = 128; queued = 146; needed = 0; sleeping = false; large = false }

abbrev dozing_slab : Slab
dozing_slab = record { ident = 192; queued = 31; needed = 1; sleeping = true; large = false }

abbrev two_slabs : Cache
two_slabs = record {
  available = used_slab ∷ free_slab ∷ [];
  laden = dozing_slab ∷ [];
  length = 2;
  unused = 1;
  returned = [];
}

two_slabs-IsCache : IsCache false 6 two_slabs
unfolding sum unused_count threshold_for_waking_slab sizeclass_to_slab_object_count small_entry
    from_exp_mant next_pow2_bits_const clz_const
two_slabs-IsCache = record {
  awake =
      all_cons (record { active = refl; of_small = refl; counted = refl; enough = omega arith })
        (all_cons (record { active = refl; of_small = refl; counted = refl; enough = omega arith })
          all_nil);
  aside =
      all_cons
        (inl (record { inactive = refl; of_small = refl; counted = refl; waits = omega arith }))
        all_nil;
  length_eq = refl;
  unused_eq = refl;
  room = omega arith;
}

forty_left : 40 < sizeclass_to_slab_object_count false 6
unfolding sizeclass_to_slab_object_count small_entry from_exp_mant next_pow2_bits_const clz_const
forty_left = omega arith

trimmed : (dealloc_local_slabs two_slabs).returned ≡ free_slab ∷ []
unfolding dealloc_local_slabs trim_slabs trim_slab
trimmed = refl

-- The last object that the sleeping slab waits for wakes it.
woken : (dealloc_local_object false 6 (in_laden 0) two_slabs).length ≡ 3
unfolding dealloc_local_object dealloc_found dealloc_local_object_slow dealloc_local_object_meta
    return_object set_not_sleeping
woken = refl

dealloc_local_slabs_lem_example :
    let d = dealloc_local_slabs two_slabs in
    (d.returned ≡ two_slabs.returned ++ slabs_with true two_slabs.available)
    × (d.available ≡ slabs_with false two_slabs.available)
    × (d.laden ≡ two_slabs.laden)
    × (d.unused ≡ 0)
    × IsCache false 6 d
dealloc_local_slabs_lem_example = dealloc_local_slabs_lem false 6 two_slabs two_slabs-IsCache

dealloc_local_object-IsCache_example :
    let d = dealloc_local_object false 6 (in_laden 0) two_slabs in
    IsCache false 6 d × (IsTrim two_slabs → IsTrim d)
dealloc_local_object-IsCache_example =
    dealloc_local_object-IsCache false 6 (in_laden 0) two_slabs dozing_slab (omega arith)
      two_slabs-IsCache refl (omega arith)

small_refill-IsCache_example :
    let r = small_refill false 6 true false 1 none 40 two_slabs in
    IsCache false 6 r.1 × (r.0 ≡ none → r.1 ≡ two_slabs)
small_refill-IsCache_example =
    small_refill-IsCache false 6 true false 1 none 40 two_slabs (omega arith) two_slabs-IsCache
      forty_left (omega arith)
