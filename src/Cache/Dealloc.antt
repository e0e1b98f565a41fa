-- ===== src/Cache/Dealloc.antt =====
-- `dealloc_local_object` on every kind of slab.
pub mod Laws
use snmalloc.Base.{
  ℕ, zero, suc, ◌+◌, ◌-◌, ◌/◌, ◌%◌, ◌^◌, ◌≤◌, ◌<◌, ◌≡◌, ◌⊎◌, refl, sym, ap, ◌∙◌, arith, Bool, true,
  false, ◌==◌,
}
use snmalloc.Base.{
  if◌then◌else◌, not, ltb, ◌&&◌, Bool-cases, inl, inr, lt-or-le, Option, none, some,
}
use snmalloc.Base.{
  List, [], ◌∷◌, ◌++◌, All, all_nil, all_cons, sum, length, length-set, get_elem?, set,
}
use snmalloc.Base.{
  remove_at, All-Pick, length-Pick, remove_at-Pick, sum-set, All-set, remove_at-set,
}
use snmalloc.Sizeclass.{num_small_sizeclasses, threshold_for_waking_slab}
use snmalloc.SlabMeta.{Slab, return_object, set_not_sleeping}
use snmalloc.SlabMeta.Counters.{IsAwake, IsAsleep, set_not_sleeping-IsAwake}
use snmalloc.Cache.{
  Cache, Place, in_available, in_laden, slab_at, write, dealloc_local_object, dealloc_found,
}
use snmalloc.Cache.{dealloc_local_object_slow, dealloc_local_object_meta, dealloc_local_slabs}
use snmalloc.Cache.Invariant.{IsCache, IsLaden, IsLarge, unused_count, sum-unused_count-le}
use snmalloc.Cache.Trim.{dealloc_local_slabs_lem}

-- Few slabs are unused: two, or a quarter of those available.
abbrev pub IsTrim : Cache → Type 0
IsTrim c = (c.unused ≤ 2) ⊎ (c.unused ≤ c.length / 4)

-- The record after one deallocation.
abbrev pub one_back : Slab → Slab
one_back m = record m { queued = m.queued + 1; needed = m.needed - 1 }

-- A deallocation that the slab goes on waiting after, and the last one that it waits for.
module _ (strict : Bool) (sc : ℕ) (c : Cache) (m : Slab) (fits : m.needed < 2 ^ 16) where
  pub dealloc_more :
      (place : Place)
      → slab_at place c ≡ some m
      → 1 < m.needed
      → dealloc_local_object strict sc place c ≡ write place (one_back m) c
  unfolding dealloc_local_object dealloc_found return_object
  dealloc_more place here more =
      let less : (m.needed + 2 ^ 16 - 1) % 2 ^ 16 ≡ m.needed - 1 = omega arith in
      let test : (m.needed - 1 == 0) ≡ false = ground arith in
      ap (λ (o : Option Slab). dealloc_found strict sc place c o) here ∙ rw (less, test) refl

  pub dealloc_last :
      (place : Place)
      → slab_at place c ≡ some m
      → m.needed ≡ 1
      → let back = record m { queued = m.queued + 1; needed = 0 } in
        dealloc_local_object strict sc place c
        ≡ dealloc_local_object_slow strict sc place back (write place back c)
  unfolding dealloc_local_object dealloc_found return_object
  dealloc_last place here last =
      let less : (m.needed + 2 ^ 16 - 1) % 2 ^ 16 ≡ 0 = omega arith in
      ap (λ (o : Option Slab). dealloc_found strict sc place c o) here ∙ rw less refl

module _ (strict : Bool) (sc : ℕ) where
  -- One object more is back, and the slab waits on.
  pub one_back-IsAwake :
      (m : Slab) → 0 < m.needed → IsAwake strict sc m → IsAwake strict sc (one_back m)
  one_back-IsAwake m waits a = record {
    active = a.active;
    of_small = a.of_small;
    counted = omega (arith, a.counted);
    enough = omega (arith, a.enough);
  }

  pub one_back-IsAsleep :
      (m : Slab) → 1 < m.needed → IsAsleep strict sc m → IsAsleep strict sc (one_back m)
  one_back-IsAsleep m waits a = record {
    inactive = a.inactive;
    of_small = a.of_small;
    counted = omega (arith, a.counted);
    waits = omega arith;
  }

  -- The states that `dealloc_local_object` leaves.
  module _ (c : Cache) (ok : IsCache strict sc c) where
    pub unused_fits : sum unused_count c.available < 2 ^ 16
    unused_fits = omega (arith, sum-unused_count-le c.available, ok.room)

    pub write_awake :
        (i : ℕ) (m v : Slab)
        → get_elem? c.available i ≡ some m
        → IsAwake strict sc v
        → (extra : ℕ) → unused_count v ≡ unused_count m + extra
        → IsCache strict sc
            (record c { available = set c.available i v; unused = c.unused + extra })
    write_awake i m v here a extra counts = record {
      awake = All-set c.available i v ok.awake a;
      aside = ok.aside;
      length_eq = ok.length_eq ∙ sym (length-set c.available i v);
      unused_eq = omega (arith, ok.unused_eq, counts, sum-set unused_count c.available i v here);
      room = omega (arith, ok.room, length-set c.available i v);
    }

    pub write_laden :
        (i : ℕ) (v : Slab)
        → IsLaden strict sc v
        → IsCache strict sc (record c { laden = set c.laden i v })
    write_laden i v a = record {
      awake = ok.awake;
      aside = All-set c.laden i v ok.aside a;
      length_eq = ok.length_eq;
      unused_eq = ok.unused_eq;
      room = omega (arith, ok.room, length-set c.laden i v);
    }

    -- A slab leaves the laden ones for good.
    pub remove_laden :
        (i : ℕ) (m : Slab) (gone : List Slab)
        → get_elem? c.laden i ≡ some m
        → IsCache strict sc (record c { laden = remove_at c.laden i; returned = gone })
    remove_laden i m gone here =
        let p = remove_at-Pick c.laden i here in
        record {
          awake = ok.awake;
          aside = (All-Pick p ok.aside).1;
          length_eq = ok.length_eq;
          unused_eq = ok.unused_eq;
          room = omega (arith, ok.room, length-Pick p);
        }

    -- A slab leaves them for the available ones.
    pub wake_laden :
        (i : ℕ) (m v : Slab)
        → get_elem? c.laden i ≡ some m
        → IsAwake strict sc v
        → unused_count v ≡ 0
        → IsCache strict sc (record c {
          available = v ∷ c.available;
          laden = remove_at c.laden i;
          length = c.length + 1;
        })
    unfolding sum
    wake_laden i m v here a used =
        let p = remove_at-Pick c.laden i here in
        record {
          awake = all_cons a ok.awake;
          aside = (All-Pick p ok.aside).1;
          length_eq = omega (arith, ok.length_eq);
          unused_eq = omega (arith, ok.unused_eq, used);
          room = omega (arith, ok.room, length-Pick p);
        }
