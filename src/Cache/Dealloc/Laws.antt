-- ===== src/Cache/Dealloc/Laws.antt =====
-- `dealloc_local_object` keeps a size class in order.
use snmalloc.Base.{ℕ, ◌+◌, ◌-◌, ◌/◌, ◌%◌, ◌^◌, ◌<◌, ◌≡◌, refl, arith, Bool, true, false}
use snmalloc.Base.{ltb, ◌&&◌, Bool-cases, inl, inr, lt-or-le, some}
use snmalloc.Base.{[], ◌∷◌, ◌++◌, get_elem?, set, remove_at}
use snmalloc.Base.{All-Pick, remove_at-Pick, remove_at-set, length-Pick}
use snmalloc.Sizeclass.{num_small_sizeclasses}
use snmalloc.SlabMeta.{Slab, set_not_sleeping}
use snmalloc.SlabMeta.Counters.{IsAsleep, set_not_sleeping-IsAwake, limits}
use snmalloc.Cache.{Cache, Place, in_available, in_laden, slab_at, write, dealloc_local_object}
use snmalloc.Cache.{dealloc_local_object_slow, dealloc_local_object_meta}
use snmalloc.Cache.Invariant.{IsCache, IsLarge, unused_count, sum-unused_count-le}
use snmalloc.Cache.Trim.{dealloc_local_slabs_lem}
use snmalloc.Cache.Dealloc.{IsTrim, one_back, dealloc_more, dealloc_last, one_back-IsAwake}
use snmalloc.Cache.Dealloc.{one_back-IsAsleep, write_awake, write_laden, remove_laden, wake_laden}

-- In order, with few unused slabs if there were few before.
abbrev IsKept : Bool → ℕ → Cache → Cache → Type 0
IsKept strict sc c d = IsCache strict sc d × (IsTrim c → IsTrim d)

module _ (strict : Bool) (sc : ℕ) where
  -- The slow path when the last object of an awake slab is back.
  give_back_lem :
      (place : Place) (m : Slab) (c : Cache)
      → m.large ≡ false
      → m.sleeping ≡ false
      → IsCache strict sc (record c { unused = c.unused + 1 })
      → let d = dealloc_local_object_slow strict sc place m c in IsCache strict sc d × IsTrim d
  unfolding dealloc_local_object_slow dealloc_local_object_meta
  give_back_lem place m c of_small active ok =
      let le = sum-unused_count-le c.available in
      let add : (c.unused + 1) % 2 ^ 16 ≡ c.unused + 1 = omega (arith, ok.unused_eq, ok.room) in
      let trim = dealloc_local_slabs_lem strict sc (record c { unused = c.unused + 1 }) ok in
      rw (of_small, active, add)
        (elim (Bool-cases (ltb 2 (c.unused + 1) && ltb (c.length / 4) (c.unused + 1))) [
          | inl e ↦ rw e (trim.4, inl (omega (arith, trim.3)))
          | inr e ↦ rw e (ok, ground arith)
        ])

  used_count : (m : Slab) → 0 < m.needed → unused_count m ≡ 0
  unfolding unused_count
  used_count m h = ground arith

  free_count : (m : Slab) → m.needed ≡ 0 → unused_count m ≡ 1
  unfolding unused_count
  free_count m h = ground arith

  module _ (c : Cache) (ok : IsCache strict sc c) (i : ℕ) (m : Slab)
      (small : sc < num_small_sizeclasses) where
    dealloc_available :
        get_elem? c.available i ≡ some m
        → 0 < m.needed
        → IsKept strict sc c (dealloc_local_object strict sc (in_available i) c)
    dealloc_available here waits =
        let awake = (All-Pick (remove_at-Pick c.available i here) ok.awake).0 in
        let fits : m.needed < 2 ^ 16 =
          omega (arith, awake.counted, (limits strict sc small).small) in
        let back = one_back-IsAwake strict sc m waits awake in
        elim (lt-or-le 1 m.needed) [
          | inl h ↦
              let same : unused_count (one_back m) ≡ unused_count m + 0 =
                omega (arith, used_count m waits, used_count (one_back m) (omega arith)) in
              let w = write_awake strict sc c ok i m (one_back m) here back 0 same in
              let none_more : c.unused + 0 ≡ c.unused = omega arith in
              rw (dealloc_more strict sc c m fits (in_available i) here h)
                (rw none_more at w, λ t. t)
          | inr h ↦
              let none_out : m.needed - 1 ≡ 0 = omega arith in
              let back0 : Slab = record m { queued = m.queued + 1; needed = 0 } in
              let more : unused_count back0 ≡ unused_count m + 1 =
                omega (arith, used_count m waits, free_count back0 refl) in
              let w = write_awake strict sc c ok i m back0 here (rw none_out at back) 1 more in
              let d =
                give_back_lem (in_available i) back0
                  (record c { available = set c.available i back0 }) awake.of_small awake.active
                  w in
              rw (dealloc_last strict sc c m fits (in_available i) here (omega arith))
                (d.0, λ t. d.1)
        ]

    slow_wakes :
        m.large ≡ false
        → m.sleeping ≡ true
        → c.length + 1 < 2 ^ 16
        → dealloc_local_object_slow strict sc (in_laden i) m (write (in_laden i) m c) ≡ record c {
          available = set_not_sleeping strict sc m ∷ c.available;
          laden = remove_at c.laden i;
          length = c.length + 1;
        }
    unfolding dealloc_local_object_slow dealloc_local_object_meta
    slow_wakes of_small asleep fits =
        let add : (c.length + 1) % 2 ^ 16 ≡ c.length + 1 = omega arith in
        rw (remove_at-set c.laden i m, of_small, asleep, add) refl

    slow_large :
        m.large ≡ true
        → dealloc_local_object_slow strict sc (in_laden i) m (write (in_laden i) m c)
          ≡ record c { laden = remove_at c.laden i; returned = c.returned ++ (m ∷ []) }
    unfolding dealloc_local_object_slow
    slow_large of_large = rw (remove_at-set c.laden i m, of_large) refl

module _ (strict : Bool) (sc : ℕ) (c : Cache) (ok : IsCache strict sc c) (i : ℕ) (m : Slab) where
  dealloc_asleep :
      sc < num_small_sizeclasses
      → get_elem? c.laden i ≡ some m
      → IsAsleep strict sc m
      → IsKept strict sc c (dealloc_local_object strict sc (in_laden i) c)
  dealloc_asleep small here asleep =
      let lim = limits strict sc small in
      let fits : m.needed < 2 ^ 16 = omega (arith, asleep.counted, lim.below, lim.small) in
      elim (lt-or-le 1 m.needed) [
        | inl h ↦
            let back = one_back-IsAsleep strict sc m h asleep in
            rw (dealloc_more strict sc c m fits (in_laden i) here h)
              (write_laden strict sc c ok i (one_back m) (inl back), λ t. t)
        | inr h ↦
            let back0 : Slab = record m { queued = m.queued + 1; needed = 0 } in
            let room = length-Pick (remove_at-Pick c.laden i here) in
            let awake =
              set_not_sleeping-IsAwake strict sc small back0 asleep.of_small
                (omega (arith, asleep.counted, asleep.waits)) in
            let slow =
              slow_wakes strict sc c ok i back0 small asleep.of_small asleep.inactive
                (omega (arith, ok.length_eq, ok.room, room)) in
            rw
              (
                dealloc_last strict sc c m fits (in_laden i) here (omega (arith, asleep.waits)),
                slow,
              )
              (
                wake_laden strict sc c ok i m (set_not_sleeping strict sc back0) here awake.0
                    (used_count strict sc (set_not_sleeping strict sc back0) awake.1),
                λ t. ground (arith, t),
              )
      ]

  dealloc_large :
      sc < num_small_sizeclasses
      → get_elem? c.laden i ≡ some m
      → IsLarge m
      → IsKept strict sc c (dealloc_local_object strict sc (in_laden i) c)
  dealloc_large small here large =
      let back0 : Slab = record m { queued = m.queued + 1; needed = 0 } in
      let fits : m.needed < 2 ^ 16 = omega (arith, large.waits) in
      let slow = slow_large strict sc c ok i back0 small large.of_large in
      rw (dealloc_last strict sc c m fits (in_laden i) here large.waits, slow)
        (remove_laden strict sc c ok i m (c.returned ++ (back0 ∷ [])) here, λ t. t)

-- In a state that is in order, deallocating an object of a slab of the class that has an object
-- out, available or laden, or a large allocation, keeps the sets and the counters in order; and if the unused slabs are at most two or a quarter of the
-- available ones before, they are so after.
pub dealloc_local_object-IsCache :
    (strict : Bool) (sc : ℕ) (place : Place) (c : Cache) (m : Slab)
    → sc < num_small_sizeclasses
    → IsCache strict sc c
    → slab_at place c ≡ some m
    → 0 < m.needed
    → let d = dealloc_local_object strict sc place c in IsCache strict sc d × (IsTrim c → IsTrim d)
dealloc_local_object-IsCache strict sc (in_available i) c m small ok here waits =
    dealloc_available strict sc c ok i m small here waits
dealloc_local_object-IsCache strict sc (in_laden i) c m small ok here waits =
    elim (All-Pick (remove_at-Pick c.laden i here) ok.aside).0 [
      | inl asleep ↦ dealloc_asleep strict sc c ok i m small here asleep
      | inr large ↦ dealloc_large strict sc c ok i m small here large
    ]
