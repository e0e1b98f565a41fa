-- ===== src/Cache.antt =====
-- src/snmalloc/mem/corealloc.h: the slabs of one small size class in one allocator, and what
-- allocation and deallocation do with them. `available` and `laden` are the two `SeqSet`s from
-- the head of the list on (src/snmalloc/ds_aal/seqset.h inserts at the head); a slab's record is
-- named by the place of its node. `length` and `unused` are `uint16_t`s. `returned` is the
-- sequence of the slabs given to the back end's `dealloc_chunk`. The statistics, the ticker,
-- the free lists' entries and the secondary allocator, which may serve a refill first, are left
-- out, and so is the instance of `dealloc_local_slabs` with `check_slabs`, which the flush takes: it
-- does not stop early, and validates the free lists of the slabs in use.
pub mod Invariant
pub mod Trim
pub mod Dealloc
pub mod Refill
mod Tests
use snmalloc.Base.{
  ℕ, zero, suc, ◌+◌, ◌-◌, ◌/◌, ◌%◌, ◌^◌, Bool, true, false, ltb, leb, ◌==◌, if◌then◌else◌, not,
  ◌&&◌,
}
use snmalloc.Base.{List, [], ◌∷◌, ◌++◌, Option, none, some, get_elem?, set, remove_at}
use snmalloc.Sizeclass.{sizeclass_to_slab_object_count}
use snmalloc.SlabMeta.{Slab, add_uint16, sub_uint16, set_not_sleeping, initialise, return_object}
use snmalloc.SlabMeta.{is_unused, alloc_free_list}

pub record Cache : Type 0 where
  pub available : List Slab
  pub laden : List Slab
  pub length : ℕ
  pub unused : ℕ
  pub returned : List Slab

-- Where the node of a slab's metadata is.
pub data Place : Type 0 where
  in_available in_laden : ℕ → Place

abbrev pub slab_at : Place → Cache → Option Slab
slab_at (in_available i) c = get_elem? c.available i
slab_at (in_laden i) c = get_elem? c.laden i

abbrev pub write : Place → Slab → Cache → Cache
write (in_available i) m c = record c { available = set c.available i m }
write (in_laden i) m c = record c { laden = set c.laden i m }

-- `node.remove()`.
abbrev pub remove : Place → Cache → Cache
remove (in_available i) c = record c { available = remove_at c.available i }
remove (in_laden i) c = record c { laden = remove_at c.laden i }

-- One call of the function that `dealloc_local_slabs` iterates; the slabs that stay are put back
-- in their order.
unfoldable pub trim_slab : Slab → Cache → Cache
trim_slab m c =
    if not (m.needed == 0) then record c { available = c.available ++ (m ∷ []) } else record c {
      length = sub_uint16 c.length 1;
      unused = sub_uint16 c.unused 1;
      returned = c.returned ++ (m ∷ []);
    }

unfoldable pub trim_slabs : List Slab → Cache → Cache
trim_slabs [] c = c
trim_slabs (m ∷ ms) c = trim_slabs ms (trim_slab m c)

unfoldable pub dealloc_local_slabs : Cache → Cache
dealloc_local_slabs c =
    if c.unused == 0 then c else trim_slabs c.available (record c { available = [] })

unfoldable pub dealloc_local_object_meta : Bool → ℕ → Place → Slab → Cache → Cache
dealloc_local_object_meta strict sc place m c =
    let removed = remove place c in
    let counted = record c { unused = add_uint16 c.unused 1 } in
    if m.sleeping
    then record removed {
      available = set_not_sleeping strict sc m ∷ removed.available;
      length = add_uint16 removed.length 1;
    }
    else if ltb 2 counted.unused && ltb (counted.length / 4) counted.unused
    then dealloc_local_slabs counted
    else counted

unfoldable pub dealloc_local_object_slow : Bool → ℕ → Place → Slab → Cache → Cache
dealloc_local_object_slow strict sc place m c =
    let removed = remove place c in
    if m.large
    then record removed { returned = removed.returned ++ (m ∷ []) }
    else dealloc_local_object_meta strict sc place m c

-- `dealloc_local_object`, once the object's slab is found.
unfoldable pub dealloc_found : Bool → ℕ → Place → Cache → Option Slab → Cache
dealloc_found strict sc place c none = c
dealloc_found strict sc place c (some m) =
    let r = return_object (record m { queued = m.queued + 1 }) in
    let written = write place r.0 c in
    if r.1 then dealloc_local_object_slow strict sc place r.0 written else written

-- The object's slab is the one at `place`; no slab is at a place that does not exist.
unfoldable pub dealloc_local_object : Bool → ℕ → Place → Cache → Cache
dealloc_local_object strict sc place c = dealloc_found strict sc place c (slab_at place c)

-- `pop_back` of the list `m ∷ ms`: the last element and the rest.
unfoldable pub pop_back : Slab → List Slab → Slab × List Slab
pop_back m [] = (m, [])
pop_back m (n ∷ ns) = let last = pop_back n ns in (last.0, m ∷ last.1)

unfoldable pub pop : (is_fifo : Bool) → Slab → List Slab → Slab × List Slab
pop is_fifo m ms = if is_fifo then (m, ms) else pop_back m ms

-- A slab goes to one of the sets after its free list has been taken.
unfoldable pub insert_slab : Slab → (still_active : Bool) → Cache → Cache
insert_slab m still_active c =
    if still_active
    then record c { length = add_uint16 c.length 1; available = m ∷ c.available }
    else record c { laden = m ∷ c.laden }

-- The chunk that the back end's `alloc_chunk` returns is `fresh`, the address of its metadata, if
-- any. `alloc_new_list` queues every object of the slab; `close` leaves `remaining` of them. The
-- result has the number of objects taken.
unfoldable pub small_refill_slow :
    Bool → ℕ → (fresh : Option ℕ) → (remaining : ℕ) → Cache → Option ℕ × Cache
small_refill_slow strict sc none remaining c = (none, c)
small_refill_slow strict sc (some ident) remaining c =
    let raw : Slab = record {
      ident = ident;
      queued = 0;
      needed = 0;
      sleeping = false;
      large = false;
    } in
    let empty = initialise strict sc raw in
    let built = record empty { queued = sizeclass_to_slab_object_count strict sc } in
    let r = alloc_free_list strict sc remaining built in (some r.2, insert_slab r.0 r.1 c)

-- The slab that `pop` returned leaves the available ones, and the counts go down.
unfoldable pub uncount : Slab → List Slab → Cache → Cache
uncount m rest c =
    let fewer = record c { available = rest; length = sub_uint16 c.length 1 } in
    if m.needed == 0 then record fewer { unused = sub_uint16 fewer.unused 1 } else fewer

-- `small_refill` over the available slabs `sl`; of an empty set the source takes no slab, since
-- the length is then 0.
unfoldable pub small_refill_from :
    Bool
    → ℕ
    → (extra_slab lifo : Bool) → (bit : ℕ) → (fresh : Option ℕ) → (remaining : ℕ) → Cache
    → (sl : List Slab) → Option ℕ × Cache
small_refill_from strict sc extra_slab lifo bit fresh remaining c [] =
    small_refill_slow strict sc fresh remaining c
small_refill_from strict sc extra_slab lifo bit fresh remaining c (m ∷ ms) =
    let popped = pop (not lifo) m ms in
    let r = alloc_free_list strict sc remaining popped.0 in
    if not (ltb 0 c.length)
    then small_refill_slow strict sc fresh remaining c
    else if extra_slab && c.length == 1 && bit == 0
    then small_refill_slow strict sc fresh remaining c
    else (some r.2, insert_slab r.0 r.1 (uncount popped.0 popped.1 c))

-- The mitigations `random_extra_slab` and `reuse_LIFO` are `extra_slab` and `lifo`; `bit` is the
-- next bit of the entropy source.
unfoldable pub small_refill :
    Bool
    → ℕ
    → (extra_slab lifo : Bool) → (bit : ℕ) → (fresh : Option ℕ) → (remaining : ℕ) → Cache
    → Option ℕ × Cache
small_refill strict sc extra_slab lifo bit fresh remaining c =
    small_refill_from strict sc extra_slab lifo bit fresh remaining c c.available
