-- ===== src/SlabMeta.antt =====
-- src/snmalloc/mem/metadata.h, `FrontendSlabMetadata`: how many deallocations a slab waits for
-- until it changes its state. The counter `needed` is a `uint16_t` and wraps at 2 ^ 16; of the
-- free list only the number of its entries, `queued`, is kept. `strict` is the mitigation
-- `random_larger_thresholds`, and the number after it is the size class.
pub mod Counters
pub mod Rounds
pub mod Batch
mod Tests
use snmalloc.Base.{
  ℕ, zero, suc, ◌+◌, ◌-◌, ◌%◌, ◌^◌, Bool, true, false, ltb, leb, ◌==◌, if◌then◌else◌, not, ◌&&◌,
}
use snmalloc.Sizeclass.{threshold_for_waking_slab, sizeclass_to_slab_object_count}

-- Arithmetic of a `uint16_t`.
abbrev pub sub_uint16 : ℕ → ℕ → ℕ
sub_uint16 a b = (a + 2 ^ 16 - b) % 2 ^ 16

abbrev pub add_uint16 : ℕ → ℕ → ℕ
add_uint16 a b = (a + b) % 2 ^ 16

-- `ident` is the address of the record.
pub record Slab : Type 0 where
  pub ident : ℕ
  pub queued : ℕ
  pub needed : ℕ
  pub sleeping : Bool
  pub large : Bool

-- The new record, and whether the slab is asleep.
unfoldable pub set_sleeping : Bool → ℕ → ℕ → Slab → Slab × Bool
set_sleeping strict sc remaining m =
    let threshold = threshold_for_waking_slab strict sc in
    let allocated = sizeclass_to_slab_object_count strict sc in
    if leb threshold remaining
    then (record m { needed = sub_uint16 allocated remaining; sleeping = false }, false)
    else (record m { needed = sub_uint16 threshold remaining; sleeping = true }, true)

unfoldable pub set_not_sleeping : Bool → ℕ → Slab → Slab
set_not_sleeping strict sc m =
    let allocated = sizeclass_to_slab_object_count strict sc in
    record m {
      needed = sub_uint16 allocated (threshold_for_waking_slab strict sc);
      sleeping = false;
    }

unfoldable pub initialise : Bool → ℕ → Slab → Slab
initialise strict sc m =
    let asleep = (set_sleeping strict sc 0 (record m { queued = 0 })).0 in
    record asleep { large = false }

unfoldable pub initialise_large : Slab → Slab
initialise_large m = record m { queued = 0; large = true; needed = 1 }

-- The new record, and whether that was the last deallocation that the slab waits for.
unfoldable pub return_object : Slab → Slab × Bool
return_object m = let needed = sub_uint16 m.needed 1 in (record m { needed = needed }, needed == 0)

unfoldable pub is_unused : Slab → Bool
is_unused m = m.needed == 0

-- What `free_queue.close` leaves in the list is `remaining`; the rest is taken. The result is the
-- record, whether the slab stays active, and the number of objects taken.
unfoldable pub alloc_free_list : Bool → ℕ → ℕ → Slab → Slab × Bool × ℕ
alloc_free_list strict sc remaining m =
    let slept = set_sleeping strict sc remaining (record m { queued = remaining }) in
    (slept.0, not slept.1, m.queued - remaining)

-- `ReturnObjectsIterator`: the objects that are still to be returned, and the slab.
pub record Returning : Type 0 where
  pub batch : ℕ
  pub meta : Slab

unfoldable pub step : (first : Bool) → Returning → Returning × Bool
step first it =
    if not first && it.batch == 0
    then (it, false)
    else if ltb it.batch it.meta.needed
    then (
      record it { meta = record it.meta { needed = sub_uint16 it.meta.needed it.batch } },
      false,
    )
    else (
      record { batch = sub_uint16 it.batch it.meta.needed; meta = record it.meta { needed = 0 } },
      true,
    )

-- What the slow path does to the record of a small slab whose counter is 0: a sleeping slab is
-- woken, an unused one is left for its class to give back.
unfoldable pub wake : Bool → ℕ → Slab → Slab
wake strict sc m = if m.sleeping then set_not_sleeping strict sc m else m

-- The loop over `step` in `handle_dealloc_remote` of src/snmalloc/mem/corealloc.h; three rounds are enough, since a slab changes its state at most twice.
unfoldable pub return_objects : Bool → ℕ → ℕ → (first : Bool) → Returning → Slab
return_objects strict sc zero first it = it.meta
return_objects strict sc (suc fuel) first it =
    let r = step first it in
    let woken = record r.0 { meta = wake strict sc r.0.meta } in
    let rest = return_objects strict sc fuel false woken in if r.1 then rest else r.0.meta

-- One object at a time.
unfoldable pub return_each : Bool → ℕ → ℕ → Slab → Slab
return_each strict sc zero m = m
return_each strict sc (suc n) m =
    let r = return_object m in return_each strict sc n (if r.1 then wake strict sc r.0 else r.0)
