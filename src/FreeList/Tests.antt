-- ===== src/FreeList/Tests.antt =====
-- Two objects in the lists of src/snmalloc/mem/freelist.h.
use snmalloc.Base.{ℕ, ◌+◌, ◌<◌, ◌≡◌, ◌≢◌, inl, refl, arith, true}
use snmalloc.Base.{List, [], ◌∷◌, all_nil, all_cons, length, some, none}
use snmalloc.FreeList
use snmalloc.FreeList.{Memory, Mitigations, FreeListKey, Queue, Builder, Iter, nullptr, uint16}
use snmalloc.FreeList.Segment.{Spread, Segment}
use snmalloc.FreeList.Building.{IsQueue, IsBuilder, Clear}
use snmalloc.FreeList.Adding.{IsNew, add-IsBuilder}
use snmalloc.FreeList.Closing.{close_lem}
use snmalloc.FreeList.Validate.{validate-IsQueue, validate_sound}
use snmalloc.FreeList.Moving.{append_segment-extract_segment}

abbrev checks : Mitigations
checks = record {
  freelist_forward_edge = true;
  freelist_backward_edge = true;
  freelist_teardown_validate = true;
  clear_meta = true;
}

abbrev key : FreeListKey
key = record { key1 = 3735928559; key2 = 3203391149; key_next = 3735928559 }

abbrev blank : Memory
blank = λ a. 0

abbrev no_objects : Builder
no_objects = record {
  list_0 = record { head = 4096; last = 4096; length = 0 };
  list_1 = record { head = 4104; last = 4104; length = 0 };
}

no_objects-IsBuilder : IsBuilder checks key 7 blank no_objects [] []
unfolding Segment Spread Clear
no_objects-IsBuilder = record {
  queue_0 = record {
    spread = tt;
    nonnull = all_nil;
    linked = refl;
    counted = refl;
    small = omega arith;
  };
  queue_1 = record {
    spread = tt;
    nonnull = all_nil;
    linked = refl;
    counted = refl;
    small = omega arith;
  };
  clear_0 = ((λ h. absurd (omega arith)), all_nil, all_nil);
  clear_1 = ((λ h. absurd (omega arith)), all_nil, all_nil);
}

object-IsNew : IsNew 8192 no_objects [] []
object-IsNew = record {
  some_n = λ h. absurd (omega arith);
  head_0_n = inl (omega arith);
  head_1_n = inl (omega arith);
  n_xs = all_nil;
  n_ys = all_nil;
}

abbrev with_object : Memory × Builder
with_object = FreeList.add checks key 7 blank no_objects 8192 0

one_object : IsBuilder checks key 7 (with_object.0) (with_object.1) (8192 ∷ []) []
one_object =
    add-IsBuilder checks key 7 blank no_objects [] [] 8192 0 no_objects-IsBuilder object-IsNew
      (omega arith) (omega arith)

add-IsBuilder_example : IsBuilder checks key 7 (with_object.0) (with_object.1) (8192 ∷ []) []
add-IsBuilder_example =
    add-IsBuilder checks key 7 blank no_objects [] [] 8192 0 no_objects-IsBuilder object-IsNew
      (omega arith) (omega arith)

-- The first list is the longer: its object is given, and no length is left.
close_lem_example :
    let closed = FreeList.close checks key 7 (with_object.0) (with_object.1) in
    (m2 : Memory) × (FreeList.take_all checks key 7 1 (closed.1) (closed.2) ≡ some (8192 ∷ [], m2))
    × (closed.0 ≡ 0)
    × IsBuilder checks key 7 m2 (closed.3) [] []
close_lem_example = close_lem checks key 7 (with_object.0) (with_object.1) (8192 ∷ []) [] one_object

-- The object's back pointer is overwritten after it was freed: taking it fails.
overwritten_fails :
    let closed = FreeList.close checks key 7 (with_object.0) (with_object.1) in
    FreeList.iter_take checks key 7 (FreeList.store (closed.1) 8200 1) (closed.2) ≡ none
unfolding FreeList.close FreeList.iter_take FreeList.add FreeList.queue_add FreeList.queue_close
    FreeList.store_next FreeList.store FreeList.store_null FreeList.read_next FreeList.read_head
    FreeList.code_next FreeList.signed_prev FreeList.get_fake_signed_prev
overwritten_fails = refl

validate-IsQueue_example :
    FreeList.validate checks key 7 1 (with_object.0) ((with_object.1).list_0) ≡ true
validate-IsQueue_example =
    validate-IsQueue checks key 7 1 (with_object.0) ((with_object.1).list_0) (8192 ∷ [])
      one_object.queue_0 (omega arith)

validate_sound_example :
    (xs : List ℕ) × Segment checks key 7
      (with_object.0)
      ((with_object.1).list_0).head
      xs
      ((with_object.1).list_0).last
    × (((with_object.1).list_0).length ≡ length xs)
validate_sound_example =
    validate_sound checks key 7 1 (with_object.0) ((with_object.1).list_0) refl (
      validate-IsQueue checks key 7 1 (with_object.0) ((with_object.1).list_0) (8192 ∷ [])
        one_object.queue_0 (omega arith))

-- Moved to an empty list of another builder.
abbrev other_list : Queue
other_list = record { head = 5120; last = 5120; length = 0 }

other_list-IsQueue : IsQueue checks key 7 (with_object.0) other_list []
unfolding Segment Spread
other_list-IsQueue = record {
  spread = tt;
  nonnull = all_nil;
  linked = refl;
  counted = refl;
  small = omega arith;
}

Spread-out : Spread 5120 (8192 ∷ [])
unfolding Spread
Spread-out = (all_cons (inl (omega arith)) all_nil, tt)

other_head : 5120 ≢ ((with_object.1).list_0).head
unfolding FreeList.add FreeList.queue_add
other_head h = absurd (omega (arith, h))

short : 0 + ((with_object.1).list_0).length < uint16
unfolding FreeList.add FreeList.queue_add
short = omega arith

append_segment-extract_segment_example :
    let out = FreeList.extract_segment checks key 7 (with_object.0) ((with_object.1).list_0) in
    let appended =
      FreeList.append_segment checks key 7
        (out.2)
        other_list
        (out.0)
        (out.1)
        ((with_object.1).list_0).length in
    IsQueue checks key 7 (appended.0) (appended.1) (8192 ∷ [])
    × IsQueue checks key 7 (out.2) (out.3) []
    × ((out.2) ((with_object.1).list_0).head ≡ 8192)
append_segment-extract_segment_example =
    append_segment-extract_segment checks key 7 (with_object.0) other_list []
      ((with_object.1).list_0) 8192 [] other_list-IsQueue one_object.queue_0 Spread-out
      (λ h. other_head h) all_nil short
