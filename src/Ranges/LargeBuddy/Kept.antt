-- ===== src/Ranges/LargeBuddy/Kept.antt =====
-- src/snmalloc/backend_helpers/largebuddyrange.h: what is done to the flags, the histogram and the
-- platform, apart from the parent's memory.
use snmalloc.Base.{
  ℕ, ◌+◌, ◌≡◌, refl, if◌then◌else◌, Bool, true, false, not, ◌&&◌, ltb, ◌==◌, List, [], ◌∷◌,
}
use snmalloc.Bits.{sub_word, one_at_bit}
use snmalloc.Base.{get_or}
use snmalloc.Buddy.{Tree, Entry}
use snmalloc.Buddy.Hooks.{KeptBy}
use snmalloc.Ranges.{Range}
use snmalloc.Ranges.ChunkRep.{
  Outside, num_buckets, is_decommitted, set_decommitted, on_consolidate, on_split, on_add,
  on_remove, chunk_rep,
}
use snmalloc.Ranges.LargeBuddy.{
  LargeBuddyRange, decommit, decommit_each, sweep, touch_bucket, maybe_sweep_decay, recommit,
  settle,
}

-- A property of the state that no step outside the range changes.
pub record OutsideKept {S : Type 0} (out : Outside S) (Kept : S → Type 0) : Type 0 where
  pub set_word_one-Kept : (k w : ℕ) (s : S) → Kept s → Kept (out.set_word_one k w s)
  pub set_counts-Kept : (counts : List ℕ) (s : S) → Kept s → Kept (out.set_counts counts s)
  pub notify_using-Kept : (a n : ℕ) (s : S) → Kept s → Kept (out.notify_using a n s)
  pub notify_not_using-Kept : (a n : ℕ) (s : S) → Kept s → Kept (out.notify_not_using a n s)
  pub time_in_ms-Kept : (s : S) → Kept s → Kept ((out.time_in_ms s).1)

module _ {S : Type 0} (Kept : S → Type 0) where
  pub Kept-if : {x y : S} (b : Bool) → Kept x → Kept y → Kept (if b then x else y)
  Kept-if true p q = p
  Kept-if false p q = q

module _ {S T : Type 0} (Kept : S → Type 0) where
  -- The buddy allocator stays, and the property is kept.
  pub record Beside (s left : LargeBuddyRange S T) : Type 0 where
    pub same_buddy : left.buddy_large ≡ s.buddy_large
    pub still-Kept : Kept left.parent

  pub Beside-if :
      {s x y : LargeBuddyRange S T} (b : Bool)
      → Beside s x
      → Beside s y
      → Beside s (if b then x else y)
  Beside-if true p q = p
  Beside-if false p q = q

module _ {S : Type 0} {out : Outside S} (chunk_bits : ℕ) {Kept : S → Type 0}
    (keeps : OutsideKept out Kept) where
  pub set_decommitted-Kept :
      (k : ℕ) (b : Bool) (s : S) → Kept s → Kept (set_decommitted out chunk_bits k b s)
  unfolding set_decommitted
  set_decommitted-Kept k true s h =
      Kept-if Kept (is_decommitted out chunk_bits k s) h (keeps.set_word_one-Kept k _ s h)
  set_decommitted-Kept k false s h =
      Kept-if Kept (is_decommitted out chunk_bits k s) (keeps.set_word_one-Kept k _ s h) h

  on_consolidate-Kept : (k n : ℕ) (s : S) → Kept s → Kept (on_consolidate out chunk_bits k n s)
  unfolding on_consolidate
  on_consolidate-Kept k n s h =
      Kept-if Kept (is_decommitted out chunk_bits k s)
        (set_decommitted-Kept k false _ (keeps.notify_using-Kept k n s h)) h

  on_add-Kept : (b : ℕ) (s : S) → Kept s → Kept (on_add out chunk_bits b s)
  unfolding on_add
  on_add-Kept b s h =
      Kept-if Kept (ltb (sub_word b chunk_bits) num_buckets) (keeps.set_counts-Kept _ s h) h

  on_remove-Kept : (b : ℕ) (s : S) → Kept s → Kept (on_remove out chunk_bits b s)
  unfolding on_remove
  on_remove-Kept b s h =
      Kept-if Kept (ltb (sub_word b chunk_bits) num_buckets) (keeps.set_counts-Kept _ s h) h

  pub chunk_rep-KeptBy : KeptBy (chunk_rep out chunk_bits) Kept
  unfolding on_split
  chunk_rep-KeptBy = record {
    on_consolidate-Kept = on_consolidate-Kept;
    on_split-Kept = λ a b size s h. set_decommitted-Kept b _ s h;
    on_add-Kept = on_add-Kept;
    on_remove-Kept = on_remove-Kept;
  }

  decommit-Kept : (b a : ℕ) (s : S) → Kept s → Kept (decommit out chunk_bits b a s)
  unfolding decommit
  decommit-Kept b a s h =
      Kept-if Kept (is_decommitted out chunk_bits a s) h
        (set_decommitted-Kept a true _ (keeps.notify_not_using-Kept a (one_at_bit b) s h))

  decommit_each-Kept :
      (b : ℕ) (addrs : List ℕ) (s : S) → Kept s → Kept (decommit_each out chunk_bits b addrs s)
  unfolding decommit_each
  decommit_each-Kept b [] s h = h
  decommit_each-Kept b (a ∷ addrs) s h = decommit_each-Kept b addrs _ (decommit-Kept b a s h)

  module _ {T : Type 0} (tree : Tree T) where
    sweep-Kept :
        (now decay idx : ℕ) (es : List (Entry T)) (lasts : List ℕ) (s : S)
        → Kept s
        → Kept (sweep out chunk_bits tree now decay idx es lasts s)
    unfolding sweep
    sweep-Kept now decay idx [] lasts s h = h
    sweep-Kept now decay idx (e ∷ es) lasts s h = sweep-Kept now decay (idx + 1) es lasts _ (
        Kept-if Kept (ltb (sub_word now (get_or lasts idx 0)) decay) h
          (decommit_each-Kept (chunk_bits + idx) _ s h))

    module _ (range : Range S) (refill_bits max_bits min_refill_bits : ℕ) (manages : Bool) where
      pub touch_bucket-Beside :
          (idx : ℕ) (s : LargeBuddyRange S T)
          → Kept s.parent
          → Beside Kept s (
              touch_bucket out chunk_bits tree range refill_bits max_bits min_refill_bits manages
                idx s)
      unfolding touch_bucket
      touch_bucket-Beside idx s h =
          Beside-if Kept manages
            (record { same_buddy = refl; still-Kept = keeps.time_in_ms-Kept s.parent h })
            (record { same_buddy = refl; still-Kept = h })

      pub maybe_sweep_decay-Beside :
          (s : LargeBuddyRange S T)
          → Kept s.parent
          → Beside Kept s (
              maybe_sweep_decay out chunk_bits tree range refill_bits max_bits min_refill_bits
                manages s)
      unfolding maybe_sweep_decay
      maybe_sweep_decay-Beside s h =
          let t = out.time_in_ms s.parent in
          let timed = keeps.time_in_ms-Kept s.parent h in
          Beside-if Kept (manages && not (out.decay_rate_ms s.parent == 0))
            (Beside-if Kept (ltb (t.0) s.next_sweep_due_ms)
              (record { same_buddy = refl; still-Kept = timed })
              (record {
                same_buddy = refl;
                still-Kept =
                    sweep-Kept (t.0) (out.decay_rate_ms s.parent) 0 s.buddy_large.entries
                      s.last_touched_ms (t.1) timed;
              }))
            (record { same_buddy = refl; still-Kept = h })

      pub settle-Beside :
          (base landed : ℕ) (s : LargeBuddyRange S T)
          → Kept s.parent
          → Beside Kept s (
              settle out chunk_bits tree range refill_bits max_bits min_refill_bits manages base
                landed s)
      unfolding settle
      settle-Beside base landed s h =
          let given = keeps.notify_not_using-Kept _ (one_at_bit landed) s.parent h in
          Beside-if Kept manages
            (Beside-if Kept (out.decay_rate_ms s.parent == 0)
              (record { same_buddy = refl; still-Kept = set_decommitted-Kept _ true _ given })
              (touch_bucket-Beside (sub_word landed chunk_bits) s h))
            (record { same_buddy = refl; still-Kept = h })

      pub recommit-Beside :
          (addr size : ℕ) (s : LargeBuddyRange S T)
          → Kept s.parent
          → Beside Kept s (
              recommit out chunk_bits tree range refill_bits max_bits min_refill_bits manages addr
                size s)
      unfolding recommit
      recommit-Beside addr size s h =
          let used = out.notify_using addr size s.parent in
          let used_kept = keeps.notify_using-Kept addr size s.parent h in
          let swept = maybe_sweep_decay-Beside _ (
            Kept-if Kept (is_decommitted out chunk_bits addr used)
              (set_decommitted-Kept addr false used used_kept) used_kept) in
          Beside-if Kept manages
            (record { same_buddy = swept.same_buddy; still-Kept = swept.still-Kept })
            (record { same_buddy = refl; still-Kept = h })
