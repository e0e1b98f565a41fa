-- ===== src/Ranges/LargeBuddy/Idle.antt =====
-- src/snmalloc/backend_helpers/largebuddyrange.h: which memory is given back to the platform.
use snmalloc.Base.{ℕ, suc, ◌+◌, ◌^◌, ◌≤◌, ◌≡◌, refl, inl, inr, arith}
use snmalloc.Base.{Bool, true, false, not, ◌&&◌, ltb, Bool-cases, ◌==◌, if◌then◌else◌, get_or, sum}
use snmalloc.Base.{List, [], ◌∷◌, ◌++◌, All, all_nil, all_cons, Option, none, some}
use snmalloc.Bits.{sub_word}
use snmalloc.Buddy.{null, Tree, Entry, not_null, non_null, for_each_in_bucket, rep_align_down}
use snmalloc.Buddy.Measure.{TreeLaws, covers, total}
use snmalloc.Buddy.Slots.{sum-append}
use snmalloc.Ranges.{Range}
use snmalloc.Buddy.Hooks.{KeptBy}
use snmalloc.Ranges.ChunkRep.{
  Outside, set_decommitted, is_decommitted, chunk_rep, can_consolidate, on_consolidate, on_split,
  on_add, on_remove,
}
use snmalloc.Ranges.LargeBuddy.Kept.{
  OutsideKept, Beside, Beside-if, Kept-if, set_decommitted-Kept, chunk_rep-KeptBy,
  touch_bucket-Beside,
}
use snmalloc.Buddy.Landing.{HasLanded, overflows, lands}
use snmalloc.Ranges.LargeBuddy.{
  LargeBuddyRange, decommit, decommit_each, sweep, maybe_sweep_decay, settle, touch_bucket,
  landed_size_bits, dealloc_overflow,
}

-- A property of the state that all steps beside the range keep, but giving back memory only if
-- all of it, unless it is at null, is among the bytes that `free` counts.
pub record IdleKept {S : Type 0} (out : Outside S) (free : ℕ → ℕ) (Kept : S → Type 0) : Type 0 where
  pub set_word_one-Kept : (k w : ℕ) (s : S) → Kept s → Kept (out.set_word_one k w s)
  pub set_counts-Kept : (counts : List ℕ) (s : S) → Kept s → Kept (out.set_counts counts s)
  pub notify_using-Kept : (a n : ℕ) (s : S) → Kept s → Kept (out.notify_using a n s)
  pub notify_not_using-Kept :
      (a bits : ℕ) (s : S)
      → ((x : ℕ) → covers x bits a ≤ free x)
      → Kept s
      → Kept (out.notify_not_using a (2 ^ bits) s)
  pub time_in_ms-Kept : (s : S) → Kept s → Kept ((out.time_in_ms s).1)

-- Blocks that together have no more than that.
All-le_sum :
    (bits : ℕ) (free : ℕ → ℕ) (xs : List ℕ)
    → ((x : ℕ) → sum (covers x bits) xs ≤ free x)
    → All (λ a. (x : ℕ) → covers x bits a ≤ free x) xs
unfolding sum
All-le_sum bits free [] le = all_nil
All-le_sum bits free (a ∷ xs) le =
    all_cons (λ x. omega (arith, le x)) (All-le_sum bits free xs (λ x. omega (arith, le x)))

sum-non_null : (f : ℕ → ℕ) (xs : List ℕ) → sum f (non_null xs) ≤ sum f xs
unfolding sum non_null
sum-non_null f [] = omega arith
sum-non_null f (x ∷ xs) = elim (Bool-cases (not_null x)) [
  | inl here ↦ rw (non_null, here) (omega (arith, sum-non_null f xs))
  | inr null_slot ↦ rw (non_null, null_slot) (omega (arith, sum-non_null f xs))
]

module _ {S : Type 0} {out : Outside S} (chunk_bits : ℕ) {free : ℕ → ℕ} {Kept : S → Type 0}
    (keeps : IdleKept out free Kept) where
  -- Beside the giving back, as for any property.
  narrowed : OutsideKept (record out { notify_not_using = λ a n s. s }) Kept
  narrowed = record {
    set_word_one-Kept = keeps.set_word_one-Kept;
    set_counts-Kept = keeps.set_counts-Kept;
    notify_using-Kept = keeps.notify_using-Kept;
    notify_not_using-Kept = λ a n s h. h;
    time_in_ms-Kept = keeps.time_in_ms-Kept;
  }

  pub idle-KeptBy : KeptBy (chunk_rep out chunk_bits) Kept
  unfolding can_consolidate on_consolidate on_split on_add on_remove set_decommitted is_decommitted
  idle-KeptBy = chunk_rep-KeptBy chunk_bits narrowed

  flag-Kept : (k : ℕ) (b : Bool) (s : S) → Kept s → Kept (set_decommitted out chunk_bits k b s)
  unfolding set_decommitted is_decommitted
  flag-Kept k b s h = set_decommitted-Kept chunk_bits narrowed k b s h

  decommit_each-idle :
      (bits : ℕ) (addrs : List ℕ) (s : S)
      → All (λ a. (x : ℕ) → covers x bits a ≤ free x) addrs
      → Kept s
      → Kept (decommit_each out chunk_bits bits addrs s)
  unfolding decommit_each decommit
  decommit_each-idle bits [] s all_nil h = h
  decommit_each-idle bits (a ∷ addrs) s (all_cons le les) h = decommit_each-idle bits addrs _ les (
      Kept-if Kept (is_decommitted out chunk_bits a s) h
        (flag-Kept a true _ (keeps.notify_not_using-Kept a bits s le h)))

  module _ {T : Type 0} (tree : Tree T) where
    sweep-idle :
        (now decay idx : ℕ) (es : List (Entry T)) (lasts : List ℕ) (s : S)
        → ((x : ℕ) → total tree (covers x) (chunk_bits + idx) es ≤ free x)
        → Kept s
        → Kept (sweep out chunk_bits tree now decay idx es lasts s)
    unfolding sweep total for_each_in_bucket
    sweep-idle now decay idx [] lasts s le h = h
    sweep-idle now decay idx (e ∷ es) lasts s le h =
        let next : suc (chunk_bits + idx) ≡ chunk_bits + (idx + 1) = omega arith in
        let blocks : (x : ℕ)
            → sum (covers x (chunk_bits + idx)) (non_null e.cache ++ tree.contents e.tree)
              ≤ free x =
          λ x. omega (
            arith,
            le x,
            sum-append (covers x (chunk_bits + idx)) (non_null e.cache) (tree.contents e.tree),
            sum-append (covers x (chunk_bits + idx)) e.cache (tree.contents e.tree),
            sum-non_null (covers x (chunk_bits + idx)) e.cache,
          ) in
        sweep-idle now decay (idx + 1) es lasts _ (λ x. rw (← next) (omega (arith, le x)))
          (Kept-if Kept (ltb (sub_word now (get_or lasts idx 0)) decay) h (
            decommit_each-idle (chunk_bits + idx) _ s (All-le_sum (chunk_bits + idx) free _ blocks)
              h))

    module _ (range : Range S) (refill_bits max_bits min_refill_bits : ℕ) (manages : Bool) where
      pub maybe_sweep_decay-idle :
          (s : LargeBuddyRange S T)
          → ((x : ℕ) → total tree (covers x) chunk_bits s.buddy_large.entries ≤ free x)
          → Kept s.parent
          → Beside Kept s (
              maybe_sweep_decay out chunk_bits tree range refill_bits max_bits min_refill_bits
                manages s)
      unfolding maybe_sweep_decay
      maybe_sweep_decay-idle s le h =
          let t = out.time_in_ms s.parent in
          let timed = keeps.time_in_ms-Kept s.parent h in
          let start : chunk_bits ≡ chunk_bits + 0 = omega arith in
          Beside-if Kept (manages && not (out.decay_rate_ms s.parent == 0))
            (Beside-if Kept (ltb (t.0) s.next_sweep_due_ms)
              (record { same_buddy = refl; still-Kept = timed })
              (record {
                same_buddy = refl;
                still-Kept =
                    sweep-idle (t.0) (out.decay_rate_ms s.parent) 0 s.buddy_large.entries
                      s.last_touched_ms (t.1) (λ x. rw start at (le x)) timed;
              }))
            (record { same_buddy = refl; still-Kept = h })

      pub settle-idle :
          (base landed : ℕ) (s : LargeBuddyRange S T)
          → ((x : ℕ) → covers x landed (rep_align_down base (2 ^ landed)) ≤ free x)
          → Kept s.parent
          → Beside Kept s (
              settle out chunk_bits tree range refill_bits max_bits min_refill_bits manages base
                landed s)
      unfolding settle touch_bucket
      settle-idle base landed s le h =
          let given = keeps.notify_not_using-Kept _ landed s.parent le h in
          Beside-if Kept manages
            (Beside-if Kept (out.decay_rate_ms s.parent == 0)
              (record { same_buddy = refl; still-Kept = flag-Kept _ true _ given })
              (touch_bucket-Beside chunk_bits narrowed tree range refill_bits max_bits
                min_refill_bits manages (sub_word landed chunk_bits) s h))
            (record { same_buddy = refl; still-Kept = h })

      -- What is done about the block added before an overflow is passed on.
      pub settle_landed :
          {IsTree : T → Type 0} (tree_laws : TreeLaws tree IsTree) (base block : ℕ)
          (es : List (Entry T)) (landed : Option ℕ) (s : LargeBuddyRange S T)
          → HasLanded tree_laws chunk_bits max_bits base chunk_bits block es landed
          → ((x : ℕ) → total tree (covers x) chunk_bits es ≤ free x)
          → Kept s.parent
          → Beside Kept s (
              if block == null
              then settle out chunk_bits tree range refill_bits max_bits min_refill_bits manages
                  base
                  (landed_size_bits landed)
                  s
              else s)
      settle_landed tree_laws base block es none s (overflows some_block) le h =
          let over : (block == null) ≡ false = ground (arith, some_block) in
          rw over (record { same_buddy = refl; still-Kept = h })
      settle_landed tree_laws base block es (some k) s (lands no_block least lt around) le h =
          Beside-if Kept (block == null)
            (settle-idle base k s (λ x. omega (arith, around x, le x)) h)
            (record { same_buddy = refl; still-Kept = h })

      pub overflow-idle :
          (block : ℕ) (s : LargeBuddyRange S T)
          → ((a n : ℕ) (t : S) → Kept t → Kept (range.dealloc_range a n t))
          → Kept s.parent
          → Beside Kept s (
              dealloc_overflow out chunk_bits tree range refill_bits max_bits min_refill_bits
                manages block s)
      unfolding dealloc_overflow
      overflow-idle block s parent_keeps h =
          Beside-if Kept (block == null) (record { same_buddy = refl; still-Kept = h })
            (record { same_buddy = refl; still-Kept = parent_keeps _ _ s.parent h })
