-- ===== src/Ranges/LargeBuddy.antt =====
-- src/snmalloc/backend_helpers/largebuddyrange.h: `LargeBuddyRange`, a buddy allocator for chunks
-- over a range that gives aligned blocks, with a largest size below 2 ^ 63. `chunk_bits` is
-- MIN_CHUNK_BITS, `max_bits` MAX_SIZE_BITS, `refill_bits` REFILL_SIZE_BITS, `min_refill_bits`
-- MIN_REFILL_SIZE_BITS and `manages` MANAGES_COMMITTED_MEMORY; the platform has a clock.
pub mod Kept
pub mod Adding
pub mod Refilling
pub mod Allocating
pub mod Refines
pub mod Idle
pub mod Deallocating
use Prim.Native.Nat.{min, max}
use snmalloc.Base.{
  ℕ, suc, ◌+◌, ◌-◌, ◌%◌, ◌^◌, bit_and, bit_xor, Bool, true, false, not, ◌&&◌, ltb, leb, ◌==◌,
}
use snmalloc.Base.{if◌then◌else◌, List, [], ◌∷◌, get_or, set, Option, none, some}
use snmalloc.Bits.{word, one_at_bit, mask_bits, next_pow2, next_pow2_bits, sub_word}
use snmalloc.Blocks.{range_to_pow_2_blocks}
use snmalloc.Buddy.{null, buddy, rep_align_down, Tree, Rep, Entry, Outcome, for_each_in_bucket}
use snmalloc.Buddy.Array.{Buddy, add_to, remove_from, left_in}
use snmalloc.Ranges.{Range}
use snmalloc.Ranges.ChunkRep.{Outside, is_decommitted, set_decommitted, chunk_rep}

pub record LargeBuddyRange (S T : Type 0) : Type 0 where
  pub requested_total : ℕ
  pub buddy_large : Buddy T
  pub last_touched_ms : List ℕ
  pub next_sweep_due_ms : ℕ
  pub parent : S

-- The size that `refill` asks the parent for.
unfoldable pub refill_size : (refill_bits min_refill_bits requested_total size : ℕ) → ℕ
refill_size refill_bits min_refill_bits requested_total size =
    next_pow2
      (max (max (min (one_at_bit refill_bits) requested_total) (one_at_bit min_refill_bits)) size)

-- Of an output parameter that is 0 before the call.
abbrev pub landed_size_bits : Option ℕ → ℕ
landed_size_bits none = 0
landed_size_bits (some bits) = bits

module _ {S : Type 0} (out : Outside S) (chunk_bits : ℕ) where
  -- What the sweep does to a free chunk of an idle bucket.
  unfoldable pub decommit : (size_bits addr : ℕ) → S → S
  decommit size_bits addr s =
      if is_decommitted out chunk_bits addr s
      then s
      else set_decommitted out chunk_bits addr true
          (out.notify_not_using addr (one_at_bit size_bits) s)

  unfoldable pub decommit_each : (size_bits : ℕ) → List ℕ → S → S
  decommit_each size_bits [] s = s
  decommit_each size_bits (addr ∷ addrs) s =
      decommit_each size_bits addrs (decommit size_bits addr s)

  module _ {T : Type 0} (tree : Tree T) where
    -- The loop over the buckets from `idx` on.
    unfoldable pub sweep : (now decay_ms idx : ℕ) → List (Entry T) → List ℕ → S → S
    sweep now decay_ms idx [] last_touched_ms s = s
    sweep now decay_ms idx (e ∷ es) last_touched_ms s =
        let idle = sub_word now (get_or last_touched_ms idx 0) in
        sweep now decay_ms (idx + 1) es last_touched_ms (
          if ltb idle decay_ms
          then s
          else decommit_each (chunk_bits + idx)
              (for_each_in_bucket (chunk_rep out chunk_bits) tree chunk_bits e) s)

    module _ (range : Range S) (refill_bits max_bits min_refill_bits : ℕ) (manages : Bool) where
      unfoldable pub touch_bucket : (idx : ℕ) → LargeBuddyRange S T → LargeBuddyRange S T
      touch_bucket idx s =
          let t = out.time_in_ms s.parent in
          if manages
          then record s { last_touched_ms = set s.last_touched_ms idx (t.0); parent = t.1 }
          else s

      unfoldable pub maybe_sweep_decay : LargeBuddyRange S T → LargeBuddyRange S T
      maybe_sweep_decay s =
          let decay_ms = out.decay_rate_ms s.parent in
          let t = out.time_in_ms s.parent in
          if manages && not (decay_ms == 0)
          then if ltb (t.0) s.next_sweep_due_ms then record s { parent = t.1 } else record s {
            parent = sweep (t.0) decay_ms 0 s.buddy_large.entries s.last_touched_ms (t.1);
            next_sweep_due_ms = (t.0 + decay_ms) % word;
          }
          else s

      unfoldable pub dealloc_overflow : (overflow : ℕ) → LargeBuddyRange S T → LargeBuddyRange S T
      dealloc_overflow overflow s =
          if overflow == null
          then s
          else record s { parent = range.dealloc_range overflow (one_at_bit max_bits) s.parent }

      -- The block that `add_block` has taken: the array and the outside afterwards.
      abbrev pub after : Outcome S T → LargeBuddyRange S T → LargeBuddyRange S T
      after o s = record s {
        buddy_large = left_in (chunk_rep out chunk_bits) tree chunk_bits o;
        parent = o.rep;
      }

      -- The function that `add_range` is called with on each block.
      unfoldable pub add_chunks : (base align : ℕ) → LargeBuddyRange S T → LargeBuddyRange S T
      add_chunks base align s =
          let o =
            add_to (chunk_rep out chunk_bits) tree chunk_bits base (next_pow2_bits align)
              s.buddy_large s.parent in
          let touched =
            touch_bucket (sub_word (landed_size_bits o.landed) chunk_bits) (after o s) in
          dealloc_overflow o.block (if o.block == null then touched else after o s)

      unfoldable pub add_blocks : List (ℕ × ℕ) → LargeBuddyRange S T → LargeBuddyRange S T
      add_blocks [] s = s
      add_blocks ((base, align) ∷ blocks) s = add_blocks blocks (add_chunks base align s)

      unfoldable pub add_range : (base length : ℕ) → LargeBuddyRange S T → LargeBuddyRange S T
      add_range base length s = add_blocks (range_to_pow_2_blocks chunk_bits base length) s

      unfoldable pub refill : (size : ℕ) → LargeBuddyRange S T → ℕ × LargeBuddyRange S T
      refill size s =
          let n = refill_size refill_bits min_refill_bits s.requested_total size in
          let r = range.alloc_range n s.parent in
          let s' : LargeBuddyRange S T = record s {
            requested_total = (s.requested_total + n) % word;
            parent = r.1;
          } in
          if r.0 == null
          then (r.0, record s { parent = r.1 })
          else (r.0, add_range (r.0 + size) (n - size) s')

      -- A block from the buddy allocator may have been decommitted while it was free.
      unfoldable pub recommit : (addr size : ℕ) → LargeBuddyRange S T → LargeBuddyRange S T
      recommit addr size s =
          let used = out.notify_using addr size s.parent in
          if manages
          then maybe_sweep_decay (record s {
            parent =
                if is_decommitted out chunk_bits addr used
                then set_decommitted out chunk_bits addr false used
                else used;
          })
          else s

      unfoldable pub alloc_range : (size : ℕ) → LargeBuddyRange S T → ℕ × LargeBuddyRange S T
      alloc_range size s =
          let passed = range.alloc_range size s.parent in
          let o =
            remove_from (chunk_rep out chunk_bits) tree chunk_bits (next_pow2_bits size)
              s.buddy_large s.parent in
          let filled = refill size (after o s) in
          if leb (mask_bits max_bits) size
          then (passed.0, record s { parent = passed.1 })
          else if o.block == null
          then (filled.0, maybe_sweep_decay (filled.1))
          else (o.block, recommit o.block size (after o s))

      -- A block that has landed in the buddy allocator: its memory is given back at once, or its
      -- bucket's idle time starts.
      unfoldable pub settle : (base landed : ℕ) → LargeBuddyRange S T → LargeBuddyRange S T
      settle base landed s =
          let landed_base = rep_align_down base (one_at_bit landed) in
          let given = out.notify_not_using landed_base (one_at_bit landed) s.parent in
          if manages
          then if out.decay_rate_ms s.parent == 0
            then record s { parent = set_decommitted out chunk_bits landed_base true given }
            else touch_bucket (sub_word landed chunk_bits) s
          else s

      unfoldable pub dealloc_range : (base size : ℕ) → LargeBuddyRange S T → LargeBuddyRange S T
      dealloc_range base size s =
          let o =
            add_to (chunk_rep out chunk_bits) tree chunk_bits base (next_pow2_bits size)
              s.buddy_large s.parent in
          let settled = settle base (landed_size_bits o.landed) (after o s) in
          if leb (mask_bits max_bits) size
          then record s { parent = range.dealloc_range base size s.parent }
          else maybe_sweep_decay
              (dealloc_overflow o.block (if o.block == null then settled else after o s))

      unfoldable pub large_buddy_range : Range (LargeBuddyRange S T)
      large_buddy_range = record { alloc_range = alloc_range; dealloc_range = dealloc_range }
