-- ===== src/Ranges/Passing.antt =====
-- The ranges of src/snmalloc/backend_helpers that pass calls on to their parent: empty_range.h,
-- palrange.h, noprange.h, logrange.h, staticrange.h, indirectrange.h, lockrange.h, commitrange.h with
-- the counters of fragstats.h, statsrange.h, staticconditionalrange.h, pagemapregisterrange.h and
-- subrange.h. Calls run one at a time; a compare-and-exchange loop is then one step. SNMALLOC_TRACING
-- is off and SNMALLOC_STATS_BASIC on.
pub mod Laws
pub mod Stack
pub mod Usage
use Prim.Native.Nat.{max}
use snmalloc.Base.{
  ℕ, zero, suc, ◌+◌, ◌-◌, ◌*◌, ◌%◌, ◌^◌, bit_and, Bool, true, false, ltb, leb, ◌==◌, ◌||◌,
}
use snmalloc.Base.{if◌then◌else◌, List, [], ◌∷◌, Option, none, some}
use snmalloc.Bits.{word, bits, next_pow2_bits, sub_word}
use snmalloc.Buddy.{null}
use snmalloc.Ranges.{Range}

-- A range that never has memory; it takes none.
unfoldable pub empty_alloc_range : {S : Type 0} → (size : ℕ) → S → ℕ × S
empty_alloc_range size s = (null, s)

-- The platform's reservation, aligned or not, is an argument.
unfoldable pub pal_alloc_range : {S : Type 0} (reserve : ℕ → S → ℕ × S) (size : ℕ) → S → ℕ × S
pal_alloc_range reserve size s =
    if leb (bits - 1) (next_pow2_bits size) then (null, s) else reserve size s

-- NopRange, LogRange, StaticRange, IndirectRange, and LockRange around each of its calls.
unfoldable pub nop_range : {S : Type 0} → Range S → Range S
nop_range parent = record {
  alloc_range = λ size s. parent.alloc_range size s;
  dealloc_range = λ base size s. parent.dealloc_range base size s;
}

-- The state of a range that counts, beside its parent's.
pub record FragCounters : Type 0 where
  pub bytes_committed : ℕ
  pub bytes_decommitted_to_os : ℕ

unfoldable pub on_commit : ℕ → FragCounters → FragCounters
on_commit size c = record c { bytes_committed = (c.bytes_committed + size) % word }

-- The first counter stops at 0.
unfoldable pub on_decommit : ℕ → FragCounters → FragCounters
on_decommit size c = record {
  bytes_committed = if leb size c.bytes_committed then c.bytes_committed - size else 0;
  bytes_decommitted_to_os = (c.bytes_decommitted_to_os + size) % word;
}

pub record CommitRange (S : Type 0) : Type 0 where
  pub counters : FragCounters
  pub parent : S

module _ {S : Type 0} (range : Range S) where
  -- `notify_using` may fail; the range then goes back.
  module _ (notify_using : (addr size : ℕ) → S → Bool × S)
      (notify_not_using : (addr size : ℕ) → S → S) where
    unfoldable pub commit_alloc_range : ℕ → CommitRange S → ℕ × CommitRange S
    commit_alloc_range size s =
        let r = range.alloc_range size s.parent in
        let used = notify_using (r.0) size (r.1) in
        if r.0 == null
        then (r.0, record s { parent = r.1 })
        else if used.0
        then (r.0, record { counters = on_commit size s.counters; parent = used.1 })
        else (null, record s { parent = range.dealloc_range (r.0) size (used.1) })

    unfoldable pub commit_dealloc_range : (base size : ℕ) → CommitRange S → CommitRange S
    commit_dealloc_range base size s = record {
      counters = on_decommit size s.counters;
      parent = range.dealloc_range base size (notify_not_using base size s.parent);
    }

    unfoldable pub commit_range : Range (CommitRange S)
    commit_range = record { alloc_range = commit_alloc_range; dealloc_range = commit_dealloc_range }

pub record StatsRange (S : Type 0) : Type 0 where
  pub current_usage : ℕ
  pub peak_usage : ℕ
  pub parent : S

module _ {S : Type 0} (range : Range S) where
  unfoldable pub stats_alloc_range : ℕ → StatsRange S → ℕ × StatsRange S
  stats_alloc_range size s =
      let r = range.alloc_range size s.parent in
      let usage = (s.current_usage + size) % word in
      if r.0 == null then (r.0, record s { parent = r.1 }) else (
        r.0,
        record {
          current_usage = usage;
          peak_usage = if ltb s.peak_usage usage then usage else s.peak_usage;
          parent = r.1;
        },
      )

  unfoldable pub stats_dealloc_range : (base size : ℕ) → StatsRange S → StatsRange S
  stats_dealloc_range base size s = record s {
    current_usage = sub_word s.current_usage size;
    parent = range.dealloc_range base size s.parent;
  }

  unfoldable pub stats_range : Range (StatsRange S)
  stats_range = record { alloc_range = stats_alloc_range; dealloc_range = stats_dealloc_range }

-- A run of calls.
pub data RangeCall : Type 0 where
  alloc_call : (size : ℕ) → RangeCall
  dealloc_call : (base size : ℕ) → RangeCall

unfoldable pub call : {S : Type 0} → Range S → RangeCall → S → S
call range (alloc_call size) s = (range.alloc_range size s).1
call range (dealloc_call base size) s = range.dealloc_range base size s

-- An optional range over its parent, as functions that act on the state of the pair.
module _ {S : Type 0} (disable_range : S → Bool) (optional ancestor : Range S) where
  unfoldable pub conditional_alloc_range : ℕ → S → ℕ × S
  conditional_alloc_range size s =
      if disable_range s then ancestor.alloc_range size s else optional.alloc_range size s

  unfoldable pub conditional_dealloc_range : (base size : ℕ) → S → S
  conditional_dealloc_range base size s =
      if disable_range s
      then ancestor.dealloc_range base size s
      else optional.dealloc_range base size s

  unfoldable pub conditional_range : Range S
  conditional_range = record {
    alloc_range = conditional_alloc_range;
    dealloc_range = conditional_dealloc_range;
  }

-- Memory whose registration fails is lost.
unfoldable pub register_alloc_range :
    {S : Type 0} (range : Range S) (register_range : (addr size : ℕ) → S → Bool × S) (size : ℕ)
    → S
    → ℕ × S
register_alloc_range range register_range size s =
    let r = range.alloc_range size s in
    let registered = register_range (r.0) size (r.1) in
    if r.0 == null then r else if registered.0 then (r.0, registered.1) else (null, registered.1)

-- The loop of SubRange draws until the offset is neither the first nor the last; `draws` is what
-- the platform's entropy gives, one number per round.
unfoldable pub draw_offset : (offset_mask : ℕ) → List ℕ → Option ℕ
draw_offset offset_mask [] = none
draw_offset offset_mask (draw ∷ draws) =
    let offset = bit_and draw offset_mask in
    let rest = draw_offset offset_mask draws in
    if (offset == 0) || (offset == offset_mask) then rest else some offset

unfoldable pub sub_alloc_range :
    {S : Type 0} (range : Range S) (ratio_bits : ℕ) (draws : List ℕ) (sub_size : ℕ)
    → S
    → Option (ℕ × S)
sub_alloc_range range ratio_bits draws sub_size s =
    let full_size = sub_size * 2 ^ ratio_bits % word in
    let overblock = range.alloc_range full_size s in
    if overblock.0 == null
    then some (null, overblock.1)
    else elim (draw_offset (sub_word full_size sub_size) draws) [
      | none ↦ none
      | some offset ↦ some (overblock.0 + offset, overblock.1)
    ]
