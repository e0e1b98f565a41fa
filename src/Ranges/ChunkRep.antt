-- ===== src/Ranges/ChunkRep.antt =====
-- src/snmalloc/backend_helpers/largebuddyrange.h: what `BuddyChunkRep` and
-- `LargeBuddyFreeChunkHistogram`, with SNMALLOC_STATS_BASIC, keep beside the trees. The trees' nodes,
-- which the source keeps in the same words of the pagemap as the decommitted flag, are values in
-- RedBlack. `chunk_bits` is MIN_CHUNK_BITS.
use Prim.Native.Nat.{max}
use snmalloc.Base.{ℕ, ◌+◌, ◌-◌, ◌%◌, ◌^◌, bit_and, bit_xor, Bool, false, not, ltb, ◌==◌}
use snmalloc.Base.{if◌then◌else◌, List, get_or, set}
use snmalloc.Bits.{word, sub_word}
use snmalloc.Buddy.{buddy, Rep}

-- What a range of chunks uses of the rest of the state: the first back-end word of an address's pagemap
-- entry and the boundary mark, the histogram's counters, and the platform.
pub record Outside (S : Type 0) : Type 0 where
  pub word_one : S → ℕ → ℕ
  pub set_word_one : ℕ → ℕ → S → S
  pub is_boundary : S → ℕ → Bool
  pub counts : S → List ℕ
  pub set_counts : List ℕ → S → S
  pub notify_using : (addr size : ℕ) → S → S
  pub notify_not_using : (addr size : ℕ) → S → S
  pub time_in_ms : S → ℕ × S
  pub decay_rate_ms : S → ℕ

abbrev pub decommitted_bit : ℕ
decommitted_bit = 2 ^ 9

abbrev pub num_buckets : ℕ
num_buckets = 16

module _ {S : Type 0} (out : Outside S) (chunk_bits : ℕ) where
  unfoldable pub is_decommitted : ℕ → S → Bool
  is_decommitted k s = bit_and (out.word_one s k) decommitted_bit == decommitted_bit

  unfoldable pub set_decommitted : ℕ → Bool → S → S
  set_decommitted k new_is_decommitted s =
      let flipped = out.set_word_one k (bit_xor (out.word_one s k) decommitted_bit) s in
      if new_is_decommitted
      then if is_decommitted k s then s else flipped
      else if is_decommitted k s
      then flipped
      else s

  unfoldable pub on_consolidate : (k size : ℕ) → S → S
  on_consolidate k size s =
      if is_decommitted k s then set_decommitted k false (out.notify_using k size s) else s

  unfoldable pub on_split : (whole second size : ℕ) → S → S
  on_split whole second size s = set_decommitted second (is_decommitted whole s) s

  unfoldable pub can_consolidate : S → (k size : ℕ) → Bool
  can_consolidate s k size = not (out.is_boundary s (max k (buddy k size)))

  unfoldable pub on_add : (size_bits : ℕ) → S → S
  on_add size_bits s =
      let rel = sub_word size_bits chunk_bits in
      if ltb rel num_buckets
      then out.set_counts (set (out.counts s) rel ((get_or (out.counts s) rel 0 + 1) % word)) s
      else s

  -- The counter stops at 0.
  unfoldable pub on_remove : (size_bits : ℕ) → S → S
  on_remove size_bits s =
      let rel = sub_word size_bits chunk_bits in
      if ltb rel num_buckets
      then out.set_counts (set (out.counts s) rel (get_or (out.counts s) rel 0 - 1)) s
      else s

  abbrev pub chunk_rep : Rep S
  chunk_rep = record {
    can_consolidate = can_consolidate;
    on_consolidate = on_consolidate;
    on_split = on_split;
    on_add = on_add;
    on_remove = on_remove;
  }
