-- ===== src/Ranges/SmallBuddy.antt =====
-- src/snmalloc/backend_helpers/smallbuddyrange.h: `SmallBuddyRange`, a buddy allocator for pieces
-- of a chunk over any range that gives chunks, and the addresses of `BuddyInplaceRep`. The nodes of
-- its trees lie in the free blocks; of the writes to them `clear_node` stands for those to the
-- block that is given out. `min_bits` is MIN_BITS and `chunk_bits` MIN_CHUNK_BITS.
pub mod Adding
pub mod Refilling
pub mod Refines
pub mod Leftover
pub mod Inplace
use snmalloc.Base.{ℕ, ◌+◌, ◌-◌, ◌*◌, ◌^◌, bit_and, bit_xor, Bool, true, ltb, leb, ◌==◌}
use snmalloc.Base.{if◌then◌else◌, List, [], ◌∷◌}
use snmalloc.Bits.{one_at_bit, next_pow2, next_pow2_bits, align_down}
use snmalloc.Blocks.{range_to_pow_2_blocks}
use snmalloc.Buddy.{null, Tree, Rep, Outcome}
use snmalloc.Buddy.Array.{Buddy, add_to, remove_from, left_in}
use snmalloc.Ranges.{Range}

-- `BuddyInplaceRep::buddy`, in terms of the pointer operations.
unfoldable pub inplace_buddy : (k size : ℕ) → ℕ
inplace_buddy k size = align_down k (size * 2) + bit_xor (bit_and k size) size

-- `BuddyInplaceRep` keeps nothing per node but the tree, and forbids no merge.
abbrev pub inplace_rep : (S : Type 0) → Rep S
inplace_rep S = record {
  can_consolidate = λ s k size. true;
  on_consolidate = λ k size s. s;
  on_split = λ whole second size s. s;
  on_add = λ bits s. s;
  on_remove = λ bits s. s;
}

pub record SmallBuddyRange (S T : Type 0) : Type 0 where
  pub buddy_small : Buddy T
  pub parent : S

module _ {S T : Type 0} (range : Range S) (tree : Tree T) (min_bits chunk_bits : ℕ)
    (clear_node : ℕ → S → S) where
  abbrev pub chunk_size : ℕ
  chunk_size = one_at_bit chunk_bits

  -- The function that `add_range` is called with on each block.
  unfoldable pub add_piece : (base align : ℕ) → SmallBuddyRange S T → SmallBuddyRange S T
  add_piece base align s =
      let o =
        add_to (inplace_rep S) tree min_bits base (next_pow2_bits align) s.buddy_small s.parent in
      if ltb align chunk_size
      then record {
        buddy_small = left_in (inplace_rep S) tree min_bits o;
        parent = if o.block == null then o.rep else range.dealloc_range o.block chunk_size o.rep;
      }
      else record s { parent = range.dealloc_range base align s.parent }

  unfoldable pub add_pieces : List (ℕ × ℕ) → SmallBuddyRange S T → SmallBuddyRange S T
  add_pieces [] s = s
  add_pieces ((base, align) ∷ blocks) s = add_pieces blocks (add_piece base align s)

  unfoldable pub add_range : (base length : ℕ) → SmallBuddyRange S T → SmallBuddyRange S T
  add_range base length s = add_pieces (range_to_pow_2_blocks min_bits base length) s

  unfoldable pub refill : (size : ℕ) → SmallBuddyRange S T → ℕ × SmallBuddyRange S T
  refill size s =
      let r = range.alloc_range chunk_size s.parent in
      let s' : SmallBuddyRange S T = record s { parent = r.1 } in
      if r.0 == null then (r.0, s') else (r.0, add_range (r.0 + size) (chunk_size - size) s')

  unfoldable pub alloc_range : (size : ℕ) → SmallBuddyRange S T → ℕ × SmallBuddyRange S T
  alloc_range size s =
      let r = range.alloc_range size s.parent in
      let o =
        remove_from (inplace_rep S) tree min_bits (next_pow2_bits size) s.buddy_small s.parent in
      let s' : SmallBuddyRange S T = record {
        buddy_small = left_in (inplace_rep S) tree min_bits o;
        parent = o.rep;
      } in
      if leb chunk_size size
      then (r.0, record s { parent = r.1 })
      else if o.block == null
      then refill size s'
      else (o.block, record s' { parent = clear_node o.block o.rep })

  unfoldable pub alloc_range_with_leftover :
      (size : ℕ) → SmallBuddyRange S T → ℕ × SmallBuddyRange S T
  alloc_range_with_leftover size s =
      let rsize = next_pow2 size in
      let r = alloc_range rsize s in
      if r.0 == null then (null, r.1) else (r.0, add_range (r.0 + size) (rsize - size) (r.1))

  unfoldable pub dealloc_range : (base size : ℕ) → SmallBuddyRange S T → SmallBuddyRange S T
  dealloc_range base size s = add_range base size s

  -- The range that all of this makes.
  unfoldable pub small_buddy_range : Range (SmallBuddyRange S T)
  small_buddy_range = record { alloc_range = alloc_range; dealloc_range = dealloc_range }
