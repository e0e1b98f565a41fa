-- ===== src/Ranges/Passing/Stack.antt =====
-- src/snmalloc/backend/standard_range.h: the ranges of a thread, one over the other, on a global
-- range that gives chunks. Both buddy allocators use the same kind of tree.
use snmalloc.Base.{ℕ, ◌+◌, ◌≤◌, ◌<◌, arith, Bool, true}
use snmalloc.Buddy.{Tree}
use snmalloc.Buddy.Measure.{TreeLaws, covers, total}
use snmalloc.Ranges.{Range}
use snmalloc.Ranges.Laws.{RangeLaws}
use snmalloc.Ranges.SmallBuddy.{SmallBuddyRange, small_buddy_range}
use snmalloc.Ranges.SmallBuddy.Adding.{IsSmall}
use snmalloc.Ranges.SmallBuddy.Refines.{small_buddy_range-RangeLaws}
use snmalloc.Ranges.ChunkRep.{Outside}
use snmalloc.Ranges.LargeBuddy.{LargeBuddyRange, large_buddy_range}
use snmalloc.Ranges.LargeBuddy.Kept.{OutsideKept}
use snmalloc.Ranges.LargeBuddy.Adding.{IsSame, IsLarge, large_owned}
use snmalloc.Ranges.LargeBuddy.Refines.{large_buddy_range-RangeLaws}
use snmalloc.Ranges.Passing.{CommitRange, commit_range, StatsRange, stats_range, conditional_range}
use snmalloc.Ranges.Passing.Laws.{
  LeavesMemory, commit_range-RangeLaws, stats_range-RangeLaws, conditional_range-RangeLaws,
}

-- `ancestor`, which reaches over the optional range.
unfoldable pub ancestor_range : {S T : Type 0} → Range S → Range (LargeBuddyRange S T)
ancestor_range range = record {
  alloc_range =
      λ size s. let r = range.alloc_range size s.parent in (r.0, record s { parent = r.1 });
  dealloc_range = λ base size s. record s { parent = range.dealloc_range base size s.parent };
}

module _ {S : Type 0} (global : Range S) (notify_using : (addr size : ℕ) → S → Bool × S)
    (notify_not_using : (addr size : ℕ) → S → S) where
  unfoldable pub stats : Range (StatsRange (CommitRange S))
  stats = stats_range (commit_range global notify_using notify_not_using)

  module _ {T : Type 0} (out : Outside (StatsRange (CommitRange S))) (tree : Tree T)
      (chunk_bits local_cache_bits page_size_bits : ℕ)
      (disable_range : LargeBuddyRange (StatsRange (CommitRange S)) T → Bool) where
    unfoldable pub large_object_range : Range (LargeBuddyRange (StatsRange (CommitRange S)) T)
    unfolding stats
    large_object_range =
        conditional_range disable_range
          (large_buddy_range out chunk_bits tree stats local_cache_bits local_cache_bits
            page_size_bits true)
          (ancestor_range stats)

    unfoldable pub object_range :
        (min_bits : ℕ)
        (clear_node : ℕ
          → LargeBuddyRange (StatsRange (CommitRange S)) T
          → LargeBuddyRange (StatsRange (CommitRange S)) T)
        → Range (SmallBuddyRange (LargeBuddyRange (StatsRange (CommitRange S)) T) T)
    object_range min_bits clear_node =
        small_buddy_range large_object_range tree min_bits chunk_bits clear_node

-- Past the optional range, the parent's promise is kept too.
ancestor_range-RangeLaws :
    {S T : Type 0} {range : Range S} {tree : Tree T} {IsTree : T → Type 0}
    (tree_laws : TreeLaws tree IsTree) {floor chunk_bits : ℕ} {owned : S → ℕ → ℕ}
    {IsRange : S → Type 0} (laws : RangeLaws floor owned IsRange range chunk_bits) (out : Outside S)
    (max_bits : ℕ)
    → RangeLaws floor
        (large_owned tree_laws laws out max_bits)
        (IsLarge tree_laws laws out max_bits)
        (ancestor_range range)
        chunk_bits
unfolding ancestor_range
ancestor_range-RangeLaws tree_laws laws out max_bits = record {
  owned_le = λ s x ok. ok.large_le x;
  alloc_range_lem = λ bits s least b ok.
      let got = laws.alloc_range_lem bits s.parent least b ok.parent-IsRange in
      record {
        left-IsRange = record {
          array = ok.array;
          parent-IsRange = got.left-IsRange;
          large_le = λ x. omega (arith, got.shared x, ok.large_le x);
        };
        base_aligned = got.base_aligned;
        shared = λ x. omega (arith, got.shared x);
      };
  dealloc_range_lem = λ bits base s least b ok may.
      let taken = laws.dealloc_range_lem bits base s.parent least b ok.parent-IsRange (record {
        some_base = may.some_base;
        aligned = may.aligned;
        new = λ x. omega (arith, may.new x);
      }) in
      record {
        taken-IsRange = record {
          array = ok.array;
          parent-IsRange = taken.taken-IsRange;
          large_le = λ x. omega (arith, may.new x, taken.joined x);
        };
        joined = λ x. omega (arith, taken.joined x);
      };
}

module _ {S T : Type 0} {global : Range S} {tree : Tree T} {IsTree : T → Type 0}
    (tree_laws : TreeLaws tree IsTree) {floor chunk_bits : ℕ} {owned : S → ℕ → ℕ}
    {IsRange : S → Type 0} (laws : RangeLaws floor owned IsRange global chunk_bits)
    (small : chunk_bits < 63) (notify_using : (addr size : ℕ) → S → Bool × S)
    (notify_not_using : (addr size : ℕ) → S → S)
    (using_leaves : (a n : ℕ) → LeavesMemory laws small (λ s. (notify_using a n s).1))
    (not_using_leaves : (a n : ℕ) → LeavesMemory laws small (notify_not_using a n)) where
  pub stats-RangeLaws :
      RangeLaws floor
        (λ s x. owned s.parent.parent x)
        (λ s. IsRange s.parent.parent)
        (stats global notify_using notify_not_using)
        chunk_bits
  unfolding stats
  stats-RangeLaws =
      stats_range-RangeLaws
        (commit_range-RangeLaws laws small notify_using notify_not_using using_leaves
          not_using_leaves)
        small

  module _ (out : Outside (StatsRange (CommitRange S))) (local_cache_bits page_size_bits : ℕ)
      (keeps : (t : StatsRange (CommitRange S))
        → OutsideKept out (IsSame tree_laws stats-RangeLaws out local_cache_bits t))
      (disable_range : LargeBuddyRange (StatsRange (CommitRange S)) T → Bool)
      (cache_small : local_cache_bits < 63) (cache_le : local_cache_bits ≤ floor)
      (chunk_lt : chunk_bits < local_cache_bits) (chunk_pos : 0 < chunk_bits)
      (page_le : page_size_bits ≤ local_cache_bits) where
    -- The range of user chunks, with the optional cache or past it.
    pub large_object_range-RangeLaws :
        RangeLaws floor
          (large_owned tree_laws stats-RangeLaws out local_cache_bits)
          (IsLarge tree_laws stats-RangeLaws out local_cache_bits)
          (large_object_range global notify_using notify_not_using out tree chunk_bits
            local_cache_bits page_size_bits disable_range)
          chunk_bits
    unfolding large_object_range stats
    large_object_range-RangeLaws =
        conditional_range-RangeLaws
          (large_buddy_range-RangeLaws tree_laws stats-RangeLaws out local_cache_bits keeps
            local_cache_bits page_size_bits true cache_small cache_le chunk_lt chunk_pos
            (omega arith) page_le)
          small disable_range (ancestor_range stats-range)
          (ancestor_range-RangeLaws tree_laws stats-RangeLaws out local_cache_bits)
      where
        stats-range : Range (StatsRange (CommitRange S))
        stats-range = stats global notify_using notify_not_using

    module _ (min_bits : ℕ) (min_le : min_bits ≤ chunk_bits)
        (clear_node : ℕ
          → LargeBuddyRange (StatsRange (CommitRange S)) T
          → LargeBuddyRange (StatsRange (CommitRange S)) T)
        (clear_leaves : (k : ℕ)
          → LeavesMemory large_object_range-RangeLaws small (clear_node k)) where
      -- How often a byte is in the small buddy allocator, in the large one, or in the global range.
      abbrev pub object_owned :
          SmallBuddyRange (LargeBuddyRange (StatsRange (CommitRange S)) T) T → ℕ → ℕ
      object_owned s x =
          total tree (covers x) min_bits s.buddy_small.entries
          + (total tree (covers x) chunk_bits s.parent.buddy_large.entries
              + owned s.parent.parent.parent.parent x)

      -- The ranges of a thread as they are composed, with the small buddy allocator over the optional
      -- large one over the counters of usage and of commits over a global range that keeps what a
      -- range promises: of the bytes of all of them together, an allocation of a power of two from
      -- `2 ^ min_bits` on takes exactly an aligned block, or gives null and takes none, a deallocation
      -- adds exactly the block, and no byte is ever there twice, whether or not the platform refuses
      -- pages and whether or not the large allocator is disabled. Sizes are below `2 ^ 63`, the platform
      -- leaves the memory of the ranges as it is, and none of it is in the first bytes of the size of
      -- the large cache, which is larger than a chunk.
      pub object_range-RangeLaws :
          RangeLaws floor object_owned
            (IsSmall tree_laws large_object_range-RangeLaws min_bits clear_node)
            (object_range global notify_using notify_not_using out tree chunk_bits local_cache_bits
              page_size_bits disable_range min_bits clear_node)
            min_bits
      unfolding object_range
      object_range-RangeLaws =
          small_buddy_range-RangeLaws tree_laws large_object_range-RangeLaws min_bits clear_node
            min_le small (omega arith) (λ k t ok. (clear_leaves k t ok).0)
            (λ k t x ok. (clear_leaves k t ok).1 x)
