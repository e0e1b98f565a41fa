-- ===== src/Lib.antt =====
-- The allocator snmalloc: its size classes, its metadata, the slabs of one size class, and the ranges
-- of memory under them, for a 64-bit target with 48 address bits and the default settings.
--
-- A request for `n` bytes is rounded to a size class. Small classes share slabs. The allocator finds
-- the class of an address in the pagemap and the start of its object by multiplying with a
-- reciprocal. Each slab counts the deallocations until it changes its state, and each class keeps
-- the slabs with free objects apart from the full ones and gives unused ones back. The free objects
-- of a slab are linked in lists in their own memory, signed against corruption. Chunks come from a
-- chain of ranges, each of which takes memory from its parent; two of them are buddy allocators, whose
-- buckets are red-black trees with a small cache before them. The parts, with paths from the root of
-- the repository:
--
-- - Base: shared names, Boolean tests, lists, powers of two, and the bit operations on numbers that
--   are split into a high and a low part.
-- - Bits: src/snmalloc/ds_core/bits.h. Each function has its C++ name; a `size_t` is a number below
--   2 ^ 64 with every wrap written out. Compiler built-ins for counting zeros are defined by what
--   they count. The loops run 64 rounds, one for each bit.
-- - Sizeclass: src/snmalloc/ds_core/sizeclassconfig.h, ds_core/sizeclassstatic.h,
--   mitigations/allocconfig.h and ds/sizeclasstable.h. The constructor's tables are functions of the
--   class; `strict` is the mitigation random_larger_thresholds. Sizeclass/Lookup is the table from
--   sizes to classes; its 5000 rounds are more than the 4096 entries and 44 classes take.
--   Sizeclass/Round rounds requests.
-- - MetaEntry: src/snmalloc/mem/metadata.h, the two words of the pagemap for each chunk that front
--   end and back end share.
-- - SlabMeta: the same file, the record of a slab: its counter, its states, and
--   `ReturnObjectsIterator`. SlabMeta/Counters says what the counter means in each state and reads
--   the thresholds from Sizeclass; SlabMeta/Batch compares the iterator, whose loop takes at most
--   three rounds, with single deallocations. Of the free list only the number of entries is kept.
-- - Entropy: src/snmalloc/mem/entropy.h, the random bits of a thread: Entropy/Sample on the bits that
--   are drawn, Entropy/Cycle on `next_bit`.
-- - Blocks: src/snmalloc/backend_helpers/range_helpers.h, the blocks of a range of addresses. The loop
--   has as many rounds as the range has blocks of the least size.
-- - Subscribers: src/snmalloc/profile/allocation_sample_list.h, and Histogram:
--   src/snmalloc/profile/lifetime_histogram.h, each with one call running at a time.
-- - Cache: src/snmalloc/mem/corealloc.h, `small_refill`, `dealloc_local_object` and
--   `dealloc_local_slabs` for one size class, over the lists of its slabs. Cache/Invariant is what
--   they keep. Of `dealloc_local_slabs` it is the instance without `check_slabs`. The back end's
--   answer, the entropy bit and how many entries of a free list are left are arguments.
-- - FreeList: src/snmalloc/mem/freelist.h. `Builder` and `Iter` over a memory of words, with the
--   mitigations and the key as parameters. FreeList/Segment is a signed list in memory, and
--   FreeList/Building what it means that a builder holds given objects. The loop of `validate` has
--   as many rounds as there are objects.
-- - SeqSet: src/snmalloc/ds_aal/seqset.h, the doubly linked set that holds the slabs of a class, over
--   the fields of all nodes. SeqSet/Linked says which nodes a set has, in order, which is the view of
--   it that Cache takes. The loop of `iterate` has as many rounds as there are nodes, and one more.
-- - Ticker: src/snmalloc/mem/ticker.h, over any clock.
-- - Buddy: src/snmalloc/backend_helpers/buddy.h, with the addresses of `BuddyChunkRep` in
--   backend_helpers/largebuddyrange.h. The trees are an interface, whose laws are in Buddy/Measure;
--   Buddy/RedBlackTrees fills it with the trees of RedBlack. The recursion over the sizes is one over
--   the list of buckets. The lemmas say how one call shares out any measure of blocks. Buddy/Array is
--   the array with all buckets, Buddy/Landing the block that an added one ends up in, and Buddy/Hooks
--   what the functions of the representation may do.
-- - Ranges: src/snmalloc/backend_helpers. Ranges/Laws is what a range promises of the bytes that it
--   holds, which is all that one range relies on of its parent. Ranges/SmallBuddy is
--   smallbuddyrange.h. Ranges/LargeBuddy is largebuddyrange.h, with what its nodes keep in the
--   pagemap in Ranges/ChunkRep, over an interface to the pagemap, the counters, the platform and its
--   clock. Ranges/Passing is empty_range.h, palrange.h, noprange.h, logrange.h, staticrange.h,
--   indirectrange.h, lockrange.h, commitrange.h, fragstats.h, statsrange.h, staticconditionalrange.h,
--   pagemapregisterrange.h and subrange.h; Ranges/Passing/Stack composes the ranges of a thread as
--   src/snmalloc/backend/standard_range.h does. Adding a range takes as many rounds as it has blocks.
--   Ranges/Held is a small range for the tests.
-- - FlagLock: src/snmalloc/ds_aal/flaglock.h, with threads as points of a call and steps in the order
--   of a schedule.
-- - RedBlack: src/snmalloc/ds_core/redblacktree.h, search and insertion, and RedBlack/Removing, its
--   removal. RedBlack/Balance, RedBlack/Fixing and RedBlack/Unlinking are about the colours,
--   RedBlack/Contents, RedBlack/Remaining, RedBlack/Values and RedBlack/Elements about the values
--   from left to right.
--
-- Not modelled: the concurrent containers, the message queues and the caches for other threads, the
-- pagemap, the global range, whose buddy allocator refills itself from an unaligned parent and reaches
-- up to 2 ^ 63 bytes, the rest of the profiler, the platform layers, and all code in other languages.
-- Settings other than the default ones, and targets of other widths, are not modelled either.
pub mod Base
pub mod Bits
pub mod Sizeclass
pub mod MetaEntry
pub mod SlabMeta
pub mod Cache
pub mod Entropy
pub mod Blocks
pub mod Subscribers
pub mod Histogram
pub mod Buddy
pub mod FreeList
pub mod FlagLock
pub mod RedBlack
pub mod Ranges
pub mod Ticker
pub mod SeqSet
