-- ===== src/Buddy/Laws.antt =====
-- src/snmalloc/backend_helpers/buddy.h: the allocator's buckets from a size on, before and after
-- `add_block` and `remove_block`.
use snmalloc.Base.{ℕ, ◌+◌, ◌^◌, ◌≤◌, ◌<◌, ◌≡◌, ◌≢◌, ◌↔◌, List, length, arith, pow_pos}
use snmalloc.Buddy.{null, Tree, Rep, Entry, add_block, remove_block}
use snmalloc.Buddy.Address.{IsBlock}
use snmalloc.Buddy.Measure.{bytes, bytes_of, cover, covers, TreeLaws, total, Buckets}
use snmalloc.Buddy.Add.{add_block-IsAdded}
use snmalloc.Buddy.Splitting.{Buckets-empty_total}
use snmalloc.Buddy.Remove.{remove_block-IsTakenOut}

module _ {S T : Type 0} (rep : Rep S) (tree : Tree T) {IsTree : T → Type 0}
    (laws : TreeLaws tree IsTree) (min_size_bits limit : ℕ) where
  -- How often the byte at `x` is free, and how many bytes are.
  abbrev pub free_at : ℕ → ℕ → List (Entry T) → ℕ
  free_at x bits es = total tree (covers x) bits es

  abbrev pub free_bytes : ℕ → List (Entry T) → ℕ
  free_bytes bits es = total tree bytes_of bits es

  -- The buckets up to `limit`, of blocks that are aligned and share no byte.
  pub record IsBuddy (above bits : ℕ) (es : List (Entry T)) : Type 0 where
    pub in_word : limit < 64
    pub reaches : bits + length es ≡ limit
    pub buckets : Buckets tree IsTree limit min_size_bits above bits es
    pub apart : (x : ℕ) → free_at x bits es ≤ 1

  -- A block is added that is not null, is aligned to its size `2 ^ bits`, lies beyond the first
  -- `2 ^ limit` bytes, and has no byte that is free. Then again every free block is aligned to its
  -- size, no byte is in two free blocks, and the buckets from the mark on are empty; and of every
  -- byte, being free or in the block returned comes to the same as before being free or in the
  -- block added.
  pub add_block-IsBuddy :
      (above addr bits : ℕ) (es : List (Entry T)) (s : S) (x : ℕ)
      → IsBuddy above bits es
      → addr ≢ null
      → IsBlock limit bits addr
      → ((y : ℕ) → free_at y bits es + covers y bits addr ≤ 1)
      → let o = add_block rep tree min_size_bits above addr bits es s in
        IsBuddy o.above bits o.entries
        × (free_at x bits o.entries + covers x limit o.block
            ≡ free_at x bits es + covers x bits addr)
  unfolding cover
  add_block-IsBuddy above addr bits es s x ok nonnull block new =
      let added =
        add_block-IsAdded laws min_size_bits limit rep above addr bits es s ok.in_word ok.reaches
          ok.buckets nonnull block new in
      (
        record {
          in_word = ok.in_word;
          reaches = omega (arith, ok.reaches, added.added-length);
          buckets = added.added-Buckets;
          apart = λ y. omega (arith, added.added-total (cover y), new y);
        },
        added.added-total (cover x),
      )

  -- Under the same conditions, the free bytes after `add_block` and those of the block it returns,
  -- of `2 ^ limit` bytes unless null, are the free bytes before and the `2 ^ bits` added; and the
  -- block returned is null or aligned to `2 ^ limit`.
  free_bytes-add_block :
      (above addr bits : ℕ) (es : List (Entry T)) (s : S)
      → IsBuddy above bits es
      → addr ≢ null
      → IsBlock limit bits addr
      → ((y : ℕ) → free_at y bits es + covers y bits addr ≤ 1)
      → let o = add_block rep tree min_size_bits above addr bits es s in
        (free_bytes bits o.entries + bytes_of limit o.block ≡ free_bytes bits es + 2 ^ bits)
        × IsBlock limit limit o.block
  unfolding bytes bytes_of
  free_bytes-add_block above addr bits es s ok nonnull block new =
      let added =
        add_block-IsAdded laws min_size_bits limit rep above addr bits es s ok.in_word ok.reaches
          ok.buckets nonnull block new in
      (ground (arith, added.added-total bytes, nonnull), added.added-block)

  -- Of buckets in which every free block is aligned to its size, no byte is in two free blocks, and
  -- those from the mark on are empty: after `remove_block` of `2 ^ bits` bytes they are so again, the
  -- block returned is null or aligned to its size, and every byte that was free is either still
  -- free or in the block returned, not both.
  pub remove_block-IsBuddy :
      (above bits : ℕ) (es : List (Entry T)) (s : S) (x : ℕ)
      → IsBuddy above bits es
      → let o = remove_block rep tree min_size_bits above bits es s in
        IsBuddy o.above bits o.entries
        × IsBlock limit bits o.block
        × (free_at x bits o.entries + covers x bits o.block ≡ free_at x bits es)
  unfolding cover
  remove_block-IsBuddy above bits es s x ok =
      let out =
        remove_block-IsTakenOut laws min_size_bits limit rep above bits es s ok.in_word ok.reaches
          ok.buckets ok.apart in
      (
        record {
          in_word = ok.in_word;
          reaches = omega (arith, ok.reaches, out.left-length);
          buckets = out.left-Buckets;
          apart = λ y. omega (arith, out.left-total (cover y), ok.apart y);
        },
        out.left-block,
        out.left-total (cover x),
      )

  -- Of such buckets, aligned, disjoint and empty from the mark on, `remove_block` returns null exactly
  -- when none from the size on has a free byte.
  pub remove_block-null :
      (above bits : ℕ) (es : List (Entry T)) (s : S)
      → IsBuddy above bits es
      → ((remove_block rep tree min_size_bits above bits es s).block ≡ null)
        ↔ (free_bytes bits es ≡ 0)
  unfolding bytes bytes_of
  remove_block-null above bits es s ok =
      let out =
        remove_block-IsTakenOut laws min_size_bits limit rep above bits es s ok.in_word ok.reaches
          ok.buckets ok.apart in
      (
        (λ h. ground (
          arith,
          out.left-total bytes,
          h,
          Buckets-empty_total laws min_size_bits limit bytes (omega arith) (out.left-none h),
        )),
        (λ h. ground (arith, out.left-total bytes, h, pow_pos bits)),
      )
