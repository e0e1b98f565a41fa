-- ===== src/Buddy/Landing.antt =====
-- src/snmalloc/backend_helpers/buddy.h: where `add_block` says that the block has landed.
use snmalloc.Base.{ℕ, suc, ◌+◌, ◌-◌, ◌*◌, ◌/◌, ◌^◌, ◌≤◌, ◌<◌, ◌≡◌, ◌≢◌, ◌∙◌, sym, refl, ap}
use snmalloc.Base.{arith, List, [], ◌∷◌, length, Option, none, some, pow_pos, pow_split}
use native.Mathlib.Nat.{div-add-mod', div-div-eq-div-mul, mul-div_left, mul_comm}
use snmalloc.Bits.{word}
use snmalloc.Buddy.{null, rep_align_down, Tree, Rep, Entry, land, add_block}
use snmalloc.Buddy.Address.{IsBlock, merge, rep_align_down_lem}
use snmalloc.Buddy.Measure.{TreeLaws, cover, covers, total, Buckets, no_buckets, bucket}
use snmalloc.Buddy.Bucket.{not_removed, was_removed, remove_buddy_cases}
use snmalloc.Buddy.Add.{Merge-some, Merge-apart, land-IsAdded}

align_twice :
    (a j k : ℕ)
    → a < word
    → j ≤ k
    → k < 64
    → rep_align_down (rep_align_down a (2 ^ j)) (2 ^ k) ≡ rep_align_down a (2 ^ k)
align_twice a j k lt le small = omega (
  arith,
  rep_align_down_lem a k lt small,
  rep_align_down_lem b k (omega (arith, digit, div-add-mod' a (2 ^ j))) small,
  div-add-mod' a (2 ^ k),
  div-add-mod' b (2 ^ k),
  ap (λ (t : ℕ). t * 2 ^ k) same,
)
  where
    b : ℕ
    b = rep_align_down a (2 ^ j)

    digit : b ≡ a / 2 ^ j * 2 ^ j
    digit = omega (arith, rep_align_down_lem a j lt (omega arith), div-add-mod' a (2 ^ j))

    scaled : 2 ^ k ≡ 2 ^ (k - j) * 2 ^ j
    scaled = pow_split j k le

    same : b / 2 ^ k ≡ a / 2 ^ k
    same =
        ap (λ (t : ℕ). b / t) (scaled ∙ mul_comm (2 ^ (k - j)) (2 ^ j))
        ∙ sym (div-div-eq-div-mul b (2 ^ j) (2 ^ (k - j)))
        ∙ ap (λ (t : ℕ). t / 2 ^ (k - j))
            (ap (λ (t : ℕ). t / 2 ^ j) digit ∙ mul-div_left (a / 2 ^ j) (pow_pos j))
        ∙ div-div-eq-div-mul a (2 ^ j) (2 ^ (k - j))
        ∙ ap (λ (t : ℕ). a / t) (mul_comm (2 ^ j) (2 ^ (k - j)) ∙ sym scaled)

module _ {T : Type 0} {tree : Tree T} {IsTree : T → Type 0} (laws : TreeLaws tree IsTree)
    (min_size_bits limit : ℕ) where
  -- Where the block at an address went, given the block returned and the buckets from `bits` on:
  -- out of the allocator, or into a free block of `2 ^ k` bytes around it.
  pub data HasLanded (addr bits block : ℕ) (es : List (Entry T)) : Option ℕ → Type 0 where
    overflows : block ≢ null → HasLanded addr bits block es none
    lands :
        {k : ℕ}
        → block ≡ null
        → bits ≤ k
        → k < limit
        → ((x : ℕ) → covers x k (rep_align_down addr (2 ^ k)) ≤ total tree (covers x) bits es)
        → HasLanded addr bits block es (some k)

  -- Seen from more buckets.
  pub HasLanded-widen :
      (addr bits bits_2 block : ℕ) (es es_2 : List (Entry T)) (landed : Option ℕ)
      → bits ≤ bits_2
      → ((x : ℕ) → total tree (covers x) bits_2 es_2 ≤ total tree (covers x) bits es)
      → HasLanded addr bits_2 block es_2 landed
      → HasLanded addr bits block es landed
  HasLanded-widen addr bits bits_2 block es es_2 none le more (overflows some_block) =
      overflows some_block
  HasLanded-widen addr bits bits_2 block es es_2 (some k) le more (lands no_block from lt free) =
      lands no_block (omega arith) lt (λ x. omega (arith, free x, more x))

  -- From the bucket of the merged block to the one before it.
  HasLanded-keep :
      (addr bits block : ℕ) (e : Entry T) (es : List (Entry T)) (landed : Option ℕ)
      → addr < word
      → limit < 64
      → HasLanded (rep_align_down addr (2 ^ suc bits)) (suc bits) block es landed
      → HasLanded addr bits block (e ∷ es) landed
  unfolding total
  HasLanded-keep addr bits block e es none fits small (overflows some_block) = overflows some_block
  HasLanded-keep addr bits block e es (some k) fits small (lands no_block le lt free) =
      lands no_block (omega arith) lt
        (λ x. omega (arith, rw (align_twice addr (suc bits) k fits le (omega arith)) at (free x)))

  module _ {S : Type 0} (rep : Rep S) where
    -- Under the conditions on the buckets and the block added of `add_block-IsBuddy`: `add_block`
    -- either returns a block and reports no size, or returns null and reports the size of a block
    -- around the one added, at its address rounded down to that size, whose every byte is free.
    pub add_block-HasLanded :
        (above addr bits : ℕ) (es : List (Entry T)) (s : S)
        → limit < 64
        → bits + length es ≡ limit
        → Buckets tree IsTree limit min_size_bits above bits es
        → addr ≢ null
        → IsBlock limit bits addr
        → ((x : ℕ) → total tree (covers x) bits es + covers x bits addr ≤ 1)
        → let o = add_block rep tree min_size_bits above addr bits es s in
          HasLanded addr bits o.block o.entries o.landed
    unfolding add_block land IsBlock cover
    add_block-HasLanded above addr bits [] s small end no_buckets nonnull block apart =
        overflows nonnull
    add_block-HasLanded above addr bits (e ∷ es) s small end (bucket ok blocks empty rest) nonnull
          block apart =
        let merged = merge limit bits addr (omega arith) small nonnull block in
        let facts = Merge-some merged in
        elim (remove_buddy_cases laws rep min_size_bits above addr bits e s ok facts.0) [
          | not_removed no_buddy same ↦
              let added =
                land-IsAdded laws min_size_bits limit rep above addr bits e es s small
                  (bucket ok blocks empty rest) nonnull block apart in
              let here : rep_align_down addr (2 ^ bits) ≡ addr =
                omega (arith, rep_align_down_lem addr bits block.2 (omega arith), block.0) in
              rw (no_buddy, same)
                (lands refl (omega arith) (omega arith)
                  (λ x. rw here (omega (arith, added.added-total (cover x)))))
          | was_removed found nonempty less ↦ rw found (
              HasLanded-keep addr bits _ _ _ _ block.2 small (
                add_block-HasLanded above (rep_align_down addr (2 ^ suc bits)) (suc bits) es _ small
                  (omega arith) rest facts.1 facts.2
                  (λ x.
                    Merge-apart laws min_size_bits limit rep x bits addr e _ es merged less
                      (apart x))))
        ]
