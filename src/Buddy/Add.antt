-- ===== src/Buddy/Add.antt =====
-- src/snmalloc/backend_helpers/buddy.h: `add_block` keeps the invariant and loses no memory.
use snmalloc.Base.{ℕ, suc, ◌+◌, ◌-◌, ◌^◌, ◌≤◌, ◌<◌, ◌≡◌, ◌≢◌, inl, refl, ap}
use snmalloc.Base.{false, leb, List, [], ◌∷◌, length}
use snmalloc.Base.{arith, All}
use snmalloc.Buddy.{null, buddy, rep_align_down, Tree, Rep, Entry, Outcome}
use snmalloc.Buddy.{put, land, keep, add_block}
use snmalloc.Buddy.Address.{IsBlock, Merge, lower, upper, merge}
use snmalloc.Buddy.Measure.{
  Measure, cover, TreeLaws, slots, covers, covers_self, total, Buckets, no_buckets, bucket,
}
use snmalloc.Buddy.Bucket.{Less, not_removed, was_removed, remove_buddy_cases}
use snmalloc.Buddy.Placing.{More, put-More}
use native.Mathlib.Nat.{zero-mod}

-- The block that a merge makes has what the two blocks had.
of_Merge :
    (m : Measure) {limit bits a b c : ℕ}
    → Merge limit bits a b c
    → m.of (suc bits) c ≡ m.of bits a + m.of bits b
of_Merge m {limit} {bits} {a} {b} {c} (lower c_a b_a b_some c_some block) = omega (
  arith,
  m.of_halves bits c c_some,
  ap (m.of bits) c_a,
  ap (λ (t : ℕ). m.of bits (t + 2 ^ bits)) c_a,
  ap (m.of bits) b_a,
)
of_Merge m {limit} {bits} {a} {b} {c} (upper c_b a_b b_some c_some block) = omega (
  arith,
  m.of_halves bits c c_some,
  ap (m.of bits) c_b,
  ap (λ (t : ℕ). m.of bits (t + 2 ^ bits)) c_b,
  ap (m.of bits) a_b,
)

pub Merge-some :
    {limit bits a b c : ℕ}
    → Merge limit bits a b c
    → (b ≢ null) × (c ≢ null) × IsBlock limit (suc bits) c
Merge-some (lower c_a b_a b_some c_some block) = (b_some, c_some, block)
Merge-some (upper c_b a_b b_some c_some block) = (b_some, c_some, block)

module _ {T : Type 0} {tree : Tree T} {IsTree : T → Type 0} (laws : TreeLaws tree IsTree)
    (min_size_bits limit : ℕ) where
  pub Buckets-raise :
      {above above_2 bits : ℕ} {es : List (Entry T)}
      → above ≤ above_2
      → Buckets tree IsTree limit min_size_bits above bits es
      → Buckets tree IsTree limit min_size_bits above_2 bits es
  Buckets-raise le no_buckets = no_buckets
  Buckets-raise le (bucket ok blocks empty rest) =
      bucket ok blocks (λ h. empty (omega arith)) (Buckets-raise le rest)

  module _ {S : Type 0} (rep : Rep S) where
    -- What a call of `add_block` leaves.
    pub record IsAdded (above addr bits : ℕ) (es : List (Entry T)) (o : Outcome S T) : Type 0 where
      pub added-Buckets : Buckets tree IsTree limit min_size_bits o.above bits o.entries
      pub added-block : IsBlock limit limit o.block
      pub added-above : above ≤ o.above
      pub added-length : length o.entries ≡ length es
      pub added-total :
          (m : Measure)
          → total tree (m.of) bits o.entries + m.of limit o.block
            ≡ total tree (m.of) bits es + m.of bits addr

    pub land-IsAdded :
        (above addr bits : ℕ) (e : Entry T) (es : List (Entry T)) (s : S)
        → limit < 64
        → Buckets tree IsTree limit min_size_bits above bits (e ∷ es)
        → addr ≢ null
        → IsBlock limit bits addr
        → ((x : ℕ) → total tree (covers x) bits (e ∷ es) + covers x bits addr ≤ 1)
        → IsAdded above addr bits (e ∷ es) (land rep tree min_size_bits above addr bits e es s)
    unfolding land total IsBlock
    land-IsAdded above addr bits e es s word_size (bucket ok blocks empty rest) nonnull block
          apart =
        record {
          added-Buckets =
              bucket more.more-IsTree (more.more-All block blocks) (λ h. absurd (omega arith))
                (Buckets-raise (omega arith) rest);
          added-block = (omega (arith, zero-mod (2 ^ limit)), inl refl, omega arith);
          added-above = omega arith;
          added-length = refl;
          added-total =
              λ m. omega (arith, more.more-sum (m.of bits) (m.of_null bits), m.of_null limit);
        }
      where
        more : More laws addr e (put rep tree min_size_bits addr e)
        more =
            put-More laws rep min_size_bits bits addr e ok nonnull
              (omega (arith, apart addr, covers_self bits addr nonnull))

    keep-IsAdded :
        (above addr bits : ℕ) (e e_less : Entry T) (es : List (Entry T)) (o : Outcome S T)
        → limit < 64
        → Merge limit bits addr (buddy addr (2 ^ bits)) (rep_align_down addr (2 ^ suc bits))
        → leb above (bits - min_size_bits) ≡ false
        → Less laws (buddy addr (2 ^ bits)) e e_less
        → All (IsBlock limit bits) (slots tree e)
        → IsAdded above (rep_align_down addr (2 ^ suc bits)) (suc bits) es o
        → IsAdded above addr bits (e ∷ es) (keep rep tree min_size_bits e_less o)
    unfolding total IsBlock
    keep-IsAdded above addr bits e e_less es o word_size merged nonempty less blocks rest = record {
      added-Buckets =
          bucket less.less-IsTree
            (less.less-All (omega (arith, zero-mod (2 ^ bits)), inl refl, omega arith) blocks)
            (λ h. absurd (ground (arith, nonempty, h, rest.added-above))) rest.added-Buckets;
      added-block = rest.added-block;
      added-above = rest.added-above;
      added-length = ap suc rest.added-length;
      added-total = λ m. omega (
        arith,
        rest.added-total m,
        of_Merge m merged,
        less.less-sum (m.of bits) (m.of_null bits),
      );
    }

    -- When merging, the byte count of what is left and of the merged block stays at most one.
    pub Merge-apart :
        (x bits addr : ℕ) (e e_less : Entry T) (es : List (Entry T))
        → Merge limit bits addr (buddy addr (2 ^ bits)) (rep_align_down addr (2 ^ suc bits))
        → Less laws (buddy addr (2 ^ bits)) e e_less
        → total tree (covers x) bits (e ∷ es) + covers x bits addr ≤ 1
        → total tree (covers x) (suc bits) es
            + covers x (suc bits) (rep_align_down addr (2 ^ suc bits))
          ≤ 1
    unfolding total cover
    Merge-apart x bits addr e e_less es merged less apart =
        let shared = of_Merge (cover x) merged in
        let left = less.less-sum ((cover x).of bits) ((cover x).of_null bits) in
        omega (arith, apart, shared, left)

    pub add_block-IsAdded :
        (above addr bits : ℕ) (es : List (Entry T)) (s : S)
        → limit < 64
        → bits + length es ≡ limit
        → Buckets tree IsTree limit min_size_bits above bits es
        → addr ≢ null
        → IsBlock limit bits addr
        → ((x : ℕ) → total tree (covers x) bits es + covers x bits addr ≤ 1)
        → IsAdded above addr bits es (add_block rep tree min_size_bits above addr bits es s)
    unfolding add_block
    add_block-IsAdded above addr bits [] s word_size end no_buckets nonnull block apart =
        let at_limit : bits ≡ limit = omega arith in
        record {
          added-Buckets = no_buckets;
          added-block = rw at_limit at block;
          added-above = omega arith;
          added-length = refl;
          added-total = λ m. rw at_limit refl;
        }
    add_block-IsAdded above addr bits (e ∷ es) s word_size end (bucket ok blocks empty rest) nonnull
          block apart =
        let merged = merge limit bits addr (omega arith) word_size nonnull block in
        let facts = Merge-some merged in
        elim (remove_buddy_cases laws rep min_size_bits above addr bits e s ok facts.0) [
          | not_removed no_buddy same ↦
              rw (no_buddy, same)
                (land-IsAdded above addr bits e es _ word_size (bucket ok blocks empty rest) nonnull
                  block apart)
          | was_removed found nonempty less ↦ rw found (
              keep-IsAdded above addr bits e _ es _ word_size merged nonempty less blocks (
                add_block-IsAdded above (rep_align_down addr (2 ^ suc bits)) (suc bits) es _
                  word_size (omega arith) rest facts.1 facts.2
                  (λ x. Merge-apart x bits addr e _ es merged less (apart x))))
        ]
