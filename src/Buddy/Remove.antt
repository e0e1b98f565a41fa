-- ===== src/Buddy/Remove.antt =====
-- src/snmalloc/backend_helpers/buddy.h: `remove_block` keeps the invariant, loses no memory, and
-- fails only when there is no free block of the size or above.
use snmalloc.Base.{ℕ, suc, ◌+◌, ◌-◌, ◌≤◌, ◌<◌, ◌≡◌, ◌≢◌, inl, inr, refl}
use snmalloc.Base.{true, false, leb, if◌then◌else◌, List, [], ◌∷◌, length, none, leb→le}
use snmalloc.Base.{arith, All, Bool-cases}
use snmalloc.Buddy.{null, Tree, Rep, Entry, Outcome}
use snmalloc.Buddy.{take_block, split, remove_block, not_null, is_last}
use snmalloc.Buddy.Address.{null-IsBlock}
use snmalloc.Buddy.Measure.{TreeLaws, slots, covers, total, Buckets, no_buckets, bucket}
use snmalloc.Buddy.Bucket.{All-remove_min}
use snmalloc.Buddy.Placing.{took, was_empty, take_block_cases}
use snmalloc.Buddy.Slots.{All-append_parts, All-exchange}
use snmalloc.Buddy.Splitting.{
  All-null-sum, All-null-IsBlock, Buckets-lower, IsTakenOut, split-IsTakenOut,
}

not_null-true : (a : ℕ) → a ≢ null → not_null a ≡ true
not_null-true a h = ground (arith, h)

not_null-false : (a : ℕ) → a ≡ null → not_null a ≡ false
not_null-false a h = rw h refl

module _ {T : Type 0} {tree : Tree T} {IsTree : T → Type 0} (laws : TreeLaws tree IsTree)
    (min_size_bits limit : ℕ) where
  module _ {S : Type 0} (rep : Rep S) where
    -- An empty bucket: the last one gives nothing, another one asks for a bigger block.
    last_or_split :
        (above bits : ℕ) (e e_less : Entry T) (es : List (Entry T)) (s : S) (o : Outcome S T)
        → limit < 64
        → bits + suc (length es) ≡ limit
        → IsTree e_less.tree
        → All (λ a. a ≡ null) (slots tree e)
        → All (λ a. a ≡ null) (slots tree e_less)
        → Buckets tree IsTree limit min_size_bits above (suc bits) es
        → ((x : ℕ) → total tree (covers x) bits (e ∷ es) ≤ 1)
        → (suc bits ≤ limit → IsTakenOut laws min_size_bits limit rep (suc bits) es o)
        → IsTakenOut laws min_size_bits limit rep bits (e ∷ es) (
            if is_last es
            then record {
              block = null;
              landed = none;
              above = above;
              entries = e_less ∷ es;
              rep = s;
            }
            else split rep tree min_size_bits bits e_less o)
    unfolding total
    last_or_split above bits e e_less [] s o word_size end ok was now no_buckets apart bigger =
        record {
          left-Buckets = bucket ok (All-null-IsBlock limit bits _ now) (λ h. now) no_buckets;
          left-block = null-IsBlock limit bits;
          left-length = refl;
          left-total = λ m. omega (
            arith,
            m.of_null bits,
            All-null-sum (m.of bits) (slots tree e) (m.of_null bits) was,
            All-null-sum (m.of bits) (slots tree e_less) (m.of_null bits) now,
          );
          left-none = λ h. bucket ok (All-null-IsBlock limit bits _ now) (λ h2. now) no_buckets;
        }
    last_or_split above bits e e_less (e2 ∷ es) s o word_size end ok was now rest apart bigger =
        split-IsTakenOut laws min_size_bits limit rep bits e e_less (e2 ∷ es) o word_size end
          (omega arith) ok was now apart (bigger (omega arith))

    taken_block :
        (e : Entry T)
        → IsTree e.tree
        → {P : ℕ → Type 0} → P null
        → All P (slots tree e)
        → P ((take_block rep tree min_size_bits e).0)
    unfolding take_block
    taken_block e ok {P} pn all =
        let parts = All-append_parts e.cache (tree.contents e.tree) all in
        let least = All-remove_min laws {P = P} e.tree ok pn parts.1 in
        (All-exchange _ e.cache least.0 parts.0).0

    pub remove_block-IsTakenOut :
        (above bits : ℕ) (es : List (Entry T)) (s : S)
        → limit < 64
        → bits + length es ≡ limit
        → Buckets tree IsTree limit min_size_bits above bits es
        → ((x : ℕ) → total tree (covers x) bits es ≤ 1)
        → IsTakenOut laws min_size_bits limit rep bits es
            (remove_block rep tree min_size_bits above bits es s)
    unfolding remove_block total
    remove_block-IsTakenOut above bits [] s word_size end no_buckets apart = record {
      left-Buckets = no_buckets;
      left-block = null-IsBlock limit bits;
      left-length = refl;
      left-total = λ m. omega (arith, m.of_null bits);
      left-none = λ h. no_buckets;
    }
    remove_block-IsTakenOut above bits (e ∷ es) s word_size end (bucket ok blocks empty rest)
          apart =
        elim (Bool-cases (leb above (bits - min_size_bits))) [
          | inl shut ↦
              let all = bucket ok blocks empty rest in
              rw shut (record {
                left-Buckets = all;
                left-block = null-IsBlock limit bits;
                left-length = refl;
                left-total = λ m. omega (arith, m.of_null bits);
                left-none = λ h. Buckets-lower laws min_size_bits limit ((leb→le _ _) shut) all;
              })
          | inr used ↦ elim (take_block_cases laws rep min_size_bits e ok) [
            | took out less ↦
                rw (used, not_null-true _ out)
                  (record {
                    left-Buckets =
                        bucket less.less-IsTree (less.less-All (null-IsBlock limit bits) blocks)
                          (λ h. absurd (ground (arith, used, h))) rest;
                    left-block = taken_block e ok (null-IsBlock limit bits) blocks;
                    left-length = refl;
                    left-total = λ m. omega (arith, less.less-sum (m.of bits) (m.of_null bits));
                    left-none = λ h. absurd (out h);
                  })
            | was_empty out ok_less was now ↦
                rw (used, not_null-false _ out)
                  (last_or_split above bits e _ es s _ word_size end ok_less was now rest apart
                    (λ small.
                      remove_block-IsTakenOut above (suc bits) es s word_size (omega arith) rest
                        (λ x. omega (arith, apart x))))
          ]
        ]
