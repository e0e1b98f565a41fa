-- ===== src/Buddy/Splitting.antt =====
-- src/snmalloc/backend_helpers/buddy.h: the split of a bigger block in `remove_block`.
use snmalloc.Base.{ℕ, suc, ◌+◌, ◌-◌, ◌^◌, ◌≤◌, ◌<◌, ◌≡◌, ◌≢◌, inl, inr, refl, ap}
use snmalloc.Base.{◌==◌, List, [], ◌∷◌, length}
use snmalloc.Base.{arith, All, all_nil, all_cons, sum, Bool-cases, ==_iff, sym, ◌∙◌}
use mathlib.Core.Bool.{true≢false}
use snmalloc.Buddy.{null, offset, buddy, Tree, Rep, Entry, Outcome}
use snmalloc.Buddy.{land, add_block, split}
use snmalloc.Buddy.Address.{IsBlock, merge, second_half, IsBlock-weaken, null-IsBlock}
use snmalloc.Buddy.Measure.{
  Measure, cover, TreeLaws, slots, covers, covers_self, total, Buckets, no_buckets, bucket,
}
use snmalloc.Buddy.Bucket.{not_removed, was_removed, remove_buddy_cases}
use snmalloc.Buddy.Add.{Merge-some, add_block-IsAdded}

pub All-null-sum : (f : ℕ → ℕ) (xs : List ℕ) → f null ≡ 0 → All (λ a. a ≡ null) xs → sum f xs ≡ 0
unfolding sum
All-null-sum f [] z all_nil = refl
All-null-sum f (x ∷ xs) z (all_cons e es) = omega (arith, ap f e, z, All-null-sum f xs z es)

pub All-null-IsBlock :
    (limit bits : ℕ) (xs : List ℕ) → All (λ a. a ≡ null) xs → All (IsBlock limit bits) xs
All-null-IsBlock limit bits [] all_nil = all_nil
All-null-IsBlock limit bits (x ∷ xs) (all_cons e es) =
    all_cons (rw e (null-IsBlock limit bits)) (All-null-IsBlock limit bits xs es)

module _ {T : Type 0} {tree : Tree T} {IsTree : T → Type 0} (laws : TreeLaws tree IsTree)
    (min_size_bits limit : ℕ) where
  -- Buckets that are all empty bear any mark.
  pub Buckets-lower :
      {above above_2 bits : ℕ} {es : List (Entry T)}
      → above ≤ bits - min_size_bits
      → Buckets tree IsTree limit min_size_bits above bits es
      → Buckets tree IsTree limit min_size_bits above_2 bits es
  Buckets-lower le no_buckets = no_buckets
  Buckets-lower le (bucket ok blocks empty rest) =
      bucket ok blocks (λ h. empty le) (Buckets-lower (omega arith) rest)

  pub Buckets-empty_total :
      {above bits : ℕ} {es : List (Entry T)} (m : Measure)
      → above ≤ bits - min_size_bits
      → Buckets tree IsTree limit min_size_bits above bits es
      → total tree (m.of) bits es ≡ 0
  unfolding total
  Buckets-empty_total m le no_buckets = refl
  Buckets-empty_total {bits = bits} m le (bucket {e = e} ok blocks empty rest) = omega (
    arith,
    Buckets-empty_total m (omega arith) rest,
    All-null-sum (m.of bits) (slots tree e) (m.of_null bits) (empty le),
  )

  module _ {S : Type 0} (rep : Rep S) where
    -- What a call of `remove_block` leaves.
    pub record IsTakenOut (bits : ℕ) (es : List (Entry T)) (o : Outcome S T) : Type 0 where
      pub left-Buckets : Buckets tree IsTree limit min_size_bits o.above bits o.entries
      pub left-block : IsBlock limit bits o.block
      pub left-length : length o.entries ≡ length es
      pub left-total :
          (m : Measure)
          → total tree (m.of) bits o.entries + m.of bits o.block ≡ total tree (m.of) bits es
      pub left-none :
          o.block ≡ null
          → Buckets tree IsTree limit min_size_bits (bits - min_size_bits) bits o.entries

    -- A block added to an empty bucket stays there.
    land_empty :
        (above addr bits : ℕ) (e : Entry T) (es : List (Entry T)) (s : S)
        → limit < 64
        → suc bits ≤ limit
        → IsTree e.tree
        → All (λ a. a ≡ null) (slots tree e)
        → addr ≢ null
        → IsBlock limit bits addr
        → (add_block rep tree min_size_bits above addr bits (e ∷ es) s).block ≡ null
    unfolding add_block land covers cover
    land_empty above addr bits e es s word_size small ok empty nonnull block =
        let facts = Merge-some (merge limit bits addr small word_size nonnull block) in
        let b = buddy addr (2 ^ bits) in
        elim (remove_buddy_cases laws rep min_size_bits above addr bits e s ok facts.0) [
          | not_removed no_buddy same ↦ rw no_buddy refl
          | was_removed found nonempty less ↦ absurd (
              omega (
                arith,
                covers_self bits b facts.0,
                less.less-sum (covers b bits) ((cover b).of_null bits),
                All-null-sum (covers b bits) (slots tree e) ((cover b).of_null bits) empty,
              ))
        ]

    pub split-IsTakenOut :
        (bits : ℕ) (e e_less : Entry T) (es : List (Entry T)) (o : Outcome S T)
        → limit < 64
        → bits + suc (length es) ≡ limit
        → suc bits ≤ limit
        → IsTree e_less.tree
        → All (λ a. a ≡ null) (slots tree e)
        → All (λ a. a ≡ null) (slots tree e_less)
        → ((x : ℕ) → total tree (covers x) bits (e ∷ es) ≤ 1)
        → IsTakenOut (suc bits) es o
        → IsTakenOut bits (e ∷ es) (split rep tree min_size_bits bits e_less o)
    unfolding split total offset cover
    split-IsTakenOut bits e e_less es o word_size end small ok was_empty_e empty apart bigger =
        elim (Bool-cases (o.block == null)) [
          | inl none_bigger ↦
              let o_null : o.block ≡ null = (==_iff _ _).0 none_bigger in
              let rest = Buckets-lower (omega arith) (bigger.left-none o_null) in
              let all = bucket ok (All-null-IsBlock limit bits _ empty) (λ h. empty) rest in
              rw none_bigger (record {
                left-Buckets = all;
                left-block = IsBlock-weaken limit bits o.block bigger.left-block;
                left-length = ap suc bigger.left-length;
                left-total = λ m. omega (
                  arith,
                  bigger.left-total m,
                  nothing m,
                  ap (m.of bits) o_null,
                  ap (m.of (suc bits)) o_null,
                  m.of_null bits,
                  m.of_null (suc bits),
                );
                left-none = λ h. all;
              })
          | inr some_bigger ↦
              let nonnull : o.block ≢ null =
                λ h. true≢false (sym ((==_iff _ _).1 h) ∙ some_bigger) in
              let block = second_half limit bits o.block (omega arith) nonnull bigger.left-block in
              let second_some : o.block + 2 ^ bits ≢ null = λ h. nonnull (omega arith) in
              let added =
                add_block-IsAdded laws min_size_bits limit rep o.above (o.block + 2 ^ bits) bits
                  (e_less ∷ o.entries) (rep.on_split o.block (o.block + 2 ^ bits) (2 ^ bits) o.rep)
                  word_size (omega (arith, bigger.left-length))
                  (bucket ok (All-null-IsBlock limit bits _ empty) (λ h. empty) bigger.left-Buckets)
                  second_some block
                  (λ x. omega (
                    arith,
                    apart x,
                    bigger.left-total (cover x),
                    nothing (cover x),
                    (cover x).of_halves bits o.block nonnull,
                  )) in
              let landed =
                land_empty o.above (o.block + 2 ^ bits) bits e_less o.entries
                  (rep.on_split o.block (o.block + 2 ^ bits) (2 ^ bits) o.rep) word_size small ok
                  empty second_some block in
              rw some_bigger (record {
                left-Buckets = added.added-Buckets;
                left-block = IsBlock-weaken limit bits o.block bigger.left-block;
                left-length = added.added-length ∙ ap suc bigger.left-length;
                left-total = λ m. omega (
                  arith,
                  added.added-total m,
                  ap (m.of limit) landed,
                  m.of_null limit,
                  nothing m,
                  bigger.left-total m,
                  m.of_halves bits o.block nonnull,
                );
                left-none = λ h. absurd (nonnull h);
              })
        ]
      where
        nothing :
            (m : Measure)
            → (sum (m.of bits) (slots tree e) ≡ 0) × (sum (m.of bits) (slots tree e_less) ≡ 0)
        nothing m =
            (All-null-sum _ _ (m.of_null bits) was_empty_e, All-null-sum _ _ (m.of_null bits) empty)
