-- ===== src/Buddy/Placing.antt =====
-- src/snmalloc/backend_helpers/buddy.h: what the parts of `add_block` and `remove_block` that stay in
-- one bucket do to its blocks.
use snmalloc.Base.{ℕ, ◌+◌, ◌≡◌, ◌≢◌, inl, inr, refl, sym, ◌∙◌}
use snmalloc.Base.{false}
use snmalloc.Base.{arith, All, all_nil, sum, sum-Pick, Bool-cases, ◌==◌, ==_iff}
use snmalloc.Buddy.{null, Tree, Rep, Entry, has, replace, exchange}
use snmalloc.Buddy.{put, take_block}
use mathlib.Core.Bool.{true≢false}
use snmalloc.Buddy.Measure.{TreeLaws, slots, covers, covers_self}
use snmalloc.Buddy.Slots.{
  sum-append, sum-replace, sum-exchange, All-append, All-append_parts, All-replace, All-exchange,
  exchange-null, All-put,
}
use snmalloc.Buddy.Bucket.{Less, sum-remove_min, All-remove_min}

module _ {T : Type 0} {tree : Tree T} {IsTree : T → Type 0} (laws : TreeLaws tree IsTree) where
  -- An entry that has gained a block.
  pub record More (a : ℕ) (e e_more : Entry T) : Type 1 where
    pub more-IsTree : IsTree e_more.tree
    pub more-All : {P : ℕ → Type 0} → P a → All P (slots tree e) → All P (slots tree e_more)
    pub more-sum : (f : ℕ → ℕ) → f null ≡ 0 → sum f (slots tree e_more) ≡ sum f (slots tree e) + f a

  -- A block none of whose bytes is free is not in the tree.
  not_found :
      (bits a : ℕ) (e : Entry T)
      → IsTree e.tree
      → a ≢ null
      → sum (covers a bits) (slots tree e) ≡ 0
      → tree.find e.tree a ≡ false
  not_found bits a e ok nonnull free = elim (Bool-cases (tree.find e.tree a)) [
    | inr absent ↦ absent
    | inl there ↦ absurd (
        omega (
          arith,
          free,
          covers_self bits a nonnull,
          sum-append (covers a bits) e.cache (tree.contents e.tree),
          sum-Pick (covers a bits) (laws.remove-Pick e.tree a ok nonnull there),
        ))
  ]

  module _ {S : Type 0} (rep : Rep S) (min_size_bits : ℕ) where
    pub put-More :
        (bits a : ℕ) (e : Entry T)
        → IsTree e.tree
        → a ≢ null
        → sum (covers a bits) (slots tree e) ≡ 0
        → More a e (put rep tree min_size_bits a e)
    unfolding put
    put-More bits a e ok nonnull free = elim (Bool-cases (has null e.cache)) [
      | inl room ↦ rw room (record {
        more-IsTree = ok;
        more-All = λ {P} pa all.
            let parts = All-append_parts e.cache (tree.contents e.tree) all in
            All-append _ _ (All-replace null a e.cache pa parts.0) parts.1;
        more-sum = λ f z.
            rw
              (
                sum-append f (replace null a e.cache) (tree.contents e.tree),
                sum-append f e.cache (tree.contents e.tree),
              )
              (omega (arith, z, sum-replace f null a e.cache room));
      })
      | inr full ↦
          let p = laws.insert-Pick e.tree a ok nonnull (not_found bits a e ok nonnull free) in
          rw full (record {
            more-IsTree =
                laws.insert-IsTree e.tree a ok nonnull (not_found bits a e ok nonnull free);
            more-All = λ {P} pa all.
                let parts = All-append_parts e.cache (tree.contents e.tree) all in
                All-append _ _ parts.0 (All-put p pa parts.1);
            more-sum = λ f z.
                rw
                  (
                    sum-append f e.cache (tree.contents (tree.insert a e.tree)),
                    sum-append f e.cache (tree.contents e.tree),
                  )
                  (omega (arith, sum-Pick f p));
          })
    ]

    -- Either a block is taken, or there was none.
    pub data IsTaken (e : Entry T) (r : ℕ × Entry T) : Type 1 where
      took : r.0 ≢ null → Less laws (r.0) e (r.1) → IsTaken e r
      was_empty :
          r.0 ≡ null
          → IsTree (r.1).tree
          → All (λ a. a ≡ null) (slots tree e)
          → All (λ a. a ≡ null) (slots tree (r.1))
          → IsTaken e r

    take_block-Less :
        (e : Entry T)
        → IsTree e.tree
        → Less laws
            ((take_block rep tree min_size_bits e).0)
            e
            ((take_block rep tree min_size_bits e).1)
    unfolding take_block
    take_block-Less e ok = record {
      less-IsTree = laws.remove_min-IsTree e.tree ok;
      less-All = λ {P} pn all.
          let parts = All-append_parts e.cache (tree.contents e.tree) all in
          let least = All-remove_min laws {P = P} e.tree ok pn parts.1 in
          All-append _ _ ((All-exchange _ e.cache least.0 parts.0).1) least.1;
      less-sum = λ f z.
          rw
            (
              sum-append f ((exchange ((tree.remove_min e.tree).0) e.cache).1)
                  (tree.contents ((tree.remove_min e.tree).1)),
              sum-append f e.cache (tree.contents e.tree),
            )
            (omega (
              arith,
              sum-exchange f ((tree.remove_min e.tree).0) e.cache,
              sum-remove_min laws f e.tree ok z,
            ));
    }

    take_block-null :
        (e : Entry T)
        → IsTree e.tree
        → (take_block rep tree min_size_bits e).0 ≡ null
        → All (λ a. a ≡ null) (slots tree e)
    unfolding take_block
    take_block-null e ok none_left =
        let through = exchange-null ((tree.remove_min e.tree).0) e.cache none_left in
        elim (laws.remove_min-Pick e.tree ok) [
          | inl (was, out, left) ↦ All-append _ _ through.1 (rw was all_nil)
          | inr (some_out, p) ↦ absurd (some_out through.0)
        ]

    pub take_block_cases :
        (e : Entry T) → IsTree e.tree → IsTaken e (take_block rep tree min_size_bits e)
    take_block_cases e ok = elim (Bool-cases ((take_block rep tree min_size_bits e).0 == null)) [
      | inl null_out ↦
          let out : (take_block rep tree min_size_bits e).0 ≡ null = (==_iff _ _).0 null_out in
          let less = take_block-Less e ok in
          let all = take_block-null e ok out in
          was_empty out less.less-IsTree all (less.less-All refl all)
      | inr some_out ↦
          took (λ out. true≢false (sym ((==_iff _ _).1 out) ∙ some_out)) (take_block-Less e ok)
    ]
