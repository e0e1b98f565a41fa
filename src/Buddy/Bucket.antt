-- ===== src/Buddy/Bucket.antt =====
-- src/snmalloc/backend_helpers/buddy.h: what `remove_buddy` does to the blocks of a bucket.
use snmalloc.Base.{ℕ, ◌+◌, ◌^◌, ◌≡◌, ◌≢◌, inl, inr, refl}
use snmalloc.Base.{true, false, leb}
use snmalloc.Base.{arith, All, all_nil, sum, sum-Pick, All-Pick, Bool-cases}
use snmalloc.Buddy.{null, buddy, Tree, Rep, Entry, Removed, has, replace}
use snmalloc.Buddy.{to_index, take_buddy, remove_buddy}
use snmalloc.Buddy.Measure.{TreeLaws, slots}
use snmalloc.Buddy.Slots.{sum-append, sum-replace, All-append, All-append_parts, All-replace}

module _ {T : Type 0} {tree : Tree T} {IsTree : T → Type 0} (laws : TreeLaws tree IsTree) where
  pub sum-remove_min :
      (f : ℕ → ℕ) (t : T)
      → IsTree t
      → f null ≡ 0
      → sum f (tree.contents ((tree.remove_min t).1)) + f ((tree.remove_min t).0)
        ≡ sum f (tree.contents t)
  unfolding sum
  sum-remove_min f t ok z = elim (laws.remove_min-Pick t ok) [
    | inl (was, out, left) ↦ rw (was, out, left) (omega (arith, z))
    | inr (some_out, p) ↦ omega (arith, sum-Pick f p)
  ]

  pub All-remove_min :
      {P : ℕ → Type 0} (t : T)
      → IsTree t
      → P null
      → All P (tree.contents t)
      → P ((tree.remove_min t).0) × All P (tree.contents ((tree.remove_min t).1))
  All-remove_min {P} t ok pn all = elim (laws.remove_min-Pick t ok) [
    | inl (was, out, left) ↦ rw (out, left) (pn, all_nil)
    | inr (some_out, p) ↦ All-Pick p all
  ]

  -- An entry that has lost a block.
  pub record Less (b : ℕ) (e e_less : Entry T) : Type 1 where
    pub less-IsTree : IsTree e_less.tree
    pub less-All : {P : ℕ → Type 0} → P null → All P (slots tree e) → All P (slots tree e_less)
    pub less-sum : (f : ℕ → ℕ) → f null ≡ 0 → sum f (slots tree e_less) + f b ≡ sum f (slots tree e)

  from_cache :
      (b : ℕ) (e : Entry T)
      → IsTree e.tree
      → has b e.cache ≡ true
      → Less b e (record {
        cache = replace b ((tree.remove_min e.tree).0) e.cache;
        tree = (tree.remove_min e.tree).1;
      })
  from_cache b e ok here = record {
    less-IsTree = laws.remove_min-IsTree e.tree ok;
    less-All = λ {P} pn all.
        let parts = All-append_parts e.cache (tree.contents e.tree) all in
        let least = All-remove_min {P = P} e.tree ok pn parts.1 in
        All-append _ _ (All-replace b _ e.cache least.0 parts.0) least.1;
    less-sum = λ f z.
        rw
          (
            sum-append f (replace b ((tree.remove_min e.tree).0) e.cache)
                (tree.contents ((tree.remove_min e.tree).1)),
            sum-append f e.cache (tree.contents e.tree),
          )
          (omega (
            arith,
            sum-replace f b ((tree.remove_min e.tree).0) e.cache here,
            sum-remove_min f e.tree ok z,
          ));
  }

  from_tree :
      (b : ℕ) (e : Entry T)
      → IsTree e.tree
      → b ≢ null
      → tree.find e.tree b ≡ true
      → Less b e (record e { tree = tree.remove b e.tree })
  from_tree b e ok nonnull here = record {
    less-IsTree = laws.remove-IsTree e.tree b ok;
    less-All = λ {P} pn all.
        let parts = All-append_parts e.cache (tree.contents e.tree) all in
        All-append _ _ parts.0 ((All-Pick (laws.remove-Pick e.tree b ok nonnull here) parts.1).1);
    less-sum = λ f z.
        rw
          (
            sum-append f e.cache (tree.contents (tree.remove b e.tree)),
            sum-append f e.cache (tree.contents e.tree),
          )
          (omega (arith, sum-Pick f (laws.remove-Pick e.tree b ok nonnull here)));
  }

  module _ {S : Type 0} (rep : Rep S) (min_size_bits above addr bits : ℕ) (e : Entry T)
      (s : S) where
    -- Either nothing is done, or the buddy leaves a bucket that may hold blocks.
    pub data IsRemoved (r : Removed S T) : Type 1 where
      not_removed : r.found ≡ false → r.entry ≡ e → IsRemoved r
      was_removed :
          r.found ≡ true
          → leb above (to_index rep tree min_size_bits bits) ≡ false
          → Less (buddy addr (2 ^ bits)) e r.entry
          → IsRemoved r

    take_buddy_cases :
        (e_less : Entry T)
        → Less (buddy addr (2 ^ bits)) e e_less
        → leb above (to_index rep tree min_size_bits bits) ≡ false
        → IsRemoved (take_buddy rep tree min_size_bits addr bits e s e_less)
    unfolding take_buddy
    take_buddy_cases e_less less used = elim (Bool-cases (rep.can_consolidate s addr (2 ^ bits))) [
      | inl allowed ↦ rw allowed (was_removed refl used less)
      | inr kept ↦ rw kept (not_removed refl refl)
    ]

    pub remove_buddy_cases :
        IsTree e.tree
        → buddy addr (2 ^ bits) ≢ null
        → IsRemoved (remove_buddy rep tree min_size_bits above addr bits e s)
    unfolding remove_buddy
    remove_buddy_cases ok nonnull =
        elim (Bool-cases (leb above (to_index rep tree min_size_bits bits))) [
          | inl shut ↦ rw shut (not_removed refl refl)
          | inr used ↦ elim (Bool-cases (has (buddy addr (2 ^ bits)) e.cache)) [
            | inl cached ↦ rw (used, cached) (take_buddy_cases _ (from_cache _ e ok cached) used)
            | inr not_cached ↦ elim (Bool-cases (tree.find e.tree (buddy addr (2 ^ bits)))) [
              | inl in_tree ↦
                  rw (used, not_cached, in_tree)
                    (take_buddy_cases _ (from_tree _ e ok nonnull in_tree) used)
              | inr nowhere ↦ rw (used, not_cached, nowhere) (not_removed refl refl)
            ]
          ]
        ]
