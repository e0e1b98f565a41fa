-- ===== src/Ranges/Passing/Laws.antt =====
-- The ranges of src/snmalloc/backend_helpers that pass calls on, and what their parent promises.
use snmalloc.Base.{ℕ, ◌^◌, ◌≤◌, ◌<◌, ◌≡◌, inl, inr, refl, arith}
use snmalloc.Base.{Bool, ◌==◌, Bool-cases}
use snmalloc.Buddy.{null}
use snmalloc.Ranges.{Range}
use snmalloc.Ranges.Laws.{RangeLaws, IsAllocated, covers-null}
use snmalloc.Ranges.Passing.{
  CommitRange, commit_alloc_range, commit_dealloc_range, commit_range, StatsRange,
  stats_alloc_range, stats_dealloc_range, stats_range, conditional_alloc_range,
  conditional_dealloc_range, conditional_range,
}
use native.Mathlib.Nat.{zero-mod}

module _ {S : Type 0} {range : Range S} {floor min_bits : ℕ} {owned : S → ℕ → ℕ}
    {IsRange : S → Type 0} (laws : RangeLaws floor owned IsRange range min_bits)
    (small : min_bits < 63) where
  -- The platform's calls leave the parent's memory alone.
  abbrev pub LeavesMemory : (S → S) → Type 0
  LeavesMemory f = (s : S) → IsRange s → IsRange (f s) × ((x : ℕ) → owned (f s) x ≡ owned s x)

  module _ (notify_using : (addr size : ℕ) → S → Bool × S)
      (notify_not_using : (addr size : ℕ) → S → S)
      (using_leaves : (a n : ℕ) → LeavesMemory (λ s. (notify_using a n s).1))
      (not_using_leaves : (a n : ℕ) → LeavesMemory (notify_not_using a n)) where
    abbrev pub commit_owned : CommitRange S → ℕ → ℕ
    commit_owned s x = owned s.parent x

    abbrev pub IsCommit : CommitRange S → Type 0
    IsCommit s = IsRange s.parent

    commit_alloc_range-IsAllocated :
        (bits : ℕ) (s : CommitRange S)
        → min_bits ≤ bits
        → bits < 63
        → IsCommit s
        → let r = commit_alloc_range range notify_using notify_not_using (2 ^ bits) s in
          IsAllocated floor commit_owned IsCommit bits s (r.0) (r.1)
    unfolding commit_alloc_range
    commit_alloc_range-IsAllocated bits s least bits_small ok =
        let r = range.alloc_range (2 ^ bits) s.parent in
        let used = notify_using (r.0) (2 ^ bits) (r.1) in
        let got = laws.alloc_range_lem bits s.parent least bits_small ok in
        let left = using_leaves (r.0) (2 ^ bits) (r.1) got.left-IsRange in
        elim (Bool-cases (r.0 == null)) [
          | inl none_left ↦ rw none_left (record {
            left-IsRange = got.left-IsRange;
            base_aligned = got.base_aligned;
            shared = got.shared;
          })
          | inr some_range ↦ elim (Bool-cases used.0) [
            | inl accepted ↦
                rw (some_range, accepted)
                  (record {
                    left-IsRange = left.0;
                    base_aligned = got.base_aligned;
                    shared = λ x. omega (arith, got.shared x, left.1 x);
                  })
            | inr refused ↦
                let back =
                  laws.dealloc_range_lem bits (r.0) (used.1) least bits_small left.0 (record {
                    some_base = λ e. ground (arith, some_range, e);
                    aligned = got.base_aligned;
                    new = λ x. omega (arith, got.shared x, left.1 x, laws.owned_le s.parent x ok);
                  }) in
                rw (some_range, refused)
                  (record {
                    left-IsRange = back.taken-IsRange;
                    base_aligned = omega (arith, zero-mod (2 ^ bits));
                    shared = λ x. omega (
                      arith,
                      back.joined x,
                      left.1 x,
                      got.shared x,
                      covers-null x bits null refl,
                    );
                  })
          ]
        ]

    -- CommitRange keeps what its parent promises, also when the platform refuses the pages: the
    -- memory is then the range's again.
    pub commit_range-RangeLaws :
        RangeLaws floor commit_owned IsCommit
          (commit_range range notify_using notify_not_using)
          min_bits
    unfolding commit_range commit_dealloc_range
    commit_range-RangeLaws = record {
      owned_le = λ s x ok. laws.owned_le s.parent x ok;
      alloc_range_lem = λ bits s least b ok. commit_alloc_range-IsAllocated bits s least b ok;
      dealloc_range_lem = λ bits base s least b ok may.
          let left = not_using_leaves base (2 ^ bits) s.parent ok in
          let taken =
            laws.dealloc_range_lem bits base (notify_not_using base (2 ^ bits) s.parent) least b
              left.0
              (record {
                some_base = may.some_base;
                aligned = may.aligned;
                new = λ x. omega (arith, may.new x, left.1 x);
              }) in
          record {
            taken-IsRange = taken.taken-IsRange;
            joined = λ x. omega (arith, taken.joined x, left.1 x);
          };
    }

  abbrev pub stats_owned : StatsRange S → ℕ → ℕ
  stats_owned s x = owned s.parent x

  abbrev pub IsStats : StatsRange S → Type 0
  IsStats s = IsRange s.parent

  pub stats_range-RangeLaws : RangeLaws floor stats_owned IsStats (stats_range range) min_bits
  unfolding stats_range stats_alloc_range stats_dealloc_range
  stats_range-RangeLaws = record {
    owned_le = λ s x ok. laws.owned_le s.parent x ok;
    alloc_range_lem = λ bits s least b ok.
        let got = laws.alloc_range_lem bits s.parent least b ok in
        elim (Bool-cases ((range.alloc_range (2 ^ bits) s.parent).0 == null)) [
          | inl none_left ↦ rw none_left (record {
            left-IsRange = got.left-IsRange;
            base_aligned = got.base_aligned;
            shared = got.shared;
          })
          | inr some_range ↦ rw some_range (record {
            left-IsRange = got.left-IsRange;
            base_aligned = got.base_aligned;
            shared = got.shared;
          })
        ];
    dealloc_range_lem = λ bits base s least b ok may.
        let taken =
          laws.dealloc_range_lem bits base s.parent least b ok
            (record { some_base = may.some_base; aligned = may.aligned; new = may.new }) in
        record { taken-IsRange = taken.taken-IsRange; joined = taken.joined };
  }

  -- Two ranges over the same state.
  pub conditional_range-RangeLaws :
      (disable_range : S → Bool) (other : Range S)
      → RangeLaws floor owned IsRange other min_bits
      → RangeLaws floor owned IsRange (conditional_range disable_range range other) min_bits
  unfolding conditional_range conditional_alloc_range conditional_dealloc_range
  conditional_range-RangeLaws disable_range other other_laws = record {
    owned_le = laws.owned_le;
    alloc_range_lem = λ bits s least b ok. elim (Bool-cases (disable_range s)) [
      | inl off ↦ rw off (other_laws.alloc_range_lem bits s least b ok)
      | inr on ↦ rw on (laws.alloc_range_lem bits s least b ok)
    ];
    dealloc_range_lem = λ bits base s least b ok may. elim (Bool-cases (disable_range s)) [
      | inl off ↦ rw off (other_laws.dealloc_range_lem bits base s least b ok may)
      | inr on ↦ rw on (laws.dealloc_range_lem bits base s least b ok may)
    ];
  }
