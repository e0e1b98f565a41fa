-- ===== src/Ranges/LargeBuddy/Deallocating.antt =====
-- src/snmalloc/backend_helpers/largebuddyrange.h: `dealloc_range` and the platform.
use snmalloc.Base.{ℕ, ◌+◌, ◌^◌, ◌≤◌, ◌<◌, ◌≡◌, ◌≢◌, inl, inr, ap, arith}
use snmalloc.Base.{Bool}
use snmalloc.Base.{◌∙◌}
use snmalloc.Buddy.{null, Tree}
use snmalloc.Buddy.Measure.{TreeLaws, covers, total}
use snmalloc.Ranges.{Range}
use snmalloc.Ranges.ChunkRep.{Outside, chunk_rep}
use snmalloc.Ranges.LargeBuddy.Kept.{}
use snmalloc.Buddy.Address.{IsBlock}
use snmalloc.Buddy.Array.{Buddy, IsArray, add_to, add_to_lem, add_to-Kept, add_to-HasLanded}
use snmalloc.Bits.Leading.{next_pow2_bits_pow}
use snmalloc.Ranges.LargeBuddy.Allocating.{size_test}
use snmalloc.Ranges.LargeBuddy.{LargeBuddyRange, after, dealloc_range}
use snmalloc.Ranges.LargeBuddy.Idle.{
  IdleKept, idle-KeptBy, settle_landed, overflow-idle, maybe_sweep_decay-idle,
}

module _ {S T : Type 0} {tree : Tree T} {IsTree : T → Type 0} (tree_laws : TreeLaws tree IsTree)
    (out : Outside S) (range : Range S) (chunk_bits refill_bits max_bits min_refill_bits : ℕ)
    (manages : Bool) where
  -- A block is deallocated that is not null, is aligned, at least a chunk, beyond the first
  -- `2 ^ max_bits` bytes, and of which no byte is free, into buckets that are in order. Then memory
  -- not at null is reported unused only if every byte of it was free before or is in the block: every
  -- property of the outside that all other steps and the parent's deallocation keep, and that reports
  -- of such memory keep, is kept, through merges, the immediate decay, the overflow and the sweep.
  pub dealloc_range_idle :
      (bits base : ℕ) (s : LargeBuddyRange S T) (Kept : S → Type 0)
      → chunk_bits ≤ bits
      → 1 < max_bits
      → IsArray (chunk_rep out chunk_bits) tree_laws chunk_bits max_bits s.buddy_large
      → base ≢ null
      → IsBlock max_bits bits base
      → ((x : ℕ) → total tree (covers x) chunk_bits s.buddy_large.entries + covers x bits base ≤ 1)
      → IdleKept out
          (λ x. total tree (covers x) chunk_bits s.buddy_large.entries + covers x bits base)
          Kept
      → ((a n : ℕ) (t : S) → Kept t → Kept (range.dealloc_range a n t))
      → Kept s.parent
      → Kept (
          (dealloc_range out chunk_bits tree range refill_bits max_bits min_refill_bits manages base
            (2 ^ bits)
            s).parent)
  unfolding dealloc_range
  dealloc_range_idle bits base s Kept least large ok nonnull block new keeps parent_keeps h =
      elim (size_test bits max_bits large) [
        | inl (less, test) ↦
            let rep = chunk_rep out chunk_bits in
            let o = add_to rep tree chunk_bits base bits s.buddy_large s.parent in
            let s1 =
              after out chunk_bits tree range refill_bits max_bits min_refill_bits manages o s in
            let most : bits ≤ max_bits = omega arith in
            let fits : bits < 64 = omega (arith, ok.in_word) in
            let added =
              add_to_lem rep tree_laws chunk_bits max_bits bits least most s.buddy_large ok base
                s.parent nonnull block new in
            let le : (x : ℕ)
                → total tree (covers x) chunk_bits o.entries
                  ≤ total tree (covers x) chunk_bits s.buddy_large.entries + covers x bits base =
              λ x. omega (arith, added.2 x) in
            let settled =
              settle_landed chunk_bits keeps tree range refill_bits max_bits min_refill_bits manages
                tree_laws base o.block o.entries o.landed s1
                (add_to-HasLanded rep tree_laws chunk_bits max_bits bits least most s.buddy_large ok
                  base s.parent nonnull block new)
                le
                (add_to-Kept rep tree chunk_bits base bits s.buddy_large
                  (idle-KeptBy chunk_bits keeps) s.parent h) in
            let passed =
              overflow-idle chunk_bits keeps tree range refill_bits max_bits min_refill_bits manages
                o.block _ parent_keeps settled.still-Kept in
            let same : (x : ℕ)
                → total tree (covers x) chunk_bits _ ≡ total tree (covers x) chunk_bits o.entries =
              λ x.
                ap (λ (b : Buddy T). total tree (covers x) chunk_bits b.entries)
                  (passed.same_buddy ∙ settled.same_buddy) in
            let swept =
              maybe_sweep_decay-idle chunk_bits keeps tree range refill_bits max_bits
                min_refill_bits manages _ (λ x. omega (arith, le x, same x)) passed.still-Kept in
            rw (test, next_pow2_bits_pow bits fits) swept.still-Kept
        | inr (more, test) ↦ rw test (parent_keeps _ _ s.parent h)
      ]
