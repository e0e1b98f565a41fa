-- ===== src/Ranges/Tests/Idle.antt =====
-- A deallocation with immediate decay, on a platform that keeps a log of the memory reported unused.
use snmalloc.Base.{ℕ, ◌+◌, ◌^◌, ◌≤◌, ◌<◌, ◌≢◌, refl, arith, true, List, [], ◌∷◌, All}
use snmalloc.Base.{all_nil, all_cons, sum, inr}
use snmalloc.Buddy.{null}
use snmalloc.Buddy.Measure.{total, covers}
use snmalloc.Buddy.Address.{IsBlock}
use snmalloc.Buddy.RedBlackTrees.{rb_tree, rb_tree-TreeLaws}
use snmalloc.RedBlack.{RbTree, in_order}
use snmalloc.Ranges.{Range}
use snmalloc.Ranges.ChunkRep.{Outside, chunk_rep}
use snmalloc.Ranges.LargeBuddy.{LargeBuddyRange, dealloc_range}
use snmalloc.Ranges.LargeBuddy.Idle.{IdleKept}
use snmalloc.Ranges.LargeBuddy.Deallocating.{dealloc_range_idle}
use snmalloc.Ranges.Tests.{two_buckets, two_buckets-IsArray}
use snmalloc.Ranges.Tests.Large.{still}

abbrev logging : Outside (List (ℕ × ℕ))
logging = record still { notify_not_using = λ a n s. (a, n) ∷ s; decay_rate_ms = λ s. 0 }

abbrev no_parent : Range (List (ℕ × ℕ))
no_parent = record { alloc_range = λ size s. (null, s); dealloc_range = λ base size s. s }

abbrev two_free : LargeBuddyRange (List (ℕ × ℕ)) RbTree
two_free = record {
  requested_total = 0;
  buddy_large = two_buckets;
  last_touched_ms = 0 ∷ (0 ∷ []);
  next_sweep_due_ms = 0;
  parent = [];
}

-- Memory that, unless it is at null, is in the block of 64 bytes at 1024.
abbrev InBlock : ℕ × ℕ → Type 0
InBlock b = b.0 ≢ null → (x : ℕ) → b.0 ≤ x → x < b.0 + b.1 → (1024 ≤ x) × (x < 1088)

logging-IdleKept :
    IdleKept logging
      (λ x. total rb_tree (covers x) 6 two_buckets.entries + covers x 6 1024)
      (All InBlock)
unfolding total covers sum in_order
logging-IdleKept = record {
  set_word_one-Kept = λ k w s h. h;
  set_counts-Kept = λ counts s h. h;
  notify_using-Kept = λ a n s h. h;
  notify_not_using-Kept =
      λ a bits s le h. all_cons (λ n x lo hi. ground (arith, le x, n, lo, hi)) h;
  time_in_ms-Kept = λ s h. h;
}

chunk_new : (x : ℕ) → total rb_tree (covers x) 6 two_buckets.entries + covers x 6 1024 ≤ 1
unfolding total covers sum in_order
chunk_new x = ground arith

chunk-IsBlock : IsBlock 8 6 1024
unfolding IsBlock
chunk-IsBlock = (refl, inr (omega arith), omega arith)

dealloc_range_idle_example :
    All InBlock
      ((dealloc_range logging 6 rb_tree no_parent 7 8 6 true 1024 (2 ^ 6) two_free).parent)
dealloc_range_idle_example =
    dealloc_range_idle rb_tree-TreeLaws logging no_parent 6 7 8 6 true 6 1024 two_free (All InBlock)
      (omega arith) (omega arith) (two_buckets-IsArray (chunk_rep logging 6) 6 8 refl (omega arith))
      (omega arith) chunk-IsBlock chunk_new logging-IdleKept (λ a n t h. h) all_nil
