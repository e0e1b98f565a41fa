-- ===== src/Ranges/Tests/Large.antt =====
-- The large buddy allocator over the block, and all ranges of a thread together. The platform of
-- the tests does nothing and its clock stands still.
use snmalloc.Base.{ℕ, refl, arith, Bool, true, false, List, []}
use snmalloc.Buddy.RedBlackTrees.{rb_tree, rb_tree-TreeLaws}
use snmalloc.Ranges.Held.{held_range, held_range-RangeLaws}
use snmalloc.Ranges.Laws.{RangeLaws}
use snmalloc.Ranges.SmallBuddy.Adding.{IsSmall}
use snmalloc.Ranges.ChunkRep.{Outside}
use snmalloc.Ranges.LargeBuddy.{large_buddy_range}
use snmalloc.Ranges.LargeBuddy.Kept.{OutsideKept}
use snmalloc.Ranges.LargeBuddy.Adding.{IsLarge, large_owned}
use snmalloc.Ranges.LargeBuddy.Refines.{large_buddy_range-RangeLaws}
use snmalloc.Ranges.Passing.Stack.{
  large_object_range-RangeLaws, object_range, object_owned, object_range-RangeLaws,
}
use snmalloc.Ranges.Tests.{no_clear}

abbrev pub still : {S : Type 0} → Outside S
still = record {
  word_one = λ s k. 0;
  set_word_one = λ k w s. s;
  is_boundary = λ s k. false;
  counts = λ s. [];
  set_counts = λ counts s. s;
  notify_using = λ a n s. s;
  notify_not_using = λ a n s. s;
  time_in_ms = λ s. (5, s);
  decay_rate_ms = λ s. 1000;
}

still-OutsideKept : {S : Type 0} (Kept : S → Type 0) → OutsideKept still Kept
still-OutsideKept Kept = record {
  set_word_one-Kept = λ k w s h. h;
  set_counts-Kept = λ counts s h. h;
  notify_using-Kept = λ a n s h. h;
  notify_not_using-Kept = λ a n s h. h;
  time_in_ms-Kept = λ s h. h;
}

large_buddy_range-RangeLaws_example :
    RangeLaws 8
      (large_owned rb_tree-TreeLaws (held_range-RangeLaws 8 6) still 8)
      (IsLarge rb_tree-TreeLaws (held_range-RangeLaws 8 6) still 8)
      (large_buddy_range still 6 rb_tree held_range 7 8 6 true)
      6
large_buddy_range-RangeLaws_example =
    large_buddy_range-RangeLaws rb_tree-TreeLaws (held_range-RangeLaws 8 6) still 8
      (λ t. still-OutsideKept _) 7 6 true (omega arith) (omega arith) (omega arith) (omega arith)
      (omega arith) (omega arith)

abbrev accepts : ℕ → ℕ → List (ℕ × ℕ) → Bool × List (ℕ × ℕ)
accepts a n s = (true, s)

abbrev ignores : ℕ → ℕ → List (ℕ × ℕ) → List (ℕ × ℕ)
ignores a n s = s

abbrev never : {S : Type 0} → S → Bool
never s = false

object_range-RangeLaws_example :
    RangeLaws 8
      (object_owned rb_tree-TreeLaws
        (held_range-RangeLaws 8 6)
        (omega arith)
        accepts
        ignores
        (λ a n s ok. (ok, λ x. refl))
        (λ a n s ok. (ok, λ x. refl))
        still
        8
        6
        (λ t. still-OutsideKept _)
        never
        (omega arith)
        (omega arith)
        (omega arith)
        (omega arith)
        (omega arith)
        4
        (omega arith)
        no_clear
        (λ k s ok. (ok, λ x. refl)))
      (IsSmall rb_tree-TreeLaws
        (large_object_range-RangeLaws rb_tree-TreeLaws
          (held_range-RangeLaws 8 6)
          (omega arith)
          accepts
          ignores
          (λ a n s ok. (ok, λ x. refl))
          (λ a n s ok. (ok, λ x. refl))
          still
          8
          6
          (λ t. still-OutsideKept _)
          never
          (omega arith)
          (omega arith)
          (omega arith)
          (omega arith)
          (omega arith))
        4
        no_clear)
      (object_range held_range accepts ignores still rb_tree 6 8 6 never 4 no_clear)
      4
object_range-RangeLaws_example =
    object_range-RangeLaws rb_tree-TreeLaws (held_range-RangeLaws 8 6) (omega arith) accepts ignores
      (λ a n s ok. (ok, λ x. refl)) (λ a n s ok. (ok, λ x. refl)) still 8 6
      (λ t. still-OutsideKept _) never (omega arith) (omega arith) (omega arith) (omega arith)
      (omega arith) 4 (omega arith) no_clear (λ k s ok. (ok, λ x. refl))
