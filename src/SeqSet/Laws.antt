-- ===== src/SeqSet/Laws.antt =====
-- src/snmalloc/ds_aal/seqset.h: the operations on the nodes from the head on.
use snmalloc.Base.{ℕ, ◌≡◌, ◌≢◌, refl, arith, true, false}
use snmalloc.Base.{List, [], ◌∷◌, ◌++◌, All, all_cons, ◌∙◌, sym}
use snmalloc.Base.{some}
use mathlib.Core.List.{append-nil}
use snmalloc.Buddy.Slots.{All-append_parts}
use snmalloc.SeqSet.{
  Links, nullptr, update, invariant, unlink, remove, is_empty, pop_front, pop_back, pop, link,
  insert,
}
use snmalloc.SeqSet.Linked.{
  Apart, Distinct, distinct_cons, Linked, ends, follows, update_same, update_other, Linked-agree,
  Linked-parts, first_of, Linked-next, Linked-prev, All-first_of, All-last_of, Distinct-parts,
}
use snmalloc.SeqSet.Taking.{
  IsSeqSet, IsSeqSet-invariants, Distinct-tail, both, insert-Distinct, unlink-IsSeqSet, unlink_next,
  unlink_prev, All-head, All-tail, head-Apart, front-Apart,
}

-- A node of a set is removed: no assertion fails, and the set has all other nodes in their order.
pub remove_lem :
    (head x : ℕ) (xs ys : List ℕ) (s : Links)
    → IsSeqSet head (xs ++ (x ∷ ys)) s
    → (remove x s ≡ some (unlink x s)) × IsSeqSet head (xs ++ ys) (unlink x s)
unfolding remove
remove_lem head x xs ys s ok = (rw (now.0, now_next, now_prev, then_next, then_prev) refl, left)
  where
    left : IsSeqSet head (xs ++ ys) (unlink x s)
    left = unlink-IsSeqSet x xs ys ok

    parts : Linked s head xs x × Linked s x ys head
    parts = Linked-parts xs x ys ok.ring

    before : All (λ m. invariant m s ≡ true) (head ∷ (xs ++ (x ∷ ys)))
    before = IsSeqSet-invariants ok

    now : (invariant x s ≡ true) × All (λ m. invariant m s ≡ true) ys
    now =
        let those = All-append_parts xs (x ∷ ys) (All-tail before) in
        (All-head those.1, All-tail those.1)

    now_next : invariant (s.next x) s ≡ true
    now_next =
        rw (Linked-next parts.1)
          (All-first_of {P = λ m. invariant m s ≡ true} head ys (All-head before) now.1)

    now_prev : invariant (s.prev x) s ≡ true
    now_prev = rw (Linked-prev parts.0) (
        All-last_of {P = λ m. invariant m s ≡ true} head xs (All-head before)
          ((All-append_parts xs (x ∷ ys) (All-tail before)).0))

    after : All (λ m. invariant m (unlink x s) ≡ true) (head ∷ (xs ++ ys))
    after = IsSeqSet-invariants left

    apart : Distinct (head ∷ xs) × Distinct (x ∷ ys) × All (λ a. Apart a (x ∷ ys)) (head ∷ xs)
    apart = Distinct-parts (head ∷ xs) (x ∷ ys) ok.distinct

    others : Apart x (head ∷ xs)
    others = front-Apart apart.2

    not_next : x ≢ s.next x
    not_next e =
        All-first_of {P = λ m. m ≢ x} head ys (All-head others) (head-Apart apart.1)
          (sym (Linked-next parts.1) ∙ sym e)

    not_prev : x ≢ s.prev x
    not_prev e =
        All-last_of {P = λ m. m ≢ x} head xs (All-head others) (All-tail others)
          (sym (Linked-prev parts.0) ∙ sym e)

    then_next : invariant ((unlink x s).next x) (unlink x s) ≡ true
    then_next =
        rw (unlink_next x s not_prev, Linked-next parts.1)
          (All-first_of {P = λ m. invariant m (unlink x s) ≡ true} head ys (All-head after)
            ((All-append_parts xs ys (All-tail after)).1))

    then_prev : invariant ((unlink x s).prev x) (unlink x s) ≡ true
    then_prev =
        rw (unlink_prev x s not_next, Linked-prev parts.0)
          (All-last_of {P = λ m. invariant m (unlink x s) ≡ true} head xs (All-head after)
            ((All-append_parts xs ys (All-tail after)).0))

-- A set that has a node is not empty.
is_empty-false :
    (head x : ℕ) (xs ys : List ℕ) (s : Links)
    → IsSeqSet head (xs ++ (x ∷ ys)) s
    → is_empty head s ≡ some false
unfolding is_empty
is_empty-false head x [] ys s ok =
    let apart = All-head (head-Apart ok.distinct) in
    rw (All-head (IsSeqSet-invariants ok), Linked-next ok.ring) (ground (arith, apart))
is_empty-false head x (z ∷ xs) ys s ok =
    let apart = All-head (head-Apart ok.distinct) in
    rw (All-head (IsSeqSet-invariants ok), Linked-next ok.ring) (ground (arith, apart))

pop_front_lem :
    (head x : ℕ) (xs : List ℕ) (s : Links)
    → IsSeqSet head (x ∷ xs) s
    → (pop_front head s ≡ some (x, unlink x s)) × IsSeqSet head xs (unlink x s)
unfolding pop_front
pop_front_lem head x xs s ok =
    let removed = remove_lem head x [] xs s ok in
    (
      rw
          (
            All-head (IsSeqSet-invariants ok),
            is_empty-false head x [] xs s ok,
            Linked-next ok.ring,
            removed.0,
            All-head (IsSeqSet-invariants removed.1),
          )
          refl,
      removed.1,
    )

pop_back_lem :
    (head x : ℕ) (xs : List ℕ) (s : Links)
    → IsSeqSet head (xs ++ (x ∷ [])) s
    → (pop_back head s ≡ some (x, unlink x s)) × IsSeqSet head xs (unlink x s)
unfolding pop_back
pop_back_lem head x xs s ok =
    let removed = remove_lem head x xs [] s ok in
    let last : s.prev head ≡ x = Linked-prev ((Linked-parts xs x [] ok.ring).1) in
    (
      rw
          (
            All-head (IsSeqSet-invariants ok),
            is_empty-false head x xs [] s ok,
            last,
            removed.0,
            All-head (IsSeqSet-invariants removed.1),
          )
          refl,
      rw (append-nil xs) at removed.1,
    )

-- The links after the writes of `link`, with `first` after the head before.
abbrev put_between : (head first x : ℕ) → Links → Links
put_between head first x s = record {
  next = update (update s.next x first) head x;
  prev = update (update s.prev first x) x head;
}

put_first :
    (head x : ℕ) (xs : List ℕ) (s : Links)
    → IsSeqSet head xs s
    → head ≢ x
    → Apart x xs
    → Linked (put_between head (first_of head xs) x s) head (x ∷ xs) head
put_first head x xs s ok h hs =
    follows (update_same _ head x head refl) (update_same _ x head x refl)
      (rest xs ok.ring (head-Apart ok.distinct) (Distinct-tail ok.distinct) hs)
  where
    next_x : (first : ℕ) → (put_between head first x s).next x ≡ first
    next_x first =
        update_other (update s.next x first) head x x (λ e. h (sym e))
        ∙ update_same s.next x first x refl

    prev_first : (first : ℕ) → first ≢ x → (put_between head first x s).prev first ≡ x
    prev_first first k = update_other _ x head first k ∙ update_same s.prev first x first refl

    next_other : (first m : ℕ) → m ≢ head → m ≢ x → (put_between head first x s).next m ≡ s.next m
    next_other first m a b = update_other _ head x m a ∙ update_other s.next x first m b

    prev_other : (first m : ℕ) → m ≢ first → m ≢ x → (put_between head first x s).prev m ≡ s.prev m
    prev_other first m a b = update_other _ x head m b ∙ update_other s.prev first x m a

    rest :
        (ys : List ℕ)
        → Linked s head ys head
        → Apart head ys
        → Distinct ys
        → Apart x ys
        → Linked (put_between head (first_of head ys) x s) x ys head
    rest [] (ends n p) a d b = ends (next_x head) (prev_first head h)
    rest (y ∷ ys) (follows n p l) (all_cons a as') (distinct_cons d ds) (all_cons b bs) =
        follows (next_x y) (prev_first y b) (
          Linked-agree s (put_between head y x s) y ys head l (next_other y y a b)
            (both (λ m u v. next_other y m u v) as' bs) (both (λ m u v. prev_other y m u v) d bs)
            (prev_other y head (λ e. a (sym e)) h))

-- The four writes put the node between the head and the first node.
link-IsSeqSet :
    (head x : ℕ) (xs : List ℕ) (s : Links)
    → IsSeqSet head xs s
    → x ≢ nullptr
    → Apart x (head ∷ xs)
    → IsSeqSet head (x ∷ xs) (link head x s)
unfolding link
link-IsSeqSet head x xs s ok nonnull (all_cons h hs) = record {
  head_some = ok.head_some;
  nodes_some = all_cons nonnull ok.nodes_some;
  distinct = insert-Distinct h hs ok.distinct;
  ring = rw (Linked-next ok.ring) (put_first head x xs s ok h hs);
}

-- A node that is neither null nor the head nor in the set is inserted: no assertion fails, and it is
-- the first, before all others in their order.
pub insert_lem :
    (head x : ℕ) (xs : List ℕ) (s : Links)
    → IsSeqSet head xs s
    → x ≢ nullptr
    → Apart x (head ∷ xs)
    → (insert head x s ≡ some (link head x s)) × IsSeqSet head (x ∷ xs) (link head x s)
unfolding insert
insert_lem head x xs s ok nonnull apart =
    let put = link-IsSeqSet head x xs s ok nonnull apart in
    let holds = IsSeqSet-invariants put in
    (rw (All-head (All-tail holds), All-head holds) refl, put)

-- Of a set with nodes, `pop` with `is_fifo` takes the first node, which is the one inserted last, and
-- without it the last node; no assertion fails, and the others keep their order.
pub pop_lem :
    (head x : ℕ) (xs : List ℕ) (y : ℕ) (ys : List ℕ) (s : Links)
    → IsSeqSet head (x ∷ xs) s
    → x ∷ xs ≡ ys ++ (y ∷ [])
    → (pop head true s ≡ some (x, unlink x s))
      × IsSeqSet head xs (unlink x s)
      × (pop head false s ≡ some (y, unlink y s))
      × IsSeqSet head ys (unlink y s)
unfolding pop
pop_lem head x xs y ys s ok e =
    let front = pop_front_lem head x xs s ok in
    let back = pop_back_lem head y ys s (rw e at ok) in
    let holds = All-head (IsSeqSet-invariants ok) in
    (rw (holds, front.0) refl, front.1, rw (holds, back.0) refl, back.1)
