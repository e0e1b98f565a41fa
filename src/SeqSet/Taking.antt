-- ===== src/SeqSet/Taking.antt =====
-- src/snmalloc/ds_aal/seqset.h: what it means that links hold a set, and the two writes that take
-- a node out of it.
use snmalloc.Base.{ℕ, ◌≡◌, ◌≢◌, refl, arith, true, List, [], ◌∷◌, ◌++◌}
use snmalloc.Base.{All, all_nil, all_cons, sym}
use mathlib.Core.List.{append-nil}
use snmalloc.Buddy.Slots.{All-append, All-append_parts}
use snmalloc.SeqSet.{Links, nullptr, invariant, unlink}
use snmalloc.SeqSet.Linked.{
  Apart, Distinct, distinct_cons, Linked, ends, follows, update_same, update_other, Linked-agree,
  Linked-parts, Linked-join, Linked-next, Linked-first_prev, Linked-prev, Linked-last_next,
  All-first_of, All-last_of, Linked-replace_end, Distinct-parts, Distinct-join, All-map,
}

-- The nodes `xs` in a ring with the head, in this order from the head on.
pub record IsSeqSet (head : ℕ) (xs : List ℕ) (s : Links) : Type 0 where
  pub head_some : head ≢ nullptr
  pub nodes_some : All (λ x. x ≢ nullptr) xs
  pub distinct : Distinct (head ∷ xs)
  pub ring : Linked s head xs head

invariant_lem :
    {n a b : ℕ} (s : Links)
    → a ≢ nullptr
    → b ≢ nullptr
    → s.next n ≡ b
    → s.prev n ≡ a
    → s.prev b ≡ n
    → s.next a ≡ n
    → invariant n s ≡ true
unfolding invariant
invariant_lem {n} {a} {b} s ha hb eb ea pb na = rw (eb, ea, pb, na) (ground arith)

chain_invariants :
    (s : Links) (first : ℕ) (xs : List ℕ) (last : ℕ)
    → Linked s first xs last
    → first ≢ nullptr
    → last ≢ nullptr
    → All (λ x. x ≢ nullptr) xs
    → All (λ m. invariant m s ≡ true) xs
chain_invariants s first [] last (ends n p) hf hl all_nil = all_nil
chain_invariants s first (x ∷ xs) last (follows n p rest) hf hl (all_cons hx hxs) =
    all_cons
      (invariant_lem s hf (All-first_of {P = λ m. m ≢ nullptr} last xs hl hxs) (Linked-next rest) p
        (Linked-first_prev rest) n)
      (chain_invariants s x xs last rest hx hl hxs)

-- The assertions of all nodes hold, the head's too.
pub IsSeqSet-invariants :
    {head : ℕ} {xs : List ℕ} {s : Links}
    → IsSeqSet head xs s
    → All (λ m. invariant m s ≡ true) (head ∷ xs)
IsSeqSet-invariants {head} {xs} {s} ok =
    all_cons
      (invariant_lem s (All-last_of {P = λ m. m ≢ nullptr} head xs ok.head_some ok.nodes_some)
        (All-first_of {P = λ m. m ≢ nullptr} head xs ok.head_some ok.nodes_some)
        (Linked-next ok.ring) (Linked-prev ok.ring) (Linked-first_prev ok.ring)
        (Linked-last_next ok.ring))
      (chain_invariants s head xs head ok.ring ok.head_some ok.head_some ok.nodes_some)

-- Of a part of a ring, the nodes before are none of those after.
behind-Apart :
    {ys : List ℕ} {x y : ℕ} {xs : List ℕ}
    → All (λ a. Apart a (x ∷ (y ∷ ys))) xs
    → All (λ a. a ≢ y) xs
behind-Apart all_nil = all_nil
behind-Apart (all_cons (all_cons h1 (all_cons h hs)) rest) =
    all_cons (λ e. h (sym e)) (behind-Apart rest)

-- What follows from two properties of all nodes.
pub both :
    {P Q R : ℕ → Type 0} {xs : List ℕ}
    → ((m : ℕ) → P m → Q m → R m)
    → All P xs
    → All Q xs
    → All R xs
both f all_nil all_nil = all_nil
both f (all_cons p ps) (all_cons q qs) = all_cons (f _ p q) (both f ps qs)

pub insert-Distinct :
    {head x : ℕ} {xs : List ℕ}
    → head ≢ x
    → Apart x xs
    → Distinct (head ∷ xs)
    → Distinct (head ∷ (x ∷ xs))
insert-Distinct h hs (distinct_cons a d) =
    distinct_cons (all_cons (λ e. h (sym e)) a) (distinct_cons hs d)

pub front-Apart : {ys : List ℕ} {x : ℕ} {xs : List ℕ} → All (λ a. Apart a (x ∷ ys)) xs → Apart x xs
front-Apart all_nil = all_nil
front-Apart (all_cons (all_cons h hs) rest) = all_cons (λ e. h (sym e)) (front-Apart rest)

pub head-Apart : {x : ℕ} {xs : List ℕ} → Distinct (x ∷ xs) → Apart x xs
head-Apart (distinct_cons a d) = a

own-Apart : {x y : ℕ} {ys : List ℕ} → Distinct (x ∷ (y ∷ ys)) → Apart y ys
own-Apart (distinct_cons a (distinct_cons b d)) = b

pub Distinct-tail : {x : ℕ} {xs : List ℕ} → Distinct (x ∷ xs) → Distinct xs
Distinct-tail (distinct_cons a d) = d

pub All-head : {P : ℕ → Type 0} {x : ℕ} {xs : List ℕ} → All P (x ∷ xs) → P x
All-head (all_cons p ps) = p

pub All-tail : {P : ℕ → Type 0} {x : ℕ} {xs : List ℕ} → All P (x ∷ xs) → All P xs
All-tail (all_cons p ps) = ps

module _ {head x : ℕ} {s : Links} where
  -- The ring without the node, where the two writes are at its neighbours.
  unlink-Linked :
      (xs ys : List ℕ)
      → Distinct ((head ∷ xs) ++ (x ∷ ys))
      → Linked s head xs x
      → Linked s x ys head
      → Linked (unlink x s) head (xs ++ ys) head
  unfolding unlink
  unlink-Linked xs [] d before (ends n p) =
      let parts = Distinct-parts (head ∷ xs) (x ∷ []) d in
      let own = head-Apart parts.0 in
      rw (append-nil xs, n, Linked-prev before)
        (Linked-replace_end head xs before parts.0 (update_same s.next _ head _ refl)
          (update_same s.prev head _ _ refl) (λ m h. update_other s.next _ head m h)
          (All-map (λ m h. update_other s.prev head _ m h) own))
  unlink-Linked xs (y ∷ ys) d before (follows n p rest) =
      let parts = Distinct-parts (head ∷ xs) (x ∷ (y ∷ ys)) d in
      let behind =
        All-last_of {P = λ a. Apart a (x ∷ (y ∷ ys))} head xs (All-head parts.2)
          (All-tail parts.2) in
      let apart_y = behind-Apart parts.2 in
      rw (n, Linked-prev before)
        (Linked-join xs y ys
          (Linked-replace_end y xs before parts.0 (update_same s.next _ y _ refl)
            (update_same s.prev y _ _ refl) (λ m h. update_other s.next _ y m h)
            (All-map (λ m h. update_other s.prev y _ m h) (All-tail apart_y)))
          (Linked-agree s _ y ys head rest (update_other s.next _ y y (All-head (All-tail behind)))
            (All-map (λ m h. update_other s.next _ y m h) (All-tail (All-tail behind)))
            (All-map (λ m h. update_other s.prev y _ m h) (own-Apart parts.1))
            (update_other s.prev y _ head (All-head apart_y))))

pub unlink-IsSeqSet :
    {head : ℕ} {s : Links} (x : ℕ) (xs ys : List ℕ)
    → IsSeqSet head (xs ++ (x ∷ ys)) s
    → IsSeqSet head (xs ++ ys) (unlink x s)
unlink-IsSeqSet {head} x xs ys ok =
    let parts = Linked-parts xs x ys ok.ring in
    let nodes = All-append_parts xs (x ∷ ys) ok.nodes_some in
    let apart = Distinct-parts (head ∷ xs) (x ∷ ys) ok.distinct in
    record {
      head_some = ok.head_some;
      nodes_some = All-append xs ys nodes.0 (All-tail nodes.1);
      distinct =
          Distinct-join (head ∷ xs) ys apart.0 (Distinct-tail apart.1)
            (All-map (λ a h. All-tail h) apart.2);
      ring = unlink-Linked xs ys ok.distinct parts.0 parts.1;
    }

-- The node's own fields stay.
pub unlink_next : (x : ℕ) (s : Links) → x ≢ s.prev x → (unlink x s).next x ≡ s.next x
unfolding unlink
unlink_next x s h = update_other s.next (s.prev x) (s.next x) x h

pub unlink_prev : (x : ℕ) (s : Links) → x ≢ s.next x → (unlink x s).prev x ≡ s.prev x
unfolding unlink
unlink_prev x s h = update_other s.prev (s.next x) (s.prev x) x h
