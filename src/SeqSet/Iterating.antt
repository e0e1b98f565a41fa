-- ===== src/SeqSet/Iterating.antt =====
-- src/snmalloc/ds_aal/seqset.h: `iterate`, with a function that may remove the node it is given.
use mathlib.Core.List.{append_assoc}
use snmalloc.Base.{ℕ, zero, suc, ◌<◌, ◌≡◌, ◌≢◌, refl, inl, inr, arith, Bool, true, false, ◌==◌}
use snmalloc.Base.{List, [], ◌∷◌, ◌++◌, length, Bool-cases, ◌∙◌, ap}
use snmalloc.Base.{Option, some, if◌then◌else◌}
use snmalloc.SeqSet.{Links, invariant, unlink, remove, iterate, iterate_from, ◌>>=◌}
use snmalloc.SeqSet.Linked.{
  Linked-parts, first_of, Linked-next, Linked-first_prev, All-first_of, Distinct-parts,
}
use snmalloc.SeqSet.Taking.{IsSeqSet, IsSeqSet-invariants, All-head, All-tail}
use snmalloc.SeqSet.Laws.{remove_lem}

module _ {S : Type 0} (p : ℕ → Bool) (g : ℕ → S → S) where
  -- A function that works on each node by `g`, and removes those that pass the test.
  unfoldable pub visit : ℕ → S × Links → Option (S × Links)
  visit x (a, s) = if p x then remove x s >>= (λ s'. some (g x a, s')) else some (g x a, s)

  -- What is left of the nodes, and the links afterwards.
  unfoldable pub kept : List ℕ → List ℕ
  kept [] = []
  kept (x ∷ xs) = let rest = kept xs in if p x then rest else x ∷ rest

  unfoldable pub links_after : List ℕ → Links → Links
  links_after [] s = s
  links_after (x ∷ xs) s = links_after xs (if p x then unlink x s else s)

  unfoldable pub visited : List ℕ → S → S
  visited [] a = a
  visited (x ∷ xs) a = visited xs (g x a)

  module _ (head : ℕ) where
    curr_lem :
        (x : ℕ) (ys xs : List ℕ) (s : Links)
        → IsSeqSet head (ys ++ (x ∷ xs)) s
        → (x ≢ head) × (s.next x ≡ first_of head xs) × (s.prev (s.next x) ≡ x)
    curr_lem x ys xs s ok =
        let parts = Linked-parts ys x xs ok.ring in
        let next = Linked-next parts.1 in
        let apart = Distinct-parts (head ∷ ys) (x ∷ xs) ok.distinct in
        (All-head (All-head apart.2), next, ap s.prev next ∙ Linked-first_prev parts.1)

    iterate_from_lem :
        (fuel : ℕ) (ys xs : List ℕ) (a : S) (s : Links)
        → length xs < fuel
        → IsSeqSet head (ys ++ xs) s
        → (iterate_from head visit fuel (first_of head xs) (a, s)
            ≡ some (visited xs a, links_after xs s))
          × IsSeqSet head (ys ++ kept xs) (links_after xs s)
    unfolding iterate_from visit kept links_after visited
    iterate_from_lem zero ys xs a s lt ok = absurd (omega arith)
    iterate_from_lem (suc fuel) ys [] a s lt ok =
        let here : (head == head) ≡ true = ground arith in (rw (here, iterate_from) refl, ok)
    iterate_from_lem (suc fuel) ys (x ∷ xs) a s lt ok =
        let curr = curr_lem x ys xs s ok in
        let not_end : (x == head) ≡ false = ground (arith, curr.0) in
        let no_cycle : (s.prev (first_of head xs) == x) ≡ true =
          ground (arith, ap s.prev curr.1, curr.2) in
        elim (Bool-cases (p x)) [
          | inl goes ↦
              let removed = remove_lem head x ys xs s ok in
              let rest = iterate_from_lem fuel ys xs (g x a) (unlink x s) (omega arith) removed.1 in
              rw (not_end, iterate_from, curr.1, no_cycle, goes, removed.0) rest
          | inr stays ↦
              let rest =
                iterate_from_lem fuel (ys ++ (x ∷ [])) xs (g x a) s (omega arith)
                  (rw (append_assoc ys (x ∷ []) xs) ok) in
              rw (not_end, iterate_from, curr.1, no_cycle, stays)
                (rest.0, rw (append_assoc ys (x ∷ []) (kept xs)) at rest.1)
        ]

    -- Iterating over a set with enough fuel for its nodes: no assertion and no check fails, each node
    -- is visited once, in order, also when nodes are removed on the way, and the set has exactly the
    -- nodes that were not, in their order.
    pub iterate_lem :
        (fuel : ℕ) (xs : List ℕ) (a : S) (s : Links)
        → length xs < fuel
        → IsSeqSet head xs s
        → (iterate head visit fuel (a, s) ≡ some (visited xs a, links_after xs s))
          × IsSeqSet head (kept xs) (links_after xs s)
    unfolding iterate
    iterate_lem fuel xs a s lt ok =
        let holds = IsSeqSet-invariants ok in
        let first =
          All-first_of {P = λ m. invariant m s ≡ true} head xs (All-head holds) (All-tail holds) in
        rw (Linked-next ok.ring, first) (iterate_from_lem fuel [] xs a s lt ok)
