-- ===== src/SeqSet/Tests.antt =====
-- A set with its head at 100, into which the nodes 1 and 2 are put.
use snmalloc.Base.{ℕ, ◌≡◌, refl, arith, Bool, true, false, ◌==◌, List, [], ◌∷◌}
use snmalloc.Base.{some, all_nil, all_cons}
use snmalloc.SeqSet.{
  Links, update, invariant, unlink, link, remove, insert, is_empty, pop_front, pop, iterate,
}
use snmalloc.SeqSet.Linked.{Apart, distinct_nil, distinct_cons, ends}
use snmalloc.SeqSet.Taking.{IsSeqSet}
use snmalloc.SeqSet.Laws.{remove_lem, insert_lem, pop_lem}
use snmalloc.SeqSet.Iterating.{visit, visited, kept, links_after, iterate_lem}

abbrev empty_set : Links
empty_set = record { next = λ n. 100; prev = λ n. 100 }

empty_set-IsSeqSet : IsSeqSet 100 [] empty_set
empty_set-IsSeqSet = record {
  head_some = λ h. absurd (omega arith);
  nodes_some = all_nil;
  distinct = distinct_cons all_nil distinct_nil;
  ring = ends refl refl;
}

abbrev one_node : Links
one_node = link 100 1 empty_set

abbrev two_nodes : Links
two_nodes = link 100 2 one_node

one_node-IsSeqSet : IsSeqSet 100 (1 ∷ []) one_node
one_node-IsSeqSet =
    (insert_lem 100 1 [] empty_set empty_set-IsSeqSet (λ h. absurd (omega arith))
      (all_cons (λ h. absurd (omega arith)) all_nil)).1

fresh_2 : Apart 2 (100 ∷ (1 ∷ []))
fresh_2 = all_cons (λ h. absurd (omega arith)) (all_cons (λ h. absurd (omega arith)) all_nil)

two_nodes-IsSeqSet : IsSeqSet 100 (2 ∷ (1 ∷ [])) two_nodes
two_nodes-IsSeqSet =
    (insert_lem 100 2 (1 ∷ []) one_node one_node-IsSeqSet (λ h. absurd (omega arith)) fresh_2).1

-- `is_fifo` takes the node that was inserted last.
newest : (pop 100 true two_nodes) ≡ some (2, unlink 2 two_nodes)
unfolding pop pop_front is_empty remove unlink invariant update link
newest = refl

insert_lem_example :
    (insert 100 2 one_node ≡ some (link 100 2 one_node))
    × IsSeqSet 100 (2 ∷ (1 ∷ [])) (link 100 2 one_node)
insert_lem_example =
    insert_lem 100 2 (1 ∷ []) one_node one_node-IsSeqSet (λ h. absurd (omega arith)) fresh_2

remove_lem_example :
    (remove 1 two_nodes ≡ some (unlink 1 two_nodes)) × IsSeqSet 100 (2 ∷ []) (unlink 1 two_nodes)
remove_lem_example = remove_lem 100 1 (2 ∷ []) [] two_nodes two_nodes-IsSeqSet

pop_lem_example :
    (pop 100 true two_nodes ≡ some (2, unlink 2 two_nodes))
    × IsSeqSet 100 (1 ∷ []) (unlink 2 two_nodes)
    × (pop 100 false two_nodes ≡ some (1, unlink 1 two_nodes))
    × IsSeqSet 100 (2 ∷ []) (unlink 1 two_nodes)
pop_lem_example = pop_lem 100 2 (1 ∷ []) 1 (2 ∷ []) two_nodes two_nodes-IsSeqSet refl

abbrev collect : ℕ → List ℕ → List ℕ
collect x xs = x ∷ xs

abbrev is_2 : ℕ → Bool
is_2 x = x == 2

iterate_lem_example :
    (iterate 100 (visit is_2 collect) 3 ([], two_nodes)
      ≡ some (
        visited is_2 collect (2 ∷ (1 ∷ [])) [],
        links_after is_2 collect (2 ∷ (1 ∷ [])) two_nodes,
      ))
    × IsSeqSet 100
        (kept is_2 collect (2 ∷ (1 ∷ [])))
        (links_after is_2 collect (2 ∷ (1 ∷ [])) two_nodes)
iterate_lem_example =
    iterate_lem is_2 collect 100 3 (2 ∷ (1 ∷ [])) [] two_nodes (omega arith) two_nodes-IsSeqSet
