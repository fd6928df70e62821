-- ===== src/Subtree/Tests.antt =====
-- Runs of the methods of `Subtree`.
use go_subtree.Prelude.{
  ◌∙◌, set, IsDistinct, ℕ, ◌≡◌, ◌≢◌, refl, ap, arith, some, none-ne-some, List, [], ◌∷◌, ◌++◌,
  length, get_elem?, pos, negsuc, true,
}
use go_subtree.Errors.{ok, err, panic, height_negative}
use go_subtree.Hash.{Hash, hash_eq}
use go_subtree.Hash.Sample.{sample, head}
use go_subtree.Node.{Node}
use go_subtree.Merkle.{double_sha}
use go_subtree.Merkle.Reference.{merkle_root, hashes}
use go_subtree.Subtree.{
  Subtree, IndexMap, lookup, delete, remove_node_at_index, duplicate, is_complete, new_tree,
}
use go_subtree.Subtree.Conflicting.{Reachable-IsDistinct}
use go_subtree.Subtree.Sample.{
  one_conflict, one_conflict-Reachable, node_a, node_b, node_c, node_c-IsNode, node_c-IsNonzero,
  tree_of, one_node, two_nodes, one_node-Reachable, two_nodes-Reachable, add_b, node_b-IsNode,
  sample-NeverZero, node_a-IsNonzero, node_b-IsNonzero,
}
use go_subtree.Subtree.Totals.{IsConsistent}
use go_subtree.Subtree.Calls.{ask_root, add, Reachable-IsConsistent}
use go_subtree.Subtree.Root.{
  replace_root_node, root_hash_with_replace_root_node, root_hash, root_hash_padded,
}
use go_subtree.Subtree.Root.Replaced.{with_first, root_hash_with_replace_root_node-merkle_root}
use go_subtree.Subtree.Root.Evolved.{Evolved, by_calls, one_more, replaced, replace_root_node_nodes}
use go_subtree.Subtree.Root.Cache.{root_hash_effect}
use go_subtree.Subtree.Root.Valid.{root_hash-merkle_root}
use go_subtree.Subtree.Root.Padded.{root_hash_padded_compose}
use go_subtree.Subtree.Index.{get_node, node_index}
use go_subtree.Subtree.Index.Laws.{IsIndexed, Finds, get_node-Finds}
use go_subtree.Subtree.Index.Keeps.{Call-IsIndexed}
use go_subtree.Subtree.Index.Stale.{remove_node_at_index_stale}

negative_height : new_tree sample (negsuc 0) ≡ err height_negative
unfolding new_tree
negative_height = refl

-- A copy of a tree that has room is complete.
copy_is_complete : is_complete (duplicate one_node) ≡ true
unfolding is_complete duplicate
copy_is_complete = refl

-- The first node replaced, after a call that has filled the cache.
abbrev asked : Subtree
asked = (root_hash sample two_nodes).1

abbrev first_replaced : Subtree
first_replaced = (replace_root_node sample asked node_c.hash node_c.fee node_c.size_in_bytes).1

asked_nodes : asked.nodes ≡ two_nodes.nodes
asked_nodes = let (r, e) = root_hash_effect sample two_nodes in ap (λ (t : Subtree). t.nodes) e

first_replaced_nodes : first_replaced.nodes ≡ node_c ∷ node_b ∷ []
first_replaced_nodes =
    replace_root_node_nodes sample asked node_c (rw asked_nodes (omega arith))
    ∙ ap (λ (ns : List Node). set ns 0 node_c) asked_nodes

first_replaced-Evolved : Evolved sample first_replaced
first_replaced-Evolved =
    replaced node_c node_c-IsNode (one_more (by_calls two_nodes-Reachable) (ask_root refl)) refl

root_hash-merkle_root_example :
    (root_hash sample first_replaced).0 ≡ some (merkle_root sample (hashes first_replaced.nodes))
root_hash-merkle_root_example =
    root_hash-merkle_root sample first_replaced-Evolved (rw first_replaced_nodes (omega arith))
      sample-NeverZero (rw first_replaced_nodes (node_c-IsNonzero, (node_b-IsNonzero, tt)))

root_hash_padded_compose_example :
    (left right : Hash) × ((root_hash sample two_nodes).0 ≡ some left)
    × (root_hash_padded sample (some one_node) (pos 1)
        ≡ ok (some right, (root_hash sample one_node).1))
    × (merkle_root sample (hashes two_nodes.nodes ++ hashes one_node.nodes)
        ≡ double_sha sample left right)
root_hash_padded_compose_example =
    root_hash_padded_compose sample 1 (by_calls two_nodes-Reachable) (by_calls one_node-Reachable)
      refl (omega arith) (omega arith) sample-NeverZero (node_a-IsNonzero, (node_b-IsNonzero, tt))
      (node_a-IsNonzero, tt)

Reachable-IsConsistent_example : IsConsistent two_nodes
Reachable-IsConsistent_example = Reachable-IsConsistent two_nodes-Reachable

unindexed : (nodes : List Node) (fees size : ℕ) → IsIndexed (tree_of nodes fees size)
unindexed nodes fees size m e = absurd (none-ne-some e)

get_node-Finds_example : Finds two_nodes.nodes node_b.hash (get_node two_nodes node_b.hash).0
get_node-Finds_example = get_node-Finds two_nodes node_b.hash (unindexed two_nodes.nodes 11 300)

Call-IsIndexed_example : IsIndexed two_nodes
Call-IsIndexed_example =
    Call-IsIndexed sample (add node_b node_b-IsNode add_b) tt (unindexed one_node.nodes 5 100)

abbrev both : IndexMap
both = (node_a.hash, 0) ∷ (node_b.hash, 1) ∷ []

abbrev indexed : Subtree
indexed = record two_nodes { node_index = some both }

abbrev left_over : Subtree
left_over = record (tree_of (node_b ∷ []) 6 200) { node_index = some ((node_b.hash, 1) ∷ []) }

found_second : lookup node_b.hash both ≡ some 1
unfolding lookup hash_eq
found_second = refl

removed_first : remove_node_at_index indexed (pos 0) ≡ ok left_over
unfolding remove_node_at_index delete hash_eq
removed_first = refl

differ : node_a.hash ≢ node_b.hash
differ e = let same : head node_a.hash ≡ head node_b.hash = ap head e in omega arith

remove_node_at_index_stale_example :
    ((node_index left_over node_b.hash).0 ≡ pos 1)
    × (get_elem? left_over.nodes 0 ≡ get_elem? indexed.nodes 1)
    × (length indexed.nodes ≡ 2 → (get_node left_over node_b.hash).0 ≡ panic)
remove_node_at_index_stale_example =
    remove_node_at_index_stale indexed left_over both 0 0 node_b.hash refl found_second
      (omega arith) differ removed_first

root_hash_with_replace_root_node-merkle_root_example :
    root_hash_with_replace_root_node sample (some two_nodes) node_c.hash 1 50
    ≡ ok (merkle_root sample (with_first node_c.hash (hashes two_nodes.nodes)))
root_hash_with_replace_root_node-merkle_root_example =
    root_hash_with_replace_root_node-merkle_root sample two_nodes node_c.hash 1 50 sample-NeverZero
      node_c-IsNonzero (node_a-IsNonzero, (node_b-IsNonzero, tt))

Reachable-IsDistinct_example : IsDistinct one_conflict.conflicting_nodes
Reachable-IsDistinct_example = Reachable-IsDistinct sample one_conflict-Reachable
