-- ===== src/Subtree/Sample.antt =====
-- Trees of height two for the tests, and how calls reach them.
use go_subtree.Prelude.{ℕ, ◌≡◌, refl, arith, List, [], ◌∷◌, replicate, none, pos}
use go_subtree.Errors.{ok}
use go_subtree.Hash.{hash_eq, coinbase_placeholder, zero_hash}
use go_subtree.Hash.Sample.{sample, replicate-IsByte, nonzero}
use go_subtree.Node.{Node, IsNode}
use go_subtree.Merkle.{double_sha}
use go_subtree.Merkle.Reference.{NeverZero, IsNonzero}
use go_subtree.Subtree.{
  Subtree, new_tree, is_full, append_node, push_node, add_node, add_conflicting_node, has_hash,
  is_listed,
}
use go_subtree.Subtree.Calls.{add_conflicting, add, Reachable, made, called}

abbrev pub node_a : Node
node_a = record { hash = replicate 32 7; fee = 5; size_in_bytes = 100 }

abbrev pub node_b : Node
node_b = record { hash = replicate 32 9; fee = 6; size_in_bytes = 200 }

abbrev pub node_c : Node
node_c = record { hash = replicate 32 11; fee = 1; size_in_bytes = 50 }

abbrev pub tree_of : List Node → ℕ → ℕ → Subtree
tree_of nodes fees size = record {
  height = pos 2;
  fees = fees;
  size_in_bytes = size;
  fee_hash = zero_hash;
  nodes = nodes;
  nodes_cap = 4;
  conflicting_nodes = [];
  root_hash = none;
  tree_size = pos 4;
  node_index = none;
}

abbrev pub one_node : Subtree
one_node = tree_of (node_a ∷ []) 5 100

abbrev pub two_nodes : Subtree
two_nodes = tree_of (node_a ∷ node_b ∷ []) 11 300

pub node_a-IsNode : IsNode node_a
node_a-IsNode = record {
  hash = (refl, replicate-IsByte 32 7 (omega arith));
  fee = omega arith;
  size_in_bytes = omega arith;
}

pub node_b-IsNode : IsNode node_b
node_b-IsNode = record {
  hash = (refl, replicate-IsByte 32 9 (omega arith));
  fee = omega arith;
  size_in_bytes = omega arith;
}

pub node_c-IsNode : IsNode node_c
node_c-IsNode = record {
  hash = (refl, replicate-IsByte 32 11 (omega arith));
  fee = omega arith;
  size_in_bytes = omega arith;
}

new_tree_run : new_tree sample (pos 2) ≡ ok (tree_of [] 0 0)
unfolding new_tree
new_tree_run = refl

add_a : add_node sample (tree_of [] 0 0) node_a.hash node_a.fee node_a.size_in_bytes ≡ ok one_node
unfolding add_node is_full push_node append_node hash_eq coinbase_placeholder
add_a = refl

pub add_b : add_node sample one_node node_b.hash node_b.fee node_b.size_in_bytes ≡ ok two_nodes
unfolding add_node is_full push_node append_node hash_eq coinbase_placeholder
add_b = refl

pub one_node-Reachable : Reachable sample one_node
one_node-Reachable = called (made (pos 2) new_tree_run) (add node_a node_a-IsNode add_a)

pub two_nodes-Reachable : Reachable sample two_nodes
two_nodes-Reachable = called one_node-Reachable (add node_b node_b-IsNode add_b)

-- The second node is marked as conflicting twice.
abbrev pub one_conflict : Subtree
one_conflict = record two_nodes { conflicting_nodes = node_b.hash ∷ [] }

mark_b : add_conflicting_node sample two_nodes node_b.hash ≡ ok one_conflict
unfolding add_conflicting_node has_hash is_listed hash_eq
mark_b = refl

mark_b_again : add_conflicting_node sample one_conflict node_b.hash ≡ ok one_conflict
unfolding add_conflicting_node has_hash is_listed hash_eq
mark_b_again = refl

pub one_conflict-Reachable : Reachable sample one_conflict
one_conflict-Reachable =
    called (called two_nodes-Reachable (add_conflicting node_b.hash mark_b))
      (add_conflicting node_b.hash mark_b_again)

pub sample-NeverZero : NeverZero sample
unfolding double_sha
sample-NeverZero left right = nonzero (double_sha sample left right) (omega arith)

pub node_a-IsNonzero : IsNonzero node_a.hash
node_a-IsNonzero = nonzero node_a.hash (omega arith)

pub node_b-IsNonzero : IsNonzero node_b.hash
node_b-IsNonzero = nonzero node_b.hash (omega arith)

pub node_c-IsNonzero : IsNonzero node_c.hash
node_c-IsNonzero = nonzero node_c.hash (omega arith)
