-- ===== src/Subtree/Proof/Tests.antt =====
-- Runs of the merkle proofs.
use go_subtree.Prelude.{
  ◌*◌, ◌^◌, ◌<◌, ◌≤◌, ◌≢◌, ◌≡◌, ◌∙◌, ap, some, refl, arith, List, [], ◌∷◌, length, pos, negsuc,
}
use go_subtree.Errors.{ok, err, panic, no_subtrees_available}
use go_subtree.Hash.{Hash, coinbase_placeholder}
use go_subtree.Hash.Sample.{sample, head}
use go_subtree.Powers.{ceil_log2}
use go_subtree.Powers.Log.{ceil_log2_pow}
use go_subtree.Merkle.{double_sha}
use go_subtree.Merkle.Reference.{IsNonzero, merkle_root, merkle_root_one, merkle_root_step, hashes}
use go_subtree.Merkle.Branch.{fold_branch}
use go_subtree.Subtree.{node_size}
use go_subtree.Subtree.Sample.{
  one_node-Reachable, two_nodes-Reachable, node_a, node_b, node_c, one_node, two_nodes, tree_of,
  sample-NeverZero, node_a-IsNonzero, node_b-IsNonzero, node_c-IsNonzero,
}
use go_subtree.Subtree.Root.{root_hash}
use go_subtree.Subtree.Root.Evolved.{by_calls}
use go_subtree.Subtree.Root.Valid.{root_hash-merkle_root}
use go_subtree.Subtree.Proof.{
  get_merkle_proof, get_merkle_proof_for_coinbase, get_leaf_sibling_hash, leaf_at,
}
use go_subtree.Subtree.Proof.Folds.{get_merkle_proof-merkle_root}
use go_subtree.Subtree.Proof.Coinbase.{get_merkle_proof_for_coinbase-merkle_root}

-- A negative index is not refused.
negative_one : get_merkle_proof sample one_node (negsuc 0) ≡ ok []
unfolding get_merkle_proof
negative_one = refl

negative_two : get_merkle_proof sample two_nodes (negsuc 0) ≡ panic
unfolding get_merkle_proof
negative_two = refl

alone : get_leaf_sibling_hash (node_a ∷ node_b ∷ node_c ∷ []) 2 ≡ ok node_c.hash
unfolding get_leaf_sibling_hash leaf_at
alone = refl

no_subtrees : get_merkle_proof_for_coinbase sample [] ≡ (err no_subtrees_available, [])
unfolding get_merkle_proof_for_coinbase
no_subtrees = refl

get_merkle_proof-merkle_root_example :
    (proof : List Hash) × (get_merkle_proof sample
        (tree_of (node_a ∷ node_b ∷ node_c ∷ []) 12 350)
        (pos 2)
      ≡ ok proof)
    × (length proof ≡ ceil_log2 3)
    × (fold_branch sample node_c.hash 2 proof
        ≡ merkle_root sample (hashes (node_a ∷ node_b ∷ node_c ∷ [])))
get_merkle_proof-merkle_root_example =
    get_merkle_proof-merkle_root sample (tree_of (node_a ∷ node_b ∷ node_c ∷ []) 12 350) 2
      sample-NeverZero (node_a-IsNonzero, (node_b-IsNonzero, (node_c-IsNonzero, tt))) (omega arith)

abbrev two_root : Hash
two_root = merkle_root sample (hashes two_nodes.nodes)

two_root_lem : two_root ≡ double_sha sample node_a.hash node_b.hash
unfolding go_subtree.Merkle.Reference.parents
two_root_lem =
    merkle_root_step sample (hashes two_nodes.nodes) (omega arith)
    ∙ merkle_root_one sample (double_sha sample node_a.hash node_b.hash)

two_root-IsNonzero : IsNonzero two_root
two_root-IsNonzero = rw two_root_lem (sample-NeverZero node_a.hash node_b.hash)

starts_with_one : head (double_sha sample node_a.hash node_b.hash) ≡ 1
unfolding double_sha
starts_with_one = refl

no_placeholder : (h : Hash) → head h < 255 → h ≢ coinbase_placeholder
unfolding coinbase_placeholder
no_placeholder h low e = let same : head h ≡ head coinbase_placeholder = ap head e in omega arith

two_root_low : head two_root < 255
two_root_low = rw (two_root_lem, starts_with_one) (omega arith)

two_has_root : (root_hash sample two_nodes).0 ≡ some two_root
two_has_root =
    root_hash-merkle_root sample (by_calls two_nodes-Reachable) (omega arith) sample-NeverZero
      (node_a-IsNonzero, (node_b-IsNonzero, tt))

one_has_root : (root_hash sample one_node).0 ≡ some node_a.hash
one_has_root =
    root_hash-merkle_root sample (by_calls one_node-Reachable) (omega arith) sample-NeverZero
      (node_a-IsNonzero, tt)
    ∙ ap (λ (h : Hash). some h) (merkle_root_one sample node_a.hash)

top_room : 2 ^ ceil_log2 2 * node_size ≤ 2 ^ 48
top_room = let flat = ceil_log2_pow 1 in rw flat (omega arith)

get_merkle_proof_for_coinbase-merkle_root_example :
    (proof : List Hash) × ((get_merkle_proof_for_coinbase sample (two_nodes ∷ one_node ∷ [])).0
      ≡ ok proof)
    × (fold_branch sample node_a.hash 0 proof ≡ merkle_root sample (two_root ∷ node_a.hash ∷ []))
get_merkle_proof_for_coinbase-merkle_root_example =
    get_merkle_proof_for_coinbase-merkle_root sample two_nodes (one_node ∷ []) two_root
      (node_a.hash ∷ []) (by_calls two_nodes-Reachable) sample-NeverZero (omega arith)
      (node_a-IsNonzero, (node_b-IsNonzero, tt))
      (
        two_has_root,
        no_placeholder two_root two_root_low,
        (one_has_root, no_placeholder node_a.hash (omega arith), tt),
      )
      (two_root-IsNonzero, (node_a-IsNonzero, tt)) top_room
