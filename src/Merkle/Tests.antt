-- ===== src/Merkle/Tests.antt =====
-- Runs of merkle_tree.go on three leaves.
use go_subtree.Prelude.{◌-◌, ◌≡◌, refl, arith, List, [], ◌∷◌, length}
use go_subtree.Hash.{zero_hash, hash_eq}
use go_subtree.Hash.Sample.{sample}
use go_subtree.Node.{Node}
use go_subtree.Powers.{ceil_log2}
use go_subtree.Subtree.Sample.{
  node_a, node_b, node_c, node_a-IsNonzero, node_b-IsNonzero, node_c-IsNonzero, sample-NeverZero,
}
use go_subtree.Merkle.{hash_at, double_sha, build_merkle_tree_store, calc_merkle}
use go_subtree.Merkle.Leaves.{leaves}
use go_subtree.Merkle.Levels.{levels, build_merkle_tree_store-levels}
use go_subtree.Merkle.Reference.{merkle_root, hashes}
use go_subtree.Merkle.Canonical.{build_merkle_tree_store-merkle_root}

abbrev three : List Node
three = node_a ∷ node_b ∷ node_c ∷ []

no_right_child :
    calc_merkle sample node_c.hash zero_hash ≡ double_sha sample node_c.hash node_c.hash
unfolding calc_merkle hash_eq zero_hash
no_right_child = refl

build_merkle_tree_store-merkle_root_example :
    hash_at
      (build_merkle_tree_store sample three)
      (length (build_merkle_tree_store sample three) - 1)
    ≡ merkle_root sample (hashes three)
build_merkle_tree_store-merkle_root_example =
    build_merkle_tree_store-merkle_root sample three (omega arith) sample-NeverZero
      (node_a-IsNonzero, (node_b-IsNonzero, (node_c-IsNonzero, tt)))

build_merkle_tree_store-levels_example :
    build_merkle_tree_store sample three ≡ levels sample (ceil_log2 (length three)) (leaves three)
build_merkle_tree_store-levels_example = build_merkle_tree_store-levels sample three (omega arith)
