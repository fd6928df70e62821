-- ===== src/Subtree/Proof.antt =====
-- `GetMerkleProof` of subtree.go and `GetMerkleProofForCoinbase` of merkle_tree.go, on subtrees that
-- are not nil.
pub mod Folds
pub mod Coinbase
mod Tests
use go_subtree.Prelude.{
  ℕ, zero, suc, ◌+◌, ◌-◌, ◌*◌, ◌/◌, ◌%◌, ◌^◌, Bool, true, false, not, ◌&&◌, Option, none, some,
  List, [], ◌∷◌, ◌++◌, ℤ, pos, negsuc, ltb, leb, ◌==◌, if◌then◌else◌, length, get_elem?,
}
use go_subtree.Errors.{Result, ok, err, panic, ◌>>=◌, index_out_of_range, no_subtrees_available}
use go_subtree.Hash.{Hash, zero_hash, Platform}
use go_subtree.Node.{Node}
use go_subtree.Powers.{ceil_log2, ceil_power_of_two}
use go_subtree.Merkle.{build_merkle_tree_store}
use go_subtree.Subtree.{Subtree, new_tree_by_leaf_count, add_node}
use go_subtree.Subtree.Root.{root_hash}

-- `nodes[i].Hash`.
pub leaf_at : List Node → ℕ → Result Hash
leaf_at nodes i = elim (get_elem? nodes i) [ none ↦ panic | some n ↦ ok n.hash ]

-- `getLeafSiblingHash`, at an index that is not negative.
pub get_leaf_sibling_hash : List Node → ℕ → Result Hash
get_leaf_sibling_hash nodes i =
    if i % 2 == 0
    then (if leb (length nodes) (i + 1) then leaf_at nodes i else leaf_at nodes (i + 1))
    else leaf_at nodes (i - 1)

-- `(*merkleTree)[i]`.
pub cell_at : List Hash → ℕ → Result Hash
cell_at tree i = elim (get_elem? tree i) [ none ↦ panic | some h ↦ ok h ]

module _ (p : Platform) where
  -- `calculateTreePosition`: the place beside `tree_pos`, if that is not the zero hash.
  pub beside : ℕ → ℕ → Result Hash → Result ℕ
  beside tree_pos place (ok h) = ok (if not (p.equal h zero_hash) then place else tree_pos)
  beside tree_pos place (err e) = err e
  beside tree_pos place panic = panic

  pub calculate_tree_position : List Hash → ℕ → ℕ → ℕ → Result ℕ
  calculate_tree_position tree tree_index_pos tree_index total =
      let tree_pos = tree_index_pos + tree_index in
      if tree_pos % 2 == 0
      then (if ltb (tree_pos + 1) total
          then beside tree_pos (tree_pos + 1) (cell_at tree (tree_pos + 1))
          else ok tree_pos)
      else beside tree_pos (tree_pos - 1) (cell_at tree (tree_pos - 1))

  -- One round above the leaves.
  pub sibling_above : List Hash → ℕ → ℕ → ℕ → Result Hash
  sibling_above tree tree_index_pos tree_index total = do
    place ← calculate_tree_position tree tree_index_pos tree_index total
    cell_at tree place

  -- The rounds above the leaves, with `i` from the first argument down to 1.
  pub proof_above : ℕ → List Hash → ℕ → ℕ → ℕ → Result (List Hash)
  proof_above zero tree tree_index_pos tree_index total = ok []
  proof_above (suc i) tree tree_index_pos tree_index total = do
    h ← sibling_above tree tree_index_pos tree_index total
    rest ← proof_above i tree (tree_index_pos + 2 ^ suc i) (tree_index / 2) total
    ok (h ∷ rest)

  -- The loop, from the height of the tree on.
  pub proof_from : ℕ → List Node → ℕ → Result (List Hash)
  proof_from zero nodes index = ok []
  proof_from (suc h) nodes index = do
    let tree = build_merkle_tree_store p nodes
    leaf ← get_leaf_sibling_hash nodes index
    rest ← proof_above h tree 0 (index / 2) (2 ^ suc h + length tree)
    ok (leaf ∷ rest)

  -- The capacity that `make` gets for a tree without nodes.
  pub proof_of_none : ℤ → Result (List Hash)
  proof_of_none (negsuc c) = panic
  proof_of_none (pos c) = if ltb p.max_alloc (c * 8) then panic else ok []

  -- A negative index passes the guard, and panics as soon as a leaf is read.
  pub get_merkle_proof : Subtree → ℤ → Result (List Hash)
  get_merkle_proof s (negsuc i) =
      if length s.nodes == 0
      then proof_of_none p.int_of_neg_inf
      else if length s.nodes == 1
      then ok []
      else panic
  get_merkle_proof s (pos i) =
      if leb (length s.nodes) i
      then err index_out_of_range
      else proof_from (ceil_log2 (length s.nodes)) s.nodes i

  -- The loop that adds the roots of the subtrees to the top tree; each caches its root.
  pub add_roots : Subtree → List Subtree → Result Subtree × List Subtree
  add_roots top [] = (ok top, [])
  add_roots top (s ∷ ss) =
      let (root, s') = root_hash p s in
      elim root [
        | none ↦ (panic, s' ∷ ss)
        | some h ↦ elim (add_node p top h s'.fees s'.size_in_bytes) [
          | err e ↦ (err e, s' ∷ ss)
          | panic ↦ (panic, s' ∷ ss)
          | ok top' ↦ let (r, ss') = add_roots top' ss in (r, s' ∷ ss')
        ]
      ]

  -- After the proof in the first subtree; the subtrees are returned too.
  pub top_proof : List Hash → Result Subtree × List Subtree → Result (List Hash) × List Subtree
  top_proof proof (ok top, ss) = (do rest ← get_merkle_proof top (pos 0); ok (proof ++ rest), ss)
  top_proof proof (err e, ss) = (err e, ss)
  top_proof proof (panic, ss) = (panic, ss)

  pub get_merkle_proof_for_coinbase : List Subtree → Result (List Hash) × List Subtree
  get_merkle_proof_for_coinbase [] = (err no_subtrees_available, [])
  get_merkle_proof_for_coinbase (s ∷ ss) = elim (get_merkle_proof s (pos 0)) [
    | err e ↦ (err e, s ∷ ss)
    | panic ↦ (panic, s ∷ ss)
    | ok proof ↦ elim (new_tree_by_leaf_count p (pos (ceil_power_of_two (pos (length (s ∷ ss)))))) [
      | err e ↦ (err e, s ∷ ss)
      | panic ↦ (panic, s ∷ ss)
      | ok top ↦ top_proof proof (add_roots top (s ∷ ss))
    ]
  ]
