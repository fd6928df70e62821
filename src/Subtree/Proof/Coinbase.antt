-- ===== src/Subtree/Proof/Coinbase.antt =====
-- The proof of the coinbase leads to the root over the roots of the subtrees.
use go_subtree.Prelude.{
  ℕ, zero, suc, ◌+◌, ◌*◌, ◌^◌, ◌≤◌, ◌<◌, ◌≡◌, ◌≢◌, refl, sym, ap, ◌∙◌, arith, false, some_inj, none,
  some, List, [], ◌∷◌, ◌++◌, append_assoc, append-nil, All, pos, length, length-append, length-map,
  get_or, le→ltb-false,
}
use go_subtree.Errors.{ok}
use go_subtree.Hash.{Hash, zero_hash, coinbase_placeholder, Platform}
use go_subtree.Node.{Node}
use go_subtree.Powers.{ceil_log2, ceil_power_of_two}
use go_subtree.Powers.Log.{pow_pos, le-ceil_log2, ceil_log2_pow}
use go_subtree.Powers.Laws.{
  ceil_power_of_two_least, next_power_of_two-pow, next_power_of_two-ceil_power_of_two,
}
use go_subtree.Merkle.Reference.{hashes, IsNonzero, NeverZero, merkle_root}
use go_subtree.Merkle.Canonical.{equal-false}
use go_subtree.Merkle.Branch.{fold_branch}
use go_subtree.Subtree.{
  Subtree, node_size, log2_height, new_tree, new_tree_by_leaf_count, is_full, append_node,
  push_node, add_node,
}
use go_subtree.Subtree.Root.{root_hash}
use go_subtree.Subtree.Root.Evolved.{Evolved}
use go_subtree.Subtree.Root.Valid.{root_hash-merkle_root}
use go_subtree.Subtree.Proof.{add_roots, top_proof, get_merkle_proof_for_coinbase}
use go_subtree.Subtree.Proof.Folds.{get_merkle_proof-merkle_root}

module _ (p : Platform) where
  -- The subtrees have these roots, none of which is the coinbase placeholder.
  abbrev pub HaveRoots : List Subtree → List Hash → Type 0
  HaveRoots [] [] = Unit
  HaveRoots (s ∷ ss) (h ∷ hs) =
      ((root_hash p s).0 ≡ some h) × (h ≢ coinbase_placeholder) × HaveRoots ss hs
  HaveRoots _ _ = ⊥

  -- A tree for `size` leaves that holds these hashes.
  record Holds (size : ℕ) (hs : List Hash) (t : Subtree) : Type 0 where
    width : t.tree_size ≡ pos size
    nodes : hashes t.nodes ≡ hs

  log2_height_positive : (n : ℕ) → 0 < n → log2_height p (pos n) ≡ pos (ceil_log2 n)
  unfolding log2_height
  log2_height_positive zero h = absurd (omega arith)
  log2_height_positive (suc n) h = refl

  ceil_power_of_two_pow : (n : ℕ) → 0 < n → ceil_power_of_two (pos n) ≡ 2 ^ ceil_log2 n
  ceil_power_of_two_pow n h =
      sym (next_power_of_two-ceil_power_of_two n h) ∙ next_power_of_two-pow n h

  abbrev empty_top : ℕ → Subtree
  empty_top h = record {
    height = pos h;
    fees = 0;
    size_in_bytes = 0;
    fee_hash = zero_hash;
    nodes = [];
    nodes_cap = 2 ^ h;
    conflicting_nodes = [];
    root_hash = none;
    tree_size = pos (2 ^ h);
    node_index = none;
  }

  new_top :
      (n : ℕ)
      → 0 < n
      → 2 ^ ceil_log2 n * node_size ≤ p.max_alloc
      → (t : Subtree) × (new_tree_by_leaf_count p (pos (ceil_power_of_two (pos n))) ≡ ok t)
        × Holds (2 ^ ceil_log2 n) [] t
  unfolding new_tree_by_leaf_count new_tree
  new_top n h room =
      let size = 2 ^ ceil_log2 n in
      let accepted = (ceil_power_of_two_least n h).0 in
      let high : log2_height p (pos (ceil_power_of_two (pos n))) ≡ pos (ceil_log2 n) =
        rw
          (
            ceil_power_of_two_pow n h,
            log2_height_positive size (pow_pos (ceil_log2 n)),
            ceil_log2_pow (ceil_log2 n),
          )
          refl in
      (
        empty_top (ceil_log2 n),
        rw (accepted, high, le→ltb-false p.max_alloc (size * node_size) room) refl,
        record { width = refl; nodes = refl },
      )

  map-append : (ns : List Node) (n : Node) → hashes (ns ++ n ∷ []) ≡ hashes ns ++ n.hash ∷ []
  map-append [] n = refl
  map-append (m ∷ ms) n = ap (λ (hs : List Hash). m.hash ∷ hs) (map-append ms n)

  add_node-Holds :
      (size : ℕ) (hs : List Hash) (t : Subtree) (h : Hash) (fee bytes : ℕ)
      → Holds size hs t
      → length hs + 1 ≤ size
      → h ≢ coinbase_placeholder
      → (t' : Subtree) × (add_node p t h fee bytes ≡ ok t') × Holds size (hs ++ h ∷ []) t'
  unfolding add_node is_full push_node append_node
  add_node-Holds size hs t h fee bytes x room other =
      let many : length t.nodes ≡ length hs =
        sym (length-map t.nodes (λ (n : Node). n.hash))
        ∙ ap (λ (l : List Hash). length l) x.nodes in
      let free : is_full t ≡ false = rw (x.width, many) (le→ltb-false size (length hs + 1) room) in
      let new : Node = record { hash = h; fee = fee; size_in_bytes = bytes } in
      (
        push_node p t new,
        rw (free, equal-false p h coinbase_placeholder other) refl,
        record {
          width = x.width;
          nodes = map-append t.nodes new ∙ ap (λ (l : List Hash). l ++ h ∷ []) x.nodes;
        },
      )

  add_roots-Holds :
      (ss : List Subtree) (hs done : List Hash) (size : ℕ) (t : Subtree)
      → HaveRoots ss hs
      → Holds size done t
      → length done + length hs ≤ size
      → (t' : Subtree) × (ss' : List Subtree) × (add_roots p t ss ≡ (ok t', ss'))
        × Holds size (done ++ hs) t'
  unfolding add_roots
  add_roots-Holds [] [] done size t roots x room = (t, [], refl, rw append-nil x)
  add_roots-Holds [] (h ∷ hs) done size t roots x room = absurd roots
  add_roots-Holds (s ∷ ss) [] done size t roots x room = absurd roots
  add_roots-Holds (s ∷ ss) (h ∷ hs) done size t (root, other, roots) x room =
      let s' = (root_hash p s).1 in
      let (t1, e, y) =
        add_node-Holds size done t h s'.fees s'.size_in_bytes x (omega arith) other in
      let (t2, ss', f, z) =
        add_roots-Holds ss hs (done ++ h ∷ []) size t1 roots y
          (omega (arith, length-append done (h ∷ []))) in
      (t2, s' ∷ ss', rw (root, add_roots, e, f) refl, rw (← append_assoc done (h ∷ []) hs) z)

  fold_branch-append :
      (a b : List Hash) (h : Hash)
      → fold_branch p h 0 (a ++ b) ≡ fold_branch p (fold_branch p h 0 a) 0 b
  unfolding fold_branch
  fold_branch-append [] b h = refl
  fold_branch-append (x ∷ a) b h = fold_branch-append a b _

  length-roots : (ss : List Subtree) (hs : List Hash) → HaveRoots ss hs → length ss ≡ length hs
  length-roots [] [] roots = refl
  length-roots [] (h ∷ hs) roots = absurd roots
  length-roots (s ∷ ss) [] roots = absurd roots
  length-roots (s ∷ ss) (h ∷ hs) (e, other, roots) = ap suc (length-roots ss hs roots)

  -- For subtrees with roots that are neither the zero hash nor the coinbase placeholder, the first of
  -- them with nodes, none with the zero hash, and come from a tree made by `NewTree` by successful
  -- calls of `AddSubtreeNode`, `AddSubtreeNodeWithoutLock`, `AddNode`, `AddCoinbaseNode`,
  -- `AddConflictingNode`, `RemoveNodeAtIndex`, `RootHash`, `NodeIndex` and `ReplaceRootNode`, where no double SHA-256
  -- is the zero hash and a tree over the roots fits in memory: `GetMerkleProofForCoinbase` returns a
  -- proof that leads from the first hash of the first subtree to the Bitcoin merkle root of the roots.
  pub get_merkle_proof_for_coinbase-merkle_root :
      (s : Subtree) (ss : List Subtree) (r : Hash) (rs : List Hash)
      → Evolved p s
      → NeverZero p
      → 0 < length s.nodes
      → All IsNonzero (hashes s.nodes)
      → HaveRoots (s ∷ ss) (r ∷ rs)
      → All IsNonzero (r ∷ rs)
      → 2 ^ ceil_log2 (length (s ∷ ss)) * node_size ≤ p.max_alloc
      → (proof : List Hash) × ((get_merkle_proof_for_coinbase p (s ∷ ss)).0 ≡ ok proof)
        × (fold_branch p (get_or (hashes s.nodes) 0 zero_hash) 0 proof ≡ merkle_root p (r ∷ rs))
  unfolding get_merkle_proof_for_coinbase top_proof
  get_merkle_proof_for_coinbase-merkle_root s ss r rs reached never positive nz roots nzr room =
      let many : ℕ = length (s ∷ ss) in
      let (proof, e, size, leads) = get_merkle_proof-merkle_root p s 0 never nz positive in
      let (t, made, x) = new_top many (omega arith) room in
      let as_many : suc (length ss) ≡ suc (length rs) = length-roots (s ∷ ss) (r ∷ rs) roots in
      let (t', ss', added, y) =
        add_roots-Holds (s ∷ ss) (r ∷ rs) [] (2 ^ ceil_log2 many) t roots x
          (omega (arith, le-ceil_log2 many)) in
      let full : 0 < length t'.nodes = omega (
        arith,
        length-map t'.nodes (λ (n : Node). n.hash),
        ap (λ (l : List Hash). length l) y.nodes,
      ) in
      let (top, e', size', leads') =
        get_merkle_proof-merkle_root p t' 0 never (rw y.nodes nzr) full in
      let here : merkle_root p (hashes s.nodes) ≡ r =
        some_inj (sym (root_hash-merkle_root p reached positive never nz) ∙ roots.0) in
      let above : fold_branch p r 0 top ≡ merkle_root p (r ∷ rs) = rw y.nodes at leads' in
      (
        proof ++ top,
        rw (e, get_merkle_proof_for_coinbase, made, added, e') refl,
        fold_branch-append proof top (get_or (hashes s.nodes) 0 zero_hash) ∙ rw (leads, here) above,
      )
