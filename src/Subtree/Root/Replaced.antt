-- ===== src/Subtree/Root/Replaced.antt =====
-- `ReplaceRootNode` and `RootHashWithReplaceRootNode`.
use go_subtree.Prelude.{
  ℕ, suc, ◌<◌, ◌≡◌, refl, ap, ◌∙◌, arith, some, List, [], ◌∷◌, ◌++◌, length, set, All, ltb,
  if◌then◌else◌, false, Bool-cases, inl, inr,
}
use go_subtree.Errors.{ok}
use go_subtree.Hash.{Hash, Platform}
use go_subtree.Node.{Node}
use go_subtree.Merkle.Reference.{hashes, IsNonzero, NeverZero, merkle_root}
use go_subtree.Merkle.Canonical.{build_merkle_tree_store-merkle_root}
use go_subtree.Subtree.{Subtree, duplicate, append_node}
use go_subtree.Subtree.Root.{
  store_root, root_hash, replace_root_node, root_hash_with_replace_root_node,
}
use go_subtree.Subtree.Root.Cache.{root_hash_effect}

-- The leaves with `h` in the first place.
abbrev pub with_first : Hash → List Hash → List Hash
with_first h [] = h ∷ []
with_first h (x ∷ xs) = h ∷ xs

-- The list that `ReplaceRootNode` makes.
abbrev placed : Node → List Node → List Node
placed n ns = if ltb (length ns) 1 then ns ++ n ∷ [] else set ns 0 n

more_than_none : (k : ℕ) → ltb (suc k) 1 ≡ false
more_than_none k = ground arith

hashes-placed : (n : Node) (ns : List Node) → hashes (placed n ns) ≡ with_first n.hash (hashes ns)
hashes-placed n [] = refl
hashes-placed n (x ∷ ns) = rw (more_than_none (length ns)) refl

with_first-IsNonzero :
    (h : Hash) (hs : List Hash) → IsNonzero h → All IsNonzero hs → All IsNonzero (with_first h hs)
with_first-IsNonzero h [] x xs = (x, tt)
with_first-IsNonzero h (y ∷ ys) x xs = (x, xs.1)

some_placed : (n : Node) (ns : List Node) → 0 < length (placed n ns)
some_placed n [] = omega arith
some_placed n (x ∷ ns) = rw (more_than_none (length ns)) (omega arith)

module _ (p : Platform) where
  nodes_kept : (x : Subtree) → (root_hash p x).1.nodes ≡ x.nodes
  nodes_kept x = let (r, e) = root_hash_effect p x in rw e refl

  replaced_nodes :
      (s : Subtree) (h : Hash) (fee size : ℕ)
      → (replace_root_node p s h fee size).1.nodes
        ≡ placed (record { hash = h; fee = fee; size_in_bytes = size }) s.nodes
  unfolding replace_root_node append_node
  replaced_nodes s h fee size = elim (Bool-cases (ltb (length s.nodes) 1)) [
    | inl y ↦ nodes_kept _ ∙ rw y refl
    | inr n ↦ nodes_kept _ ∙ rw n refl
  ]

  -- For a subtree that is not nil, `RootHashWithReplaceRootNode` returns the Bitcoin merkle root of
  -- its hashes with the given one in the first place, if no leaf and no double SHA-256 is the zero
  -- hash.
  pub root_hash_with_replace_root_node-merkle_root :
      (s : Subtree) (h : Hash) (fee size : ℕ)
      → NeverZero p
      → IsNonzero h
      → All IsNonzero (hashes s.nodes)
      → root_hash_with_replace_root_node p (some s) h fee size
        ≡ ok (merkle_root p (with_first h (hashes s.nodes)))
  unfolding root_hash_with_replace_root_node duplicate
  root_hash_with_replace_root_node-merkle_root s h fee size never nz nzs =
      let node : Node = record { hash = h; fee = fee; size_in_bytes = size } in
      let all : All IsNonzero (hashes (placed node s.nodes)) =
        rw (hashes-placed node s.nodes) (with_first-IsNonzero h (hashes s.nodes) nz nzs) in
      ap (λ (ns : List Node). ok (store_root p ns)) (replaced_nodes (duplicate s) h fee size)
      ∙ ap (λ (r : Hash). ok r)
          (build_merkle_tree_store-merkle_root p (placed node s.nodes) (some_placed node s.nodes)
            never all)
      ∙ ap (λ (hs : List Hash). ok (merkle_root p hs)) (hashes-placed node s.nodes)
