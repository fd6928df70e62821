-- ===== src/Subtree/Root/Valid.antt =====
-- The cache of the root after the calls of `Evolved`, and what `RootHash` returns then.
use mathlib.Core.Path.{subst}
use go_subtree.Prelude.{
  ℕ, set, ◌<◌, ◌≡◌, refl, sym, ◌∙◌, arith, inl, inr, Bool-cases, ltb, none, some, Option-cases,
  List, [], ◌∷◌, length, All, ℤ, pos, negsuc, length-map, ne→==-false,
}
use go_subtree.Errors.{ok}
use go_subtree.Hash.{Hash, Platform}
use go_subtree.Node.{Node, IsNode}
use go_subtree.Merkle.Reference.{hashes, IsNonzero, NeverZero, merkle_root, length-merkle_root}
use go_subtree.Merkle.Canonical.{build_merkle_tree_store-merkle_root}
use go_subtree.Subtree.{
  Subtree, add64, new_tree, push_node, append_node, add_subtree_node, add_subtree_node_without_lock,
  add_node, add_coinbase_node, add_conflicting_node, remove_node_at_index,
}
use go_subtree.Subtree.Index.Laws.{node_index_effect}
use go_subtree.Subtree.Calls.{
  Call, add_locked, add_unlocked, add, add_coinbase, add_conflicting, remove, ask_root, ask_index,
  Reachable, made, called,
}
use go_subtree.Subtree.Root.{root_hash, store_root, replace_root_node}
use go_subtree.Subtree.Root.Evolved.{Evolved, by_calls, one_more, replaced, Evolved-HasTyped}

module _ (p : Platform) where
  -- What the cache holds is what a call without it would compute.
  abbrev IsCached : Subtree → Type 0
  IsCached s =
      (h : Hash)
      → s.root_hash ≡ some h
      → (0 < length s.nodes) × (p.new_hash (store_root p s.nodes) ≡ some h)

  IsCached-reset : (s : Subtree) → s.root_hash ≡ none → IsCached s
  IsCached-reset s e h f = cc

  new_tree_reset : (z : ℤ) (t : Subtree) → new_tree p z ≡ ok t → t.root_hash ≡ none
  unfolding new_tree
  new_tree_reset (negsuc z) t e = cc
  new_tree_reset (pos z) t e = ground arith

  add_subtree_node_reset :
      (s t : Subtree) (n : Node) → add_subtree_node p s n ≡ ok t → t.root_hash ≡ none
  unfolding add_subtree_node push_node
  add_subtree_node_reset s t n e = ground arith

  add_unlocked_reset :
      (s t : Subtree) (n : Node) → add_subtree_node_without_lock p s n ≡ ok t → t.root_hash ≡ none
  unfolding add_subtree_node_without_lock push_node
  add_unlocked_reset s t n e = ground arith

  add_node_reset :
      (s t : Subtree) (n : Node)
      → add_node p s n.hash n.fee n.size_in_bytes ≡ ok t
      → t.root_hash ≡ none
  unfolding add_node push_node
  add_node_reset s t n e = ground arith

  add_coinbase_node_reset : (s t : Subtree) → add_coinbase_node p s ≡ ok t → t.root_hash ≡ none
  unfolding add_coinbase_node append_node
  add_coinbase_node_reset s t e = ground arith

  remove_node_at_index_reset :
      (s t : Subtree) (i : ℤ) → remove_node_at_index s i ≡ ok t → t.root_hash ≡ none
  unfolding remove_node_at_index
  remove_node_at_index_reset s t (pos i) e = ground arith
  remove_node_at_index_reset s t (negsuc i) e = cc

  add_conflicting_node_keeps :
      (s t : Subtree) (h : Hash)
      → add_conflicting_node p s h ≡ ok t
      → (s.root_hash ≡ t.root_hash) × (s.nodes ≡ t.nodes)
  unfolding add_conflicting_node
  add_conflicting_node_keeps s t h e = ground arith

  root_hash-IsCached : (s : Subtree) → IsCached s → IsCached (root_hash p s).1
  unfolding root_hash
  root_hash-IsCached s c h e = ground (arith, c h)

  root_hash_value :
      (s : Subtree)
      → IsCached s
      → 0 < length s.nodes
      → (root_hash p s).0 ≡ p.new_hash (store_root p s.nodes)
  unfolding root_hash
  root_hash_value s c h = elim (Option-cases s.root_hash) [
    | inl e ↦ rw (e, ne→==-false (length s.nodes) 0 (λ z. omega arith))
    | inr (r, e) ↦ rw e (sym (c r e).1)
  ]

  Call-IsCached : {s t : Subtree} → Call p s t → IsCached s → IsCached t
  Call-IsCached {s} {t} (add_locked n k e) c = IsCached-reset t (add_subtree_node_reset s t n e)
  Call-IsCached {s} {t} (add_unlocked n k e) c = IsCached-reset t (add_unlocked_reset s t n e)
  Call-IsCached {s} {t} (add n k e) c = IsCached-reset t (add_node_reset s t n e)
  Call-IsCached {s} {t} (add_coinbase e) c = IsCached-reset t (add_coinbase_node_reset s t e)
  Call-IsCached {s} {t} (add_conflicting h e) c =
      let (kept, same) = add_conflicting_node_keeps s t h e in λ r f. rw (← same) (c r (kept ∙ f))
  Call-IsCached {s} {t} (remove i e) c = IsCached-reset t (remove_node_at_index_reset s t i e)
  Call-IsCached {s} {t} (ask_root e) c = subst IsCached e (root_hash-IsCached s c)
  Call-IsCached {s} {t} (ask_index h e) c =
      let (m, f) = node_index_effect s h in subst IsCached (sym f ∙ e) c

  Reachable-IsCached : {t : Subtree} → Reachable p t → IsCached t
  Reachable-IsCached {t} (made z e) = IsCached-reset t (new_tree_reset z t e)
  Reachable-IsCached {t} (called r c) = Call-IsCached c (Reachable-IsCached r)

  dropped-IsCached :
      (u : Subtree) (z : ℕ)
      → IsCached (root_hash p (record u { root_hash = none; size_in_bytes = z })).1
  dropped-IsCached u z =
      let w : Subtree = record u { root_hash = none; size_in_bytes = z } in
      root_hash-IsCached w (IsCached-reset w refl)

  -- `ReplaceRootNode` drops the cache before it asks for the root.
  replace_root_node-IsCached :
      (s : Subtree) (h : Hash) (fee size : ℕ) → IsCached (replace_root_node p s h fee size).1
  unfolding replace_root_node append_node
  replace_root_node-IsCached s h fee size =
      let node : Node = record { hash = h; fee = fee; size_in_bytes = size } in
      elim (Bool-cases (ltb (length s.nodes) 1)) [
        | inl y ↦ rw y (dropped-IsCached (append_node p s node) (add64 s.size_in_bytes size))
        | inr n ↦ rw n (
            dropped-IsCached (record s { nodes = set s.nodes 0 node }) (add64 s.size_in_bytes size))
      ]

  Evolved-IsCached : {t : Subtree} → Evolved p t → IsCached t
  Evolved-IsCached (by_calls r) = Reachable-IsCached r
  Evolved-IsCached (one_more r c) = Call-IsCached c (Evolved-IsCached r)
  Evolved-IsCached (replaced {s = s} n k r e) =
      subst IsCached e (replace_root_node-IsCached s n.hash n.fee n.size_in_bytes)

  hash_sizes : (nodes : List Node) → All IsNode nodes → All (λ h. length h ≡ 32) (hashes nodes)
  hash_sizes [] t = tt
  hash_sizes (n ∷ ns) t = (t.0.hash.0, hash_sizes ns t.1)

  -- On a tree made by `NewTree`, after any successful calls of `AddSubtreeNode`,
  -- `AddSubtreeNodeWithoutLock`, `AddNode`, `AddCoinbaseNode`, `AddConflictingNode`,
  -- `RemoveNodeAtIndex`, `RootHash`, `NodeIndex` and `ReplaceRootNode`, in any order: if it has nodes,
  -- `RootHash` returns the Bitcoin merkle root of their hashes, cached or not, if no leaf and no
  -- double SHA-256 is the zero hash.
  pub root_hash-merkle_root :
      {t : Subtree}
      → Evolved p t
      → 0 < length t.nodes
      → NeverZero p
      → All IsNonzero (hashes t.nodes)
      → (root_hash p t).0 ≡ some (merkle_root p (hashes t.nodes))
  root_hash-merkle_root {t} r h never nz =
      let root = build_merkle_tree_store-merkle_root p t.nodes h never nz in
      let same = length-map t.nodes (λ (n : Node). n.hash) in
      let sizes = hash_sizes t.nodes (Evolved-HasTyped p r) in
      root_hash_value t (Evolved-IsCached r) h
      ∙ rw root (p.new_hash_lem _ (length-merkle_root p (hashes t.nodes) (omega arith) sizes))
