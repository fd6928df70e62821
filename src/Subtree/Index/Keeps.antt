-- ===== src/Subtree/Index/Keeps.antt =====
-- Which of the calls of Subtree/Calls keep the index map right.
use mathlib.Core.Path.{subst}
use go_subtree.Prelude.{
  ◌≡◌, sym, ◌∙◌, arith, inl, inr, none, some_inj, none-ne-some, Option-cases, [], ◌∷◌, ◌++◌,
}
use go_subtree.Errors.{ok, ok_if, ok-injective}
use go_subtree.Hash.{Hash, Platform, coinbase_placeholder}
use go_subtree.Node.{Node}
use go_subtree.Subtree.{
  Subtree, is_full, push_node, append_node, add_subtree_node, add_subtree_node_without_lock,
  add_node, add_coinbase_node, add_conflicting_node,
}
use go_subtree.Subtree.Root.Cache.{root_hash_effect}
use go_subtree.Subtree.Calls.{
  Call, add_locked, add_unlocked, add, add_coinbase, add_conflicting, remove, ask_root, ask_index,
}
use go_subtree.Subtree.Index.{node_index}
use go_subtree.Subtree.Index.Laws.{Indexes, Indexes-insert, IsIndexed, ensure_index-Indexes}

module _ (p : Platform) where
  push_node-IsIndexed : (s : Subtree) (n : Node) → IsIndexed s → IsIndexed (push_node p s n)
  unfolding push_node append_node
  push_node-IsIndexed s n x m e = elim (Option-cases s.node_index) [
    | inl f ↦ absurd (none-ne-some (rw f at e))
    | inr (k, f) ↦
        subst (Indexes (s.nodes ++ n ∷ [])) (some_inj (rw f at e))
          (Indexes-insert s.nodes n k (x k f))
  ]

  add_subtree_node-IsIndexed :
      (s t : Subtree) (n : Node) → add_subtree_node p s n ≡ ok t → IsIndexed s → IsIndexed t
  unfolding add_subtree_node
  add_subtree_node-IsIndexed s t n e x =
      let (room, rest) = ok_if (is_full s) _ e in
      let (plain, done) = ok_if (p.equal n.hash coinbase_placeholder) _ rest in
      subst IsIndexed (ok-injective done) (push_node-IsIndexed s n x)

  add_unlocked-IsIndexed :
      (s t : Subtree) (n : Node)
      → add_subtree_node_without_lock p s n ≡ ok t
      → IsIndexed s
      → IsIndexed t
  unfolding add_subtree_node_without_lock
  add_unlocked-IsIndexed s t n e x =
      let (room, done) = ok_if (is_full s) _ e in
      subst IsIndexed (ok-injective done) (push_node-IsIndexed s n x)

  add_node-IsIndexed :
      (s t : Subtree) (n : Node)
      → add_node p s n.hash n.fee n.size_in_bytes ≡ ok t
      → IsIndexed s
      → IsIndexed t
  unfolding add_node
  add_node-IsIndexed s t n e x = add_subtree_node-IsIndexed s t n (unfold add_subtree_node in e) x

  add_coinbase_node_index :
      (s t : Subtree) → add_coinbase_node p s ≡ ok t → s.node_index ≡ t.node_index
  unfolding add_coinbase_node append_node
  add_coinbase_node_index s t e = ground arith

  add_conflicting_node_same :
      (s t : Subtree) (h : Hash)
      → add_conflicting_node p s h ≡ ok t
      → (s.node_index ≡ t.node_index) × (s.nodes ≡ t.nodes)
  unfolding add_conflicting_node
  add_conflicting_node_same s t h e = ground arith

  node_index-IsIndexed : (s : Subtree) (h : Hash) → IsIndexed s → IsIndexed (node_index s h).1
  unfolding node_index
  node_index-IsIndexed s h x m e =
      let (k, f, same, idx) = ensure_index-Indexes s x in
      rw same (subst (Indexes s.nodes) (some_inj (sym f ∙ e)) idx)

  -- A removal, and the coinbase node where there is a map already, do not keep the map.
  abbrev pub KeepsIndex : {s t : Subtree} → Call p s t → Type 0
  KeepsIndex (remove i e) = ⊥
  KeepsIndex {s} (add_coinbase e) = s.node_index ≡ none
  KeepsIndex _ = Unit

  -- Every successful call of `AddSubtreeNode`, `AddSubtreeNodeWithoutLock`, `AddNode`,
  -- `AddConflictingNode`, `RootHash` and `NodeIndex`, and of `AddCoinbaseNode` in a subtree that has
  -- no index map, keeps the map right: if there is one, it holds an index of each node's hash and
  -- nothing else.
  pub Call-IsIndexed : {s t : Subtree} (c : Call p s t) → KeepsIndex c → IsIndexed s → IsIndexed t
  Call-IsIndexed {s} {t} (add_locked n k e) keeps x = add_subtree_node-IsIndexed s t n e x
  Call-IsIndexed {s} {t} (add_unlocked n k e) keeps x = add_unlocked-IsIndexed s t n e x
  Call-IsIndexed {s} {t} (add n k e) keeps x = add_node-IsIndexed s t n e x
  Call-IsIndexed {s} {t} (add_coinbase e) keeps x =
      λ m f. absurd (none-ne-some (sym keeps ∙ add_coinbase_node_index s t e ∙ f))
  Call-IsIndexed {s} {t} (add_conflicting h e) keeps x =
      let (kept, same) = add_conflicting_node_same s t h e in
      λ m f. subst (λ ns. Indexes ns m) same (x m (kept ∙ f))
  Call-IsIndexed {s} {t} (remove i e) keeps x = absurd keeps
  Call-IsIndexed {s} {t} (ask_root e) keeps x =
      let (r, f) = root_hash_effect p s in subst IsIndexed (sym f ∙ e) x
  Call-IsIndexed {s} {t} (ask_index h e) keeps x = subst IsIndexed e (node_index-IsIndexed s h x)
