-- ===== src/Subtree/Conflicting.antt =====
-- The list that `AddConflictingNode` keeps.
use mathlib.Core.Path.{subst}
use mathlib.Core.Bool.{false≢true}
use go_subtree.Prelude.{
  ◌≡◌, ◌≢◌, refl, sym, ap, ◌∙◌, Bool-cases, inl, inr, List, [], ◌∷◌, ℤ, pos, negsuc, false, All,
  IsDistinct, IsDistinct-concat, not, length, leb, ltb, ◌*◌, ◌^◌,
}
use go_subtree.Errors.{ok, ok_if, ok-injective, panic-ne-ok, err-ne-ok}
use go_subtree.Hash.{Hash, Platform, coinbase_placeholder}
use go_subtree.Node.{Node}
use go_subtree.Subtree.{
  Subtree, new_tree, is_full, push_node, append_node, add_subtree_node,
  add_subtree_node_without_lock, add_node, add_coinbase_node, has_hash, is_listed,
  add_conflicting_node, remove_node_at_index,
}
use go_subtree.Subtree.Root.Cache.{root_hash_effect}
use go_subtree.Subtree.Index.Laws.{node_index_effect}
use go_subtree.Subtree.Calls.{
  Call, add_locked, add_unlocked, add, add_coinbase, add_conflicting, remove, ask_root, ask_index,
  Reachable, made, called,
}

module _ (p : Platform) where
  not_listed : (h : Hash) (hs : List Hash) → is_listed p h hs ≡ false → All (λ k. k ≢ h) hs
  unfolding is_listed
  not_listed h [] e = tt
  not_listed h (k ∷ hs) e = elim (Bool-cases (p.equal k h)) [
    | inl y ↦ absurd (false≢true (sym e ∙ rw y refl))
    | inr n ↦ (λ same. false≢true (sym n ∙ (p.equal_iff k h).1 same), not_listed h hs (rw n at e))
  ]

  add_conflicting_node-IsDistinct :
      (s t : Subtree) (h : Hash)
      → add_conflicting_node p s h ≡ ok t
      → IsDistinct s.conflicting_nodes
      → IsDistinct t.conflicting_nodes
  unfolding add_conflicting_node
  add_conflicting_node-IsDistinct s t h e d =
      let (here, rest) = ok_if (not (has_hash p h s.nodes)) _ e in
      elim (Bool-cases (is_listed p h s.conflicting_nodes)) [
        | inl y ↦
            subst (λ (x : Subtree). IsDistinct x.conflicting_nodes) (ok-injective (rw y at rest)) d
        | inr n ↦
            subst (λ (x : Subtree). IsDistinct x.conflicting_nodes) (ok-injective (rw n at rest))
              (IsDistinct-concat h s.conflicting_nodes (not_listed h s.conflicting_nodes n) d)
      ]

  add_subtree_node_kept :
      (s t : Subtree) (n : Node)
      → add_subtree_node p s n ≡ ok t
      → s.conflicting_nodes ≡ t.conflicting_nodes
  unfolding add_subtree_node push_node append_node
  add_subtree_node_kept s t n e =
      let (room, rest) = ok_if (is_full s) _ e in
      let (plain, done) = ok_if (p.equal n.hash coinbase_placeholder) _ rest in
      ap (λ (x : Subtree). x.conflicting_nodes) (ok-injective done)

  add_unlocked_kept :
      (s t : Subtree) (n : Node)
      → add_subtree_node_without_lock p s n ≡ ok t
      → s.conflicting_nodes ≡ t.conflicting_nodes
  unfolding add_subtree_node_without_lock push_node append_node
  add_unlocked_kept s t n e =
      let (room, done) = ok_if (is_full s) _ e in
      ap (λ (x : Subtree). x.conflicting_nodes) (ok-injective done)

  add_node_kept :
      (s t : Subtree) (n : Node)
      → add_node p s n.hash n.fee n.size_in_bytes ≡ ok t
      → s.conflicting_nodes ≡ t.conflicting_nodes
  unfolding add_node
  add_node_kept s t n e = add_subtree_node_kept s t n (unfold add_subtree_node in e)

  add_coinbase_node_kept :
      (s t : Subtree) → add_coinbase_node p s ≡ ok t → s.conflicting_nodes ≡ t.conflicting_nodes
  unfolding add_coinbase_node append_node
  add_coinbase_node_kept s t e =
      let (bare, done) = ok_if _ _ e in
      ap (λ (x : Subtree). x.conflicting_nodes) (ok-injective done)

  remove_node_at_index_kept :
      (s t : Subtree) (i : ℤ)
      → remove_node_at_index s i ≡ ok t
      → s.conflicting_nodes ≡ t.conflicting_nodes
  unfolding remove_node_at_index
  remove_node_at_index_kept s t (negsuc i) e = absurd (panic-ne-ok e)
  remove_node_at_index_kept s t (pos i) e =
      let (inside, done) = ok_if (leb (length s.nodes) i) _ e in
      ap (λ (x : Subtree). x.conflicting_nodes) (ok-injective done)

  new_tree-IsDistinct :
      (t : Subtree) (height : ℤ) → new_tree p height ≡ ok t → IsDistinct t.conflicting_nodes
  unfolding new_tree
  new_tree-IsDistinct t (negsuc h) e = absurd (err-ne-ok e)
  new_tree-IsDistinct t (pos h) e = elim (Bool-cases (ltb p.max_alloc (2 ^ h * 48))) [
    | inl y ↦ absurd (panic-ne-ok (rw y at e))
    | inr n ↦ subst (λ (x : Subtree). IsDistinct x.conflicting_nodes) (ok-injective (rw n at e)) tt
  ]

  Call-IsDistinct :
      {s t : Subtree} → Call p s t → IsDistinct s.conflicting_nodes → IsDistinct t.conflicting_nodes
  Call-IsDistinct {s} {t} (add_locked n k e) d = subst IsDistinct (add_subtree_node_kept s t n e) d
  Call-IsDistinct {s} {t} (add_unlocked n k e) d = subst IsDistinct (add_unlocked_kept s t n e) d
  Call-IsDistinct {s} {t} (add n k e) d = subst IsDistinct (add_node_kept s t n e) d
  Call-IsDistinct {s} {t} (add_coinbase e) d = subst IsDistinct (add_coinbase_node_kept s t e) d
  Call-IsDistinct {s} {t} (add_conflicting h e) d = add_conflicting_node-IsDistinct s t h e d
  Call-IsDistinct {s} {t} (remove i e) d = subst IsDistinct (remove_node_at_index_kept s t i e) d
  Call-IsDistinct {s} {t} (ask_root e) d =
      let (r, f) = root_hash_effect p s in
      subst (λ (x : Subtree). IsDistinct x.conflicting_nodes) (sym f ∙ e) d
  Call-IsDistinct {s} {t} (ask_index h e) d =
      let (m, f) = node_index_effect s h in
      subst (λ (x : Subtree). IsDistinct x.conflicting_nodes) (sym f ∙ e) d

  -- On a tree made by `NewTree`, after any successful calls of `AddSubtreeNode`,
  -- `AddSubtreeNodeWithoutLock`, `AddNode`, `AddCoinbaseNode`, `AddConflictingNode`,
  -- `RemoveNodeAtIndex`, `RootHash` and `NodeIndex`, in any order, no hash stands twice among the
  -- conflicting nodes.
  pub Reachable-IsDistinct : {t : Subtree} → Reachable p t → IsDistinct t.conflicting_nodes
  Reachable-IsDistinct {t} (made h e) = new_tree-IsDistinct t h e
  Reachable-IsDistinct (called r c) = Call-IsDistinct c (Reachable-IsDistinct r)
