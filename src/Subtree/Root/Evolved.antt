-- ===== src/Subtree/Root/Evolved.antt =====
-- `ReplaceRootNode` among the calls, and the nodes that all of these leave.
use mathlib.Core.Path.{subst}
use go_subtree.Prelude.{
  ℕ, zero, suc, ◌+◌, ◌<◌, ◌≤◌, le→ltb-false, none, ◌≡◌, sym, ap, ◌∙◌, arith, inl, inr, Bool-cases,
  List, [], ◌∷◌, All, All-concat, ℤ, pos, negsuc, ltb, leb, length, set,
}
use go_subtree.Errors.{ok, ok_if, ok-injective, panic-ne-ok}
use go_subtree.Hash.{Hash, Platform, coinbase_placeholder}
use go_subtree.Node.{Node, IsNode}
use go_subtree.Subtree.{
  Subtree, add64, is_full, push_node, append_node, add_subtree_node, add_subtree_node_without_lock,
  add_node, add_coinbase_node, add_conflicting_node, remove_node_at_index,
}
use go_subtree.Subtree.Totals.{coinbase, coinbase-IsNode, typed-without}
use go_subtree.Subtree.Root.Cache.{root_hash_effect}
use go_subtree.Subtree.Index.Laws.{node_index_effect}
use go_subtree.Subtree.Calls.{
  Call, add_locked, add_unlocked, add, add_coinbase, add_conflicting, remove, ask_root, ask_index,
  Reachable, Reachable-IsConsistent,
}
use go_subtree.Subtree.Root.{root_hash, replace_root_node}

-- The states that are reached when `ReplaceRootNode` is called too.
pub data Evolved (p : Platform) : Subtree → Type 0 where
  by_calls : {t : Subtree} → Reachable p t → Evolved p t
  one_more : {s t : Subtree} → Evolved p s → Call p s t → Evolved p t
  replaced :
      {s t : Subtree} (n : Node)
      → IsNode n
      → Evolved p s
      → (replace_root_node p s n.hash n.fee n.size_in_bytes).1 ≡ t
      → Evolved p t

abbrev pub HasTyped : Subtree → Type 0
HasTyped s = All IsNode s.nodes

All-set : (xs : List Node) (i : ℕ) (n : Node) → IsNode n → All IsNode xs → All IsNode (set xs i n)
All-set [] i n k a = tt
All-set (x ∷ xs) zero n k a = (k, a.1)
All-set (x ∷ xs) (suc i) n k a = (a.0, All-set xs i n k a.1)

module _ (p : Platform) where
  push_node-HasTyped : (s : Subtree) (n : Node) → IsNode n → HasTyped s → HasTyped (push_node p s n)
  unfolding push_node append_node
  push_node-HasTyped s n k a = All-concat IsNode n s.nodes a k

  add_subtree_node-HasTyped :
      (s t : Subtree) (n : Node)
      → IsNode n
      → HasTyped s
      → add_subtree_node p s n ≡ ok t
      → HasTyped t
  unfolding add_subtree_node
  add_subtree_node-HasTyped s t n k a e =
      let (room, rest) = ok_if (is_full s) _ e in
      let (plain, done) = ok_if (p.equal n.hash coinbase_placeholder) _ rest in
      subst HasTyped (ok-injective done) (push_node-HasTyped s n k a)

  add_unlocked-HasTyped :
      (s t : Subtree) (n : Node)
      → IsNode n
      → HasTyped s
      → add_subtree_node_without_lock p s n ≡ ok t
      → HasTyped t
  unfolding add_subtree_node_without_lock
  add_unlocked-HasTyped s t n k a e =
      let (room, done) = ok_if (is_full s) _ e in
      subst HasTyped (ok-injective done) (push_node-HasTyped s n k a)

  add_node-HasTyped :
      (s t : Subtree) (n : Node)
      → IsNode n
      → HasTyped s
      → add_node p s n.hash n.fee n.size_in_bytes ≡ ok t
      → HasTyped t
  unfolding add_node
  add_node-HasTyped s t n k a e = add_subtree_node-HasTyped s t n k a (unfold add_subtree_node in e)

  add_coinbase_node-HasTyped :
      (s t : Subtree) → HasTyped s → add_coinbase_node p s ≡ ok t → HasTyped t
  unfolding add_coinbase_node append_node
  add_coinbase_node-HasTyped s t a e =
      let (bare, done) = ok_if _ _ e in
      subst HasTyped (ok-injective done) (All-concat IsNode coinbase s.nodes a coinbase-IsNode)

  add_conflicting_node_nodes :
      (s t : Subtree) (h : Hash) → add_conflicting_node p s h ≡ ok t → s.nodes ≡ t.nodes
  unfolding add_conflicting_node
  add_conflicting_node_nodes s t h e = ground arith

  remove_node_at_index-HasTyped :
      (s t : Subtree) (i : ℤ) → HasTyped s → remove_node_at_index s i ≡ ok t → HasTyped t
  unfolding remove_node_at_index
  remove_node_at_index-HasTyped s t (negsuc i) a e = absurd (panic-ne-ok e)
  remove_node_at_index-HasTyped s t (pos i) a e =
      let (inside, done) = ok_if (leb (length s.nodes) i) _ e in
      let below : i < length s.nodes = ground arith in
      let next : i + 1 ≡ suc i = omega arith in
      subst HasTyped (ok-injective done) (rw next (typed-without i s.nodes a below))

  root_hash-HasTyped : (s : Subtree) → HasTyped s → HasTyped (root_hash p s).1
  root_hash-HasTyped s a = let (r, e) = root_hash_effect p s in subst HasTyped (sym e) a

  replace_root_node-HasTyped :
      (s : Subtree) (n : Node)
      → IsNode n
      → HasTyped s
      → HasTyped (replace_root_node p s n.hash n.fee n.size_in_bytes).1
  unfolding replace_root_node append_node
  replace_root_node-HasTyped s n k a = elim (Bool-cases (ltb (length s.nodes) 1)) [
    | inl y ↦ rw y (root_hash-HasTyped _ (All-concat IsNode n s.nodes a k))
    | inr z ↦ rw z (root_hash-HasTyped _ (All-set s.nodes 0 n k a))
  ]

  pub replace_root_node_nodes :
      (s : Subtree) (n : Node)
      → 1 ≤ length s.nodes
      → (replace_root_node p s n.hash n.fee n.size_in_bytes).1.nodes ≡ set s.nodes 0 n
  unfolding replace_root_node
  replace_root_node_nodes s n h =
      let placed : Subtree = record s {
        nodes = set s.nodes 0 n;
        root_hash = none;
        size_in_bytes = add64 s.size_in_bytes n.size_in_bytes;
      } in
      let (r, e) = root_hash_effect p placed in
      rw (le→ltb-false (length s.nodes) 1 h) (ap (λ (t : Subtree). t.nodes) e)

  Call-HasTyped : {s t : Subtree} → Call p s t → HasTyped s → HasTyped t
  Call-HasTyped {s} {t} (add_locked n k e) a = add_subtree_node-HasTyped s t n k a e
  Call-HasTyped {s} {t} (add_unlocked n k e) a = add_unlocked-HasTyped s t n k a e
  Call-HasTyped {s} {t} (add n k e) a = add_node-HasTyped s t n k a e
  Call-HasTyped {s} {t} (add_coinbase e) a = add_coinbase_node-HasTyped s t a e
  Call-HasTyped {s} {t} (add_conflicting h e) a =
      subst (All IsNode) (add_conflicting_node_nodes s t h e) a
  Call-HasTyped {s} {t} (remove i e) a = remove_node_at_index-HasTyped s t i a e
  Call-HasTyped {s} (ask_root e) a = subst HasTyped e (root_hash-HasTyped s a)
  Call-HasTyped {s} (ask_index h e) a =
      let (m, f) = node_index_effect s h in subst HasTyped (sym f ∙ e) a

  pub Evolved-HasTyped : {t : Subtree} → Evolved p t → HasTyped t
  Evolved-HasTyped (by_calls r) = (Reachable-IsConsistent r).typed
  Evolved-HasTyped (one_more r c) = Call-HasTyped c (Evolved-HasTyped r)
  Evolved-HasTyped (replaced {s = s} n k r e) =
      subst HasTyped e (replace_root_node-HasTyped s n k (Evolved-HasTyped r))
