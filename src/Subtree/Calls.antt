-- ===== src/Subtree/Calls.antt =====
-- Eight methods by which a client takes a subtree from one state to the next, in any order:
-- `AddSubtreeNode`, `AddSubtreeNodeWithoutLock`, `AddNode`, `AddCoinbaseNode`, `AddConflictingNode`,
-- `RemoveNodeAtIndex`, `RootHash` and `NodeIndex`. `ReplaceRootNode` is not among them, since it does
-- not keep the totals (Subtree/Root/Evolved adds it); nor are `Deserialize` and its kin, which take
-- every field from the input, nor `ReleaseNodes` and `Close`, after which the nodes are gone.
use go_subtree.Prelude.{◌≡◌, ℤ}
use mathlib.Core.Path.{subst}
use go_subtree.Errors.{ok}
use go_subtree.Hash.{Hash, Platform}
use go_subtree.Node.{Node, IsNode}
use go_subtree.Subtree.{
  Subtree, new_tree, add_subtree_node, add_subtree_node_without_lock, add_node, add_coinbase_node,
  add_conflicting_node, remove_node_at_index,
}
use go_subtree.Subtree.Root.{root_hash}
use go_subtree.Subtree.Root.Cache.{root_hash-IsConsistent}
use go_subtree.Subtree.Index.Laws.{node_index-IsConsistent}
use go_subtree.Subtree.Index.{node_index}
use go_subtree.Subtree.Totals.{
  IsConsistent, add_subtree_node-IsConsistent, add_subtree_node_without_lock-IsConsistent,
  add_node-IsConsistent, add_coinbase_node-IsConsistent, add_conflicting_node-IsConsistent,
  remove_node_at_index-IsConsistent, new_tree-IsConsistent,
}

-- A call of one of these methods that succeeds.
pub data Call (p : Platform) : Subtree → Subtree → Type 0 where
  add_locked : {s t : Subtree} (n : Node) → IsNode n → add_subtree_node p s n ≡ ok t → Call p s t
  add_unlocked :
      {s t : Subtree} (n : Node)
      → IsNode n
      → add_subtree_node_without_lock p s n ≡ ok t
      → Call p s t
  add :
      {s t : Subtree} (n : Node)
      → IsNode n
      → add_node p s n.hash n.fee n.size_in_bytes ≡ ok t
      → Call p s t
  add_coinbase : {s t : Subtree} → add_coinbase_node p s ≡ ok t → Call p s t
  add_conflicting : {s t : Subtree} (h : Hash) → add_conflicting_node p s h ≡ ok t → Call p s t
  remove : {s t : Subtree} (i : ℤ) → remove_node_at_index s i ≡ ok t → Call p s t
  ask_root : {s t : Subtree} → (root_hash p s).1 ≡ t → Call p s t
  ask_index : {s t : Subtree} (h : Hash) → (node_index s h).1 ≡ t → Call p s t

-- The states that calls reach from a new tree.
pub data Reachable (p : Platform) : Subtree → Type 0 where
  made : {t : Subtree} (height : ℤ) → new_tree p height ≡ ok t → Reachable p t
  called : {s t : Subtree} → Reachable p s → Call p s t → Reachable p t

Call-IsConsistent : {p : Platform} {s t : Subtree} → Call p s t → IsConsistent s → IsConsistent t
Call-IsConsistent {p} {s} {t} (add_locked n k e) c = add_subtree_node-IsConsistent p s t n k c e
Call-IsConsistent {p} {s} {t} (add_unlocked n k e) c =
    add_subtree_node_without_lock-IsConsistent p s t n k c e
Call-IsConsistent {p} {s} {t} (add n k e) c = add_node-IsConsistent p s t n k c e
Call-IsConsistent {p} {s} {t} (add_coinbase e) c = add_coinbase_node-IsConsistent p s t c e
Call-IsConsistent {p} {s} {t} (add_conflicting h e) c =
    add_conflicting_node-IsConsistent p s t h c e
Call-IsConsistent {p} {s} {t} (remove i e) c = remove_node_at_index-IsConsistent s t i c e
Call-IsConsistent {p} {s} (ask_root e) c = subst IsConsistent e (root_hash-IsConsistent p s c)
Call-IsConsistent {s = s} (ask_index h e) c = subst IsConsistent e (node_index-IsConsistent s h c)

-- On a tree made by `NewTree`, after any successful calls of `AddSubtreeNode`,
-- `AddSubtreeNodeWithoutLock`, `AddNode`, `AddCoinbaseNode`, `AddConflictingNode`,
-- `RemoveNodeAtIndex`, `RootHash` and `NodeIndex`, in any order: the totals of fees and sizes are
-- those of the nodes, modulo 2 ^ 64, there are no more nodes than the tree's size and the slice's
-- capacity, the size of the tree is positive, and the nodes have values that their Go types can hold.
pub Reachable-IsConsistent : {p : Platform} {t : Subtree} → Reachable p t → IsConsistent t
Reachable-IsConsistent {p} {t} (made h e) = new_tree-IsConsistent p h t e
Reachable-IsConsistent (called r c) = Call-IsConsistent c (Reachable-IsConsistent r)
