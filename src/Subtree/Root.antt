-- ===== src/Subtree/Root.antt =====
-- `RootHash`, `RootHashPadded`, `ReplaceRootNode` and `RootHashWithReplaceRootNode` of subtree.go.
-- A method that fills the cache of the root returns the subtree too.
pub mod Cache
pub mod Evolved
pub mod Valid
pub mod Padded
pub mod Replaced
use go_subtree.Prelude.{
  ℕ, zero, suc, ◌+◌, ◌-◌, Option, none, some, [], ◌∷◌, List, ℤ, pos, negsuc, ltz, ltb, ◌==◌,
  if◌then◌else◌, length, set,
}
use go_subtree.Errors.{Result, ok, err, panic, ◌>>=◌, subtree_nil, target_height_too_small}
use go_subtree.Hash.{Hash, Platform}
use go_subtree.Node.{Node}
use go_subtree.Powers.{bit_len}
use go_subtree.Merkle.{double_sha, hash_at, build_merkle_tree_store}
use go_subtree.Subtree.{Subtree, add64, duplicate, append_node}

module _ (p : Platform) where
  -- `(*store)[len(*store)-1]`.
  abbrev pub store_root : List Node → Hash
  store_root nodes = let store = build_merkle_tree_store p nodes in hash_at store (length store - 1)

  -- On a receiver that is not nil.
  pub root_hash : Subtree → Option Hash × Subtree
  root_hash s = elim s.root_hash [
    | some h ↦ (some h, s)
    | none ↦
        if length s.nodes == 0
        then (none, s)
        else let root = p.new_hash (store_root s.nodes) in (root, record s { root_hash = root })
  ]

  -- `for range n`: the hash of the root with itself.
  lift_root : ℕ → Hash → Hash
  lift_root zero root = root
  lift_root (suc n) root = lift_root n (double_sha p root root)

  -- The panic is that of a nil pointer, where `RootHash` has returned nil. A negative target is below
  -- every height.
  padded_root : ℕ → ℕ → Option Hash × Subtree → Result (Option Hash × Subtree)
  padded_root target height (none, s) = panic
  padded_root target height (some root, s) = ok (some (lift_root (target - height) root), s)

  pub root_hash_padded : Option Subtree → ℤ → Result (Option Hash × Subtree)
  root_hash_padded none target = err subtree_nil
  root_hash_padded (some s) (negsuc t) =
      if length s.nodes == 0 then ok (none, s) else err target_height_too_small
  root_hash_padded (some s) (pos t) =
      let height = bit_len (length s.nodes - 1) in
      if length s.nodes == 0
      then ok (none, s)
      else if ltb t height
      then err target_height_too_small
      else padded_root t height (root_hash s)

  pub replace_root_node : Subtree → Hash → ℕ → ℕ → Option Hash × Subtree
  replace_root_node s hash fee size =
      let node : Node = record { hash = hash; fee = fee; size_in_bytes = size } in
      let placed =
        if ltb (length s.nodes) 1
        then append_node p s node
        else record s { nodes = set s.nodes 0 node } in
      root_hash (record placed { root_hash = none; size_in_bytes = add64 s.size_in_bytes size })

  -- The clone's store is built a second time; the receiver is left alone.
  pub root_hash_with_replace_root_node : Option Subtree → Hash → ℕ → ℕ → Result Hash
  root_hash_with_replace_root_node none hash fee size = err subtree_nil
  root_hash_with_replace_root_node (some s) hash fee size =
      ok (store_root (replace_root_node (duplicate s) hash fee size).1.nodes)
