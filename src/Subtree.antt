-- ===== src/Subtree.antt =====
-- The state and the operations of `Subtree` in subtree.go, but for the serialization. A method that
-- changes its receiver returns the new one; where it returns an error it has changed nothing. The
-- mutex is left out: each method is one step. `closer` stands in `Mmap`, with the calls
-- that map files.
pub mod Totals
pub mod Index
pub mod Calls
pub mod Root
pub mod Conflicting
pub mod Proof
pub mod Sample
mod Tests
use go_subtree.Prelude.{
  ℕ, zero, suc, ◌+◌, ◌-◌, ◌*◌, ◌%◌, ◌^◌, Bool, true, false, not, Option, none, some, List, [], ◌∷◌,
  ◌++◌, ℤ, pos, negsuc, ltz, ltb, leb, ◌==◌, if◌then◌else◌, length, get_or, set, take, drop,
}
use go_subtree.Errors.{
  Result, ok, err, panic, ◌>>=◌, index_out_of_range, height_negative, not_power_of_two,
  subtree_full, subtree_nil, subtree_not_empty, coinbase_placeholder_misuse,
  conflicting_node_not_in_subtree, node_not_found, target_height_too_small,
}
use go_subtree.Hash.{Hash, zero_hash, coinbase_placeholder, hash_eq, Platform}
use go_subtree.Node.{Node, u64}
use go_subtree.Powers.{bit_len, ceil_log2, is_power_of_two}
use go_subtree.Merkle.{empty_node, double_sha, hash_at, build_merkle_tree_store}

-- `map[chainhash.Hash]int`.
abbrev pub IndexMap : Type 0
IndexMap = List (Hash × ℕ)

-- `nodes_cap` is the capacity of the slice `Nodes`; `none` stands for a nil pointer or map.
pub record Subtree : Type 0 where
  pub height : ℤ
  pub fees : ℕ
  pub size_in_bytes : ℕ
  pub fee_hash : Hash
  pub nodes : List Node
  pub nodes_cap : ℕ
  pub conflicting_nodes : List Hash
  pub root_hash : Option Hash
  pub tree_size : ℤ
  pub node_index : Option IndexMap

-- `a + b` and `a - b` on uint64.
abbrev pub add64 : ℕ → ℕ → ℕ
add64 a b = (a + b) % u64

abbrev pub sub64 : ℕ → ℕ → ℕ
sub64 a b = (a + u64 - b) % u64

pub lookup : Hash → IndexMap → Option ℕ
lookup h [] = none
lookup h ((k, v) ∷ m) = if hash_eq k h then some v else lookup h m

-- `delete(m, h)`.
pub delete : Hash → IndexMap → IndexMap
delete h [] = []
delete h ((k, v) ∷ m) = let rest = delete h m in if hash_eq k h then rest else (k, v) ∷ rest

-- `m[h] = v`.
pub insert : Hash → ℕ → IndexMap → IndexMap
insert h v m = (h, v) ∷ delete h m

-- The bytes of a `Node` in memory, `nodeSize`.
abbrev pub node_size : ℕ
node_size = 48

module _ (p : Platform) where
  -- `int(math.Ceil(math.Log2(float64(n))))`.
  unfoldable pub log2_height : ℤ → ℤ
  log2_height (pos zero) = p.int_of_neg_inf
  log2_height (pos (suc n)) = pos (ceil_log2 (suc n))
  log2_height (negsuc n) = p.int_of_nan

  unfoldable pub new_tree : ℤ → Result Subtree
  new_tree (negsuc h) = err height_negative
  new_tree (pos h) =
      let tree_size = 2 ^ h in
      if ltb p.max_alloc (tree_size * node_size)
      then panic
      else ok (record {
        height = pos h;
        fees = 0;
        size_in_bytes = 0;
        fee_hash = zero_hash;
        nodes = [];
        nodes_cap = tree_size;
        conflicting_nodes = [];
        root_hash = none;
        tree_size = pos tree_size;
        node_index = none;
      })

  unfoldable pub new_tree_by_leaf_count : ℤ → Result Subtree
  new_tree_by_leaf_count max_leaves =
      if not (is_power_of_two max_leaves)
      then err not_power_of_two
      else new_tree (log2_height max_leaves)

  pub new_incomplete_tree_by_leaf_count : ℤ → Result Subtree
  new_incomplete_tree_by_leaf_count max_leaves = new_tree (log2_height max_leaves)

-- The slices are made anew with the lengths of the old ones; the index map is not copied.
pub duplicate : Subtree → Subtree
duplicate s = record s { nodes_cap = length s.nodes; node_index = none }

unfoldable pub size : Subtree → ℕ
size s = s.nodes_cap

pub count_nodes : Subtree → ℕ
count_nodes s = length s.nodes

pub is_complete : Subtree → Bool
is_complete s = length s.nodes == s.nodes_cap

-- `(len(st.Nodes) + 1) > st.treeSize`.
pub is_full : Subtree → Bool
is_full s = ltz s.tree_size (pos (length s.nodes + 1))

module _ (p : Platform) where
  -- `st.Nodes = append(st.Nodes, node)`.
  pub append_node : Subtree → Node → Subtree
  append_node s node = record s {
    nodes = s.nodes ++ node ∷ [];
    nodes_cap =
        if ltb (length s.nodes) s.nodes_cap
        then s.nodes_cap
        else p.grow s.nodes_cap (length s.nodes + 1);
  }

  -- The statements that the three methods for adding a node share: the node is appended, the root
  -- hash reset, the totals raised, and the index map extended if there is one.
  pub push_node : Subtree → Node → Subtree
  push_node s node = record (append_node s node) {
    root_hash = none;
    fees = add64 s.fees node.fee;
    size_in_bytes = add64 s.size_in_bytes node.size_in_bytes;
    node_index = elim s.node_index [
      | none ↦ none
      | some m ↦ some (insert node.hash (length s.nodes) m)
    ];
  }

  pub add_subtree_node : Subtree → Node → Result Subtree
  add_subtree_node s node =
      if is_full s
      then err subtree_full
      else if p.equal node.hash coinbase_placeholder
      then err coinbase_placeholder_misuse
      else ok (push_node s node)

  pub add_subtree_node_without_lock : Subtree → Node → Result Subtree
  add_subtree_node_without_lock s node =
      if is_full s then err subtree_full else ok (push_node s node)

  pub add_node : Subtree → Hash → ℕ → ℕ → Result Subtree
  add_node s node fee size_in_bytes =
      if is_full s
      then err subtree_full
      else if p.equal node coinbase_placeholder
      then err coinbase_placeholder_misuse
      else ok (push_node s (record { hash = node; fee = fee; size_in_bytes = size_in_bytes }))

  pub add_coinbase_node : Subtree → Result Subtree
  add_coinbase_node s =
      if not (length s.nodes == 0)
      then err subtree_not_empty
      else ok
          (record (append_node s
            (record { hash = coinbase_placeholder; fee = 0; size_in_bytes = 0 })) {
              root_hash = none;
              fees = 0;
              size_in_bytes = 0;
            })

  -- The two loops of `AddConflictingNode`.
  pub has_hash : Hash → List Node → Bool
  has_hash h [] = false
  has_hash h (n ∷ ns) = if p.equal n.hash h then true else has_hash h ns

  pub is_listed : Hash → List Hash → Bool
  is_listed h [] = false
  is_listed h (c ∷ cs) = if p.equal c h then true else is_listed h cs

  pub add_conflicting_node : Subtree → Hash → Result Subtree
  add_conflicting_node s h =
      if not (has_hash h s.nodes)
      then err conflicting_node_not_in_subtree
      else if is_listed h s.conflicting_nodes
      then ok s
      else ok (record s { conflicting_nodes = s.conflicting_nodes ++ h ∷ [] })

-- A negative index passes the guard, and the read of the node panics.
pub remove_node_at_index : Subtree → ℤ → Result Subtree
remove_node_at_index s (negsuc i) = panic
remove_node_at_index s (pos i) =
    if leb (length s.nodes) i
    then err index_out_of_range
    else let node = get_or s.nodes i empty_node in
      ok (record s {
        fees = sub64 s.fees node.fee;
        size_in_bytes = sub64 s.size_in_bytes node.size_in_bytes;
        nodes = take i s.nodes ++ drop (i + 1) s.nodes;
        root_hash = none;
        node_index = elim s.node_index [ none ↦ none | some m ↦ some (delete node.hash m) ];
      })
