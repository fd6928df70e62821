-- ===== src/Node.antt =====
-- `Node` of subtree.go.
use go_subtree.Prelude.{ℕ, ◌<◌, ◌^◌}
use go_subtree.Hash.{Hash, IsHash}

pub record Node : Type 0 where
  pub hash : Hash
  pub fee : ℕ
  pub size_in_bytes : ℕ

abbrev pub u64 : ℕ
u64 = 2 ^ 64

-- What Go's types say of a node.
pub record IsNode (n : Node) : Type 0 where
  pub hash : IsHash n.hash
  pub fee : n.fee < u64
  pub size_in_bytes : n.size_in_bytes < u64
