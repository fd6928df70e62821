-- ===== src/Codec.antt =====
-- The serialization of subtree.go: the writers, and the readers over `io.Reader`, where an input is
-- the list of its bytes. A reader that changes its receiver returns it on every path, with what a
-- failed read has left in it. The messages of the errors are left out but for the part they name.
pub mod Reads
pub mod Steps
pub mod RoundTrip
pub mod Partial
pub mod Extends
pub mod Truncated
mod Pool
mod Tests
use go_subtree.Prelude.{
  ℕ, zero, suc, ◌+◌, ◌*◌, ◌/◌, ◌%◌, ◌^◌, Option, none, some, List, [], ◌∷◌, ◌++◌, ℤ, pos, negsuc,
  ltz, ltb, ◌==◌, if◌then◌else◌, length, take, drop, set, replicate, int_of_u64,
}
use go_subtree.Errors.{
  Result, ok, err, panic, ◌>>=◌, Error, conversion_failed, recovered, read_failed, Stage, ReadError,
  eof, unexpected_eof,
}
use go_subtree.Hash.{Bytes, Hash, zero_hash, Platform}
use go_subtree.Node.{Node, u64}
use go_subtree.Merkle.{empty_node}
use go_subtree.Subtree.{Subtree, node_size, log2_height}
use go_subtree.Subtree.Root.{root_hash}
use go_subtree.Reader.{
  put_u64, hashes_bytes, read_full, fill, Progress, and_then, read_u64, from_le, read_hashes,
}

-- The loops that write the nodes, in `Serialize` and in `SerializeNodes`, and the conflicting nodes.
pub node_bytes : Node → Bytes
node_bytes n = n.hash ++ (put_u64 n.fee ++ put_u64 n.size_in_bytes)

pub nodes_bytes : List Node → Bytes
nodes_bytes [] = []
nodes_bytes (n ∷ ns) = node_bytes n ++ nodes_bytes ns

pub serialize_nodes : List Node → Bytes
serialize_nodes [] = []
serialize_nodes (n ∷ ns) = n.hash ++ serialize_nodes ns

-- What stands behind the root hash.
pub body_bytes : Subtree → Bytes
body_bytes s =
    put_u64 s.fees
    ++ (put_u64 s.size_in_bytes
        ++ (put_u64 (length s.nodes)
            ++ (nodes_bytes s.nodes
                ++ (put_u64 (length s.conflicting_nodes) ++ hashes_bytes s.conflicting_nodes))))

-- The panic is that of a nil root hash, which is what `RootHash` returns where there are no nodes.
pub serialize : Platform → Subtree → Result Bytes × Subtree
serialize p s =
    let (r, s') = root_hash p s in
    (elim r [ none ↦ panic | some root ↦ ok (root ++ body_bytes s') ], s')

unfoldable pub read_root : Subtree → Bytes → Progress Subtree
read_root s input =
    let s' = record s { root_hash = some (fill input) } in
    (
      elim (read_full Stage.root_hash 32 input) [
        | ok (h, rest) ↦ ok rest
        | err e ↦ err e
        | panic ↦ panic
      ],
      s',
    )

unfoldable pub read_fees : Subtree → Bytes → Progress Subtree
read_fees s = read_u64 Stage.fees (λ n rest. (ok rest, record s { fees = n })) s

unfoldable pub read_size : Subtree → Bytes → Progress Subtree
read_size s = read_u64 Stage.size_in_bytes (λ n rest. (ok rest, record s { size_in_bytes = n })) s

unfoldable pub node_of : Bytes → Node
node_of x = record {
  hash = take 32 x;
  fee = from_le (take 8 (drop 32 x));
  size_in_bytes = from_le (take 8 (drop 40 x));
}

-- The loop over the nodes, with `i` the index of the next one and as many to read as is said.
unfoldable pub read_nodes : ℕ → ℕ → Bytes → List Node → Progress (List Node)
read_nodes zero i input nodes = (ok input, nodes)
read_nodes (suc k) i input nodes = elim (read_full Stage.node 48 input) [
  | ok (x, rest) ↦ read_nodes k (suc i) rest (set nodes i (node_of x))
  | err e ↦ (err e, nodes)
  | panic ↦ (panic, nodes)
]

-- The error that the deferred function and the returns leave, `none` for nil.
unfoldable pub returned : Progress Subtree → Option Error × Subtree
returned (ok rest, s) = (none, s)
returned (err e, s) = (some e, s)
returned (panic, s) = (some recovered, s)

-- A `NodeAllocator`, by the whole backing array of the slice it returns.
abbrev pub NodeAllocator : Type 0
NodeAllocator = ℤ → List Node

module _ (p : Platform) where
  -- `make([]Node, n)`, with its capacity.
  unfoldable pub make_nodes : ℕ → Result (List Node × ℕ)
  make_nodes n = if ltb p.max_alloc (n * node_size) then panic else ok (replicate n empty_node, n)

  unfoldable pub node_space : Option NodeAllocator → ℕ → Result (List Node × ℕ)
  node_space none n = make_nodes n
  node_space (some alloc) n =
      let backing = alloc (int_of_u64 n) in
      if ltz (pos (length backing)) (int_of_u64 n)
      then make_nodes n
      else if ltb (length backing) n
      then panic
      else ok (take n backing, length backing)

  -- `deserializeNodesWithAllocator` after the number of leaves is read.
  unfoldable pub fill_nodes : Option NodeAllocator → Subtree → ℕ → Bytes → Progress Subtree
  fill_nodes alloc s n input =
      let sized = record s { tree_size = int_of_u64 n; height = log2_height p (pos n) } in
      elim (node_space alloc n) [
        | ok (space, cap) ↦
            let (r, nodes) = read_nodes n 0 input space in
            (r, record sized { nodes = nodes; nodes_cap = cap })
        | err e ↦ (err e, sized)
        | panic ↦ (panic, sized)
      ]

  unfoldable pub deserialize_nodes_with_allocator :
      Option NodeAllocator → Subtree → Bytes → Progress Subtree
  deserialize_nodes_with_allocator alloc s = read_u64 Stage.num_leaves (fill_nodes alloc s) s

  unfoldable pub fill_conflicting : Subtree → ℕ → Bytes → Progress Subtree
  fill_conflicting s n input =
      if ltb p.max_alloc (n * 32)
      then (panic, s)
      else let (r, hashes) = read_hashes Stage.conflicting n 0 input (replicate n zero_hash) in
        (r, record s { conflicting_nodes = hashes })

  unfoldable pub deserialize_conflicting_nodes : Subtree → Bytes → Progress Subtree
  deserialize_conflicting_nodes s = read_u64 Stage.num_conflicting (fill_conflicting s) s

  -- The reads of `DeserializeFromReaderWithAllocator`, one after another.
  unfoldable pub read_all : Option NodeAllocator → Subtree → Bytes → Progress Subtree
  read_all alloc s input =
      and_then
        (and_then (and_then (and_then (read_root s input) read_fees) read_size)
          (deserialize_nodes_with_allocator alloc))
        deserialize_conflicting_nodes

  unfoldable pub deserialize_from_reader_with_allocator :
      Option NodeAllocator → Subtree → Bytes → Option Error × Subtree
  deserialize_from_reader_with_allocator alloc s input = returned (read_all alloc s input)

  -- `Deserialize` and `DeserializeFromReader`.
  unfoldable pub deserialize : Subtree → Bytes → Option Error × Subtree
  deserialize = deserialize_from_reader_with_allocator none

-- `&Subtree{}`.
abbrev pub zero_subtree : Subtree
zero_subtree = record {
  height = pos 0;
  fees = 0;
  size_in_bytes = 0;
  fee_hash = zero_hash;
  nodes = [];
  nodes_cap = 0;
  conflicting_nodes = [];
  root_hash = none;
  tree_size = pos 0;
  node_index = none;
}

pub loaded : Option Error × Subtree → Result Subtree
loaded (none, s) = ok s
loaded (some e, s) = err e

-- `NewSubtreeFromBytes` and `NewSubtreeFromReader`.
pub new_subtree_from_bytes : Platform → Bytes → Result Subtree
new_subtree_from_bytes p input = loaded (deserialize p zero_subtree input)
