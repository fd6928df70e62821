-- ===== src/Codec/Tests.antt =====
-- Runs of the serialization, on the tree of two nodes.
use go_subtree.Codec.Truncated.{deserialize-take-serialize}
use go_subtree.Prelude.{
  take, ◌<◌, ℕ, ◌≡◌, ◌≤◌, refl, arith, Option, none, some, [], ◌∷◌, ◌++◌, length,
}
use go_subtree.Errors.{Error, ok, err, Stage, read_failed, unexpected_eof}
use go_subtree.Hash.{Bytes, Hash}
use go_subtree.Hash.Sample.{sample}
use go_subtree.Merkle.Reference.{merkle_root, hashes, length-merkle_root}
use go_subtree.Subtree.{Subtree}
use go_subtree.Subtree.Sample.{
  two_nodes, two_nodes-Reachable, sample-NeverZero, node_a-IsNonzero, node_b-IsNonzero,
  node_a-IsNode, node_b-IsNode,
}
use go_subtree.Subtree.Root.{root_hash}
use go_subtree.Subtree.Root.Evolved.{by_calls}
use go_subtree.Subtree.Root.Valid.{root_hash-merkle_root}
use go_subtree.Codec.{
  serialize, serialize_nodes, NodeAllocator, deserialize_from_reader_with_allocator,
}
use go_subtree.Reader.{le_bytes, read_full}
use go_subtree.Codec.Steps.{IsWritable}
use go_subtree.Codec.RoundTrip.{restored, deserialize-serialize}
use go_subtree.Codec.Partial.{deserialize_nodes, deserialize_subtree_conflicting}
use go_subtree.Codec.Partial.Nodes.{deserialize_nodes-serialize}
use go_subtree.Codec.Partial.Conflicting.{deserialize_subtree_conflicting-serialize}

low_byte_first : le_bytes 8 0x0102 ≡ 2 ∷ 1 ∷ 0 ∷ 0 ∷ 0 ∷ 0 ∷ 0 ∷ 0 ∷ []
unfolding le_bytes
low_byte_first = refl

cut_short : read_full Stage.fees 8 (1 ∷ 2 ∷ []) ≡ err (read_failed Stage.fees unexpected_eof)
unfolding read_full
cut_short = refl

writable : IsWritable sample two_nodes
writable = record {
  fees = omega arith;
  size_in_bytes = omega arith;
  nodes = (node_a-IsNode, (node_b-IsNode, tt));
  conflicting = tt;
  nodes_int = omega arith;
  conflicting_int = omega arith;
  nodes_room = omega arith;
  conflicting_room = omega arith;
}

abbrev root : Hash
root = merkle_root sample (hashes two_nodes.nodes)

has_root : (root_hash sample two_nodes).0 ≡ some root
has_root =
    root_hash-merkle_root sample (by_calls two_nodes-Reachable) (omega arith) sample-NeverZero
      (node_a-IsNonzero, (node_b-IsNonzero, tt))

root_size : length root ≡ 32
root_size = length-merkle_root sample (hashes two_nodes.nodes) (omega arith) (refl, (refl, tt))

deserialize-serialize_example :
    (b : Bytes) × ((serialize sample two_nodes).0 ≡ ok b)
    × ((alloc : Option NodeAllocator) (u : Subtree) (rest : Bytes)
        → (cap : ℕ) × (length two_nodes.nodes ≤ cap)
          × (deserialize_from_reader_with_allocator sample alloc u (b ++ rest)
              ≡ (none, restored sample u two_nodes root cap)))
deserialize-serialize_example =
    deserialize-serialize sample two_nodes root writable has_root root_size

deserialize_nodes-serialize_example :
    (b : Bytes) × ((serialize sample two_nodes).0 ≡ ok b)
    × ((rest : Bytes) → deserialize_nodes sample (b ++ rest) ≡ ok (serialize_nodes two_nodes.nodes))
deserialize_nodes-serialize_example =
    deserialize_nodes-serialize sample two_nodes root writable has_root root_size

deserialize_subtree_conflicting-serialize_example :
    (b : Bytes) × ((serialize sample two_nodes).0 ≡ ok b)
    × ((rest : Bytes)
        → deserialize_subtree_conflicting sample (b ++ rest) ≡ ok two_nodes.conflicting_nodes)
deserialize_subtree_conflicting-serialize_example =
    deserialize_subtree_conflicting-serialize sample two_nodes root writable has_root root_size

deserialize-take-serialize_example :
    (b : Bytes) × ((serialize sample two_nodes).0 ≡ ok b)
    × ((alloc : Option NodeAllocator) (u : Subtree) (k : ℕ)
        → k < length b
        → (e : Error) × ((deserialize_from_reader_with_allocator sample alloc u (take k b)).0
            ≡ some e))
deserialize-take-serialize_example =
    deserialize-take-serialize sample two_nodes root writable has_root root_size
