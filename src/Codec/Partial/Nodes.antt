-- ===== src/Codec/Partial/Nodes.antt =====
-- `DeserializeNodesFromReader` on what `Serialize` has written.
use go_subtree.Prelude.{
  ◌*◌, ◌%◌, ◌≤◌, ◌≡◌, arith, some, List, ◌++◌, append_assoc, length, take, drop, All, int_of_u64,
}
use go_subtree.Errors.{ok, Stage}
use go_subtree.Hash.{Bytes, Hash, Platform}
use go_subtree.Node.{Node, IsNode, u64}
use go_subtree.Subtree.{Subtree}
use go_subtree.Subtree.Root.{root_hash}
use go_subtree.Codec.{nodes_bytes, serialize_nodes, body_bytes, serialize}
use go_subtree.Reader.{put_u64, hashes_bytes}
use go_subtree.Reader.Words.{from_le-put_u64, length-le_bytes}
use go_subtree.Reader.Laws.{drop_exact, read_full-append}
use go_subtree.Codec.Steps.{IsWritable, written, body_rest, not_above, fits}
use go_subtree.Codec.RoundTrip.{written_lem}
use go_subtree.Codec.Partial.{copy_into, deserialize_nodes}
use go_subtree.Codec.Partial.Parts.{
  copy_hashes-nodes_bytes, regroup_four, regroup_three, length_three, length_four, int_wrap,
  take_whole,
}

module _ (p : Platform) where
  copy_into_lem :
      (ns : List Node) (rest : Bytes)
      → All IsNode ns
      → length ns * 48 ≤ p.max_alloc
      → copy_into p (int_of_u64 ((32 * length ns) % u64)) (length ns) (nodes_bytes ns ++ rest)
        ≡ ok (serialize_nodes ns)
  unfolding copy_into
  copy_into_lem ns rest x h =
      rw
        (
          int_wrap (32 * length ns) p.max_alloc (omega arith) p.max_alloc-lt,
          not_above p.max_alloc (32 * length ns) (omega arith),
        )
        (copy_hashes-nodes_bytes ns 0 (32 * length ns) rest x (omega arith))

  read_nodes_lem :
      (s : Subtree) (root rest : Bytes)
      → IsWritable p s
      → length root ≡ 32
      → deserialize_nodes p (root ++ written s rest) ≡ ok (serialize_nodes s.nodes)
  unfolding deserialize_nodes serialize_nodes
  read_nodes_lem s root rest w e =
      let fees : Bytes = put_u64 s.fees in
      let size : Bytes = put_u64 s.size_in_bytes in
      let count : Bytes = put_u64 (length s.nodes) in
      let tail : Bytes =
        nodes_bytes s.nodes
        ++ (put_u64 (length s.conflicting_nodes) ++ (hashes_bytes s.conflicting_nodes ++ rest)) in
      let head : Bytes = root ++ (fees ++ (size ++ count)) in
      let long : length head ≡ 56 =
        length_four root fees size count e (length-le_bytes 8 _) (length-le_bytes 8 _)
          (length-le_bytes 8 _) in
      let behind : drop 48 head ≡ count = rw (regroup_three root fees size count) (
        drop_exact 48 (root ++ (fees ++ size)) count
          (length_three root fees size e (length-le_bytes 8 _) (length-le_bytes 8 _))) in
      let whole : take 8 count ≡ count = take_whole (length s.nodes) in
      rw
        (
          regroup_four root fees size count tail,
          read_full-append Stage.root_hash 56 head tail long,
          deserialize_nodes,
          behind,
          whole,
          from_le-put_u64 (length s.nodes) (fits _ w.nodes_int),
        )
        (copy_into_lem s.nodes
          (put_u64 (length s.conflicting_nodes) ++ (hashes_bytes s.conflicting_nodes ++ rest))
          w.nodes w.nodes_room)

  -- What `Serialize` writes for a subtree with a root hash, with fields as Go's types have them and
  -- with lists that fit in memory, read by `DeserializeNodesFromReader`, are the bytes that
  -- `SerializeNodes` writes, whatever stands behind.
  pub deserialize_nodes-serialize :
      (s : Subtree) (root : Hash)
      → IsWritable p s
      → (root_hash p s).0 ≡ some root
      → length root ≡ 32
      → (b : Bytes) × ((serialize p s).0 ≡ ok b)
        × ((rest : Bytes) → deserialize_nodes p (b ++ rest) ≡ ok (serialize_nodes s.nodes))
  deserialize_nodes-serialize s root w e size = (
    root ++ body_bytes s,
    written_lem p s root e,
    λ rest.
        rw (append_assoc root (body_bytes s) rest, body_rest s rest)
          (read_nodes_lem s root rest w size),
  )
