-- ===== src/Codec/Partial/Conflicting.antt =====
-- `DeserializeSubtreeConflictingFromReader` on what `Serialize` has written.
use go_subtree.Prelude.{
  ◌*◌, ◌^◌, ◌≤◌, ◌<◌, ◌≡◌, ap, arith, some, List, [], ◌++◌, append_assoc, length, length-replicate,
  replicate, All, pos,
}
use go_subtree.Errors.{Result, ok, Stage}
use go_subtree.Hash.{Bytes, Hash, IsHash, zero_hash, Platform}
use go_subtree.Node.{Node, IsNode}
use go_subtree.Subtree.{Subtree}
use go_subtree.Subtree.Root.{root_hash}
use go_subtree.Codec.{nodes_bytes, body_bytes, serialize}
use go_subtree.Reader.{put_u64, hashes_bytes}
use go_subtree.Reader.Words.{from_le-put_u64, length-le_bytes}
use go_subtree.Reader.Laws.{drop_exact, read_full-append, read_hashes-hashes_bytes}
use go_subtree.Codec.Steps.{IsWritable, written, body_rest, not_above, fits}
use go_subtree.Codec.RoundTrip.{written_lem}
use go_subtree.Codec.Partial.{
  discard, times_48, take_hashes, read_conflicting, deserialize_subtree_conflicting,
}
use go_subtree.Codec.Partial.Parts.{length-nodes_bytes, regroup_three, length_three, int_wrap}

module _ (p : Platform) where
  take_hashes_lem :
      (hs : List Hash) (rest : Bytes)
      → All IsHash hs
      → length hs * 32 ≤ p.max_alloc
      → take_hashes p (length hs) (hashes_bytes hs ++ rest) ≡ ok hs
  unfolding take_hashes
  take_hashes_lem hs rest x h =
      let e =
        read_hashes-hashes_bytes Stage.conflicting hs [] (replicate (length hs) zero_hash) rest x
          (length-replicate (length hs) zero_hash) in
      rw (not_above p.max_alloc (length hs * 32) h, e)
        (ap (λ (r : Result Bytes × List Hash). ok r.1) e)

  read_conflicting_lem :
      (hs : List Hash) (rest : Bytes)
      → All IsHash hs
      → length hs < 2 ^ 63
      → length hs * 32 ≤ p.max_alloc
      → read_conflicting p (put_u64 (length hs) ++ (hashes_bytes hs ++ rest)) ≡ ok hs
  unfolding read_conflicting
  read_conflicting_lem hs rest x i h =
      rw
        (
          read_full-append Stage.num_conflicting 8 (put_u64 (length hs)) (hashes_bytes hs ++ rest)
              (length-le_bytes 8 (length hs)),
          read_conflicting,
          from_le-put_u64 (length hs) (fits (length hs) i),
        )
        (take_hashes_lem hs rest x h)

  skip_nodes :
      (ns : List Node) (rest : Bytes)
      → All IsNode ns
      → length ns * 48 ≤ p.max_alloc
      → discard (times_48 (pos (length ns))) (nodes_bytes ns ++ rest) ≡ rest
  unfolding discard times_48
  skip_nodes ns rest x h =
      rw (int_wrap (48 * length ns) p.max_alloc (omega arith) p.max_alloc-lt)
        (drop_exact (48 * length ns) (nodes_bytes ns) rest (length-nodes_bytes ns x))

  skip_head :
      (s : Subtree) (root tail : Bytes)
      → length root ≡ 32
      → discard (pos 48) (root ++ (put_u64 s.fees ++ (put_u64 s.size_in_bytes ++ tail))) ≡ tail
  unfolding discard
  skip_head s root tail e =
      rw (regroup_three root (put_u64 s.fees) (put_u64 s.size_in_bytes) tail) (
        drop_exact 48 (root ++ (put_u64 s.fees ++ put_u64 s.size_in_bytes)) tail
          (length_three root _ _ e (length-le_bytes 8 _) (length-le_bytes 8 _)))

  skip_lem :
      (s : Subtree) (root rest : Bytes)
      → IsWritable p s
      → length root ≡ 32
      → deserialize_subtree_conflicting p (root ++ written s rest) ≡ ok s.conflicting_nodes
  unfolding deserialize_subtree_conflicting
  skip_lem s root rest w e =
      let last : Bytes =
        put_u64 (length s.conflicting_nodes) ++ (hashes_bytes s.conflicting_nodes ++ rest) in
      let count : Bytes = put_u64 (length s.nodes) in
      rw
        (
          skip_head s root (count ++ (nodes_bytes s.nodes ++ last)) e,
          read_full-append Stage.num_leaves 8 count (nodes_bytes s.nodes ++ last)
              (length-le_bytes 8 _),
          deserialize_subtree_conflicting,
          from_le-put_u64 (length s.nodes) (fits _ w.nodes_int),
          p.uint64_to_int_lem (length s.nodes) w.nodes_int,
          skip_nodes s.nodes last w.nodes w.nodes_room,
        )
        (read_conflicting_lem s.conflicting_nodes rest w.conflicting w.conflicting_int
          w.conflicting_room)

  -- What `Serialize` writes for a subtree with a root hash, with fields as Go's types have them and
  -- with lists that fit in memory, read by `DeserializeSubtreeConflictingFromReader`, are the
  -- conflicting nodes, whatever stands behind.
  pub deserialize_subtree_conflicting-serialize :
      (s : Subtree) (root : Hash)
      → IsWritable p s
      → (root_hash p s).0 ≡ some root
      → length root ≡ 32
      → (b : Bytes) × ((serialize p s).0 ≡ ok b)
        × ((rest : Bytes) → deserialize_subtree_conflicting p (b ++ rest) ≡ ok s.conflicting_nodes)
  deserialize_subtree_conflicting-serialize s root w e size = (
    root ++ body_bytes s,
    written_lem p s root e,
    λ rest.
        rw (append_assoc root (body_bytes s) rest, body_rest s rest) (skip_lem s root rest w size),
  )
