-- ===== src/Codec/RoundTrip.antt =====
-- A subtree read back from what `Serialize` has written.
use go_subtree.Prelude.{ℕ, ◌≤◌, ◌≡◌, refl, ◌∙◌, Option, none, some, ◌++◌, append_assoc, length, pos}
use go_subtree.Errors.{ok}
use go_subtree.Hash.{Bytes, Hash, Platform}
use go_subtree.Subtree.{Subtree, log2_height}
use go_subtree.Subtree.Root.{root_hash}
use go_subtree.Subtree.Root.Cache.{root_hash_effect}
use go_subtree.Codec.{
  nodes_bytes, body_bytes, serialize, read_fees, read_size, NodeAllocator,
  deserialize_nodes_with_allocator, deserialize_conflicting_nodes, returned, read_all,
  deserialize_from_reader_with_allocator,
}
use go_subtree.Reader.{put_u64, hashes_bytes}
use go_subtree.Reader.Laws.{chain}
use go_subtree.Codec.Steps.{
  IsWritable, written, body_rest, read_root-append, fill_nodes_lem, read_fees-put, read_size-put,
  conflicting_lem, nodes_lem,
}

-- The state that a reader leaves, `cap` being the capacity of the node slice.
abbrev pub restored : Platform → Subtree → Subtree → Hash → ℕ → Subtree
restored p u s root cap = record u {
  root_hash = some root;
  fees = s.fees;
  size_in_bytes = s.size_in_bytes;
  tree_size = pos (length s.nodes);
  height = log2_height p (pos (length s.nodes));
  nodes = s.nodes;
  nodes_cap = cap;
  conflicting_nodes = s.conflicting_nodes;
}

module _ (p : Platform) where
  pub read_written :
      (alloc : Option NodeAllocator) (u s : Subtree) (root rest : Bytes)
      → IsWritable p s
      → length root ≡ 32
      → (cap : ℕ) × (length s.nodes ≤ cap)
        × (read_all p alloc u (root ++ written s rest) ≡ (ok rest, restored p u s root cap))
  unfolding read_all
  read_written alloc u s root rest w e =
      let tail : Bytes =
        put_u64 (length s.conflicting_nodes) ++ (hashes_bytes s.conflicting_nodes ++ rest) in
      let u3 : Subtree = record u {
        root_hash = some root;
        fees = s.fees;
        size_in_bytes = s.size_in_bytes;
      } in
      let (cap, room, filled) =
        fill_nodes_lem p alloc u3 s.nodes tail w.nodes w.nodes_int w.nodes_room in
      let sized : Bytes = put_u64 (length s.nodes) ++ (nodes_bytes s.nodes ++ tail) in
      let rooted = record u { root_hash = some root } in
      let paid = record rooted { fees = s.fees } in
      let after_root =
        read_root-append u root (put_u64 s.fees ++ (put_u64 s.size_in_bytes ++ sized)) e in
      let after_fees =
        chain read_fees after_root
          (read_fees-put rooted s.fees (put_u64 s.size_in_bytes ++ sized) w.fees) in
      let after_size =
        chain read_size after_fees (read_size-put paid s.size_in_bytes sized w.size_in_bytes) in
      let after_nodes = chain (deserialize_nodes_with_allocator p alloc) after_size (
        nodes_lem p alloc u3 (length s.nodes) (nodes_bytes s.nodes ++ tail) w.nodes_int ∙ filled) in
      let after_all = chain (deserialize_conflicting_nodes p) after_nodes (
        conflicting_lem p _ s.conflicting_nodes rest w.conflicting w.conflicting_int
          w.conflicting_room) in
      (cap, room, after_all)

  returned_ok :
      (alloc : Option NodeAllocator) (u : Subtree) (input rest : Bytes) {t : Subtree}
      → read_all p alloc u input ≡ (ok rest, t)
      → deserialize_from_reader_with_allocator p alloc u input ≡ (none, t)
  unfolding deserialize_from_reader_with_allocator returned
  returned_ok alloc u input rest e = rw e refl

  body_kept : (s : Subtree) → body_bytes (root_hash p s).1 ≡ body_bytes s
  unfolding body_bytes
  body_kept s = let (r, e) = root_hash_effect p s in rw e refl

  pub written_lem :
      (s : Subtree) (root : Hash)
      → (root_hash p s).0 ≡ some root
      → (serialize p s).0 ≡ ok (root ++ body_bytes s)
  unfolding serialize
  written_lem s root e = rw (e, serialize, body_kept s) refl

  -- A subtree with a root hash, with fields as Go's types have them and with lists that fit in memory
  -- serializes to bytes from which a reader with any allocator, starting from any subtree, restores
  -- the root hash, the totals, the nodes and the conflicting nodes, sets the tree's size and height by
  -- the number of nodes, and reports no error, whatever bytes stand behind.
  pub deserialize-serialize :
      (s : Subtree) (root : Hash)
      → IsWritable p s
      → (root_hash p s).0 ≡ some root
      → length root ≡ 32
      → (b : Bytes) × ((serialize p s).0 ≡ ok b)
        × ((alloc : Option NodeAllocator) (u : Subtree) (rest : Bytes)
            → (cap : ℕ) × (length s.nodes ≤ cap)
              × (deserialize_from_reader_with_allocator p alloc u (b ++ rest)
                  ≡ (none, restored p u s root cap)))
  deserialize-serialize s root w e size = (
    root ++ body_bytes s,
    written_lem s root e,
    λ alloc u rest.
        let (cap, room, read) = read_written alloc u s root rest w size in
        (
          cap,
          room,
          rw (append_assoc root (body_bytes s) rest, body_rest s rest)
              (returned_ok alloc u _ rest read),
        ),
  )
