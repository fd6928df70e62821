-- ===== src/Codec/Reads.antt =====
-- Each reader on what its writer has written, with any bytes behind.
use go_subtree.Prelude.{
  suc, ◌≡◌, refl, arith, List, [], ◌∷◌, ◌++◌, append_assoc, length, take, drop, length-append,
  set-append, All,
}
use go_subtree.Errors.{ok, Stage}
use go_subtree.Hash.{Bytes}
use go_subtree.Node.{Node, IsNode}
use go_subtree.Codec.{node_bytes, nodes_bytes, node_of, read_nodes}
use go_subtree.Reader.{
  put_u64, from_le, hashes_bytes, read_full, read_u64, fill, read_hashes, Progress,
}
use go_subtree.Reader.Words.{from_le-put_u64, length-le_bytes}
use go_subtree.Reader.Laws.{take_exact, drop_exact, read_full-append}

pub length-node_bytes : (n : Node) → IsNode n → length (node_bytes n) ≡ 48
unfolding node_bytes
length-node_bytes n x = omega (
  arith,
  length-append n.hash (put_u64 n.fee ++ put_u64 n.size_in_bytes),
  length-append (put_u64 n.fee) (put_u64 n.size_in_bytes),
  length-le_bytes 8 n.fee,
  length-le_bytes 8 n.size_in_bytes,
  x.hash.0,
)

pub node_of-node_bytes : (n : Node) → IsNode n → node_of (node_bytes n) ≡ n
unfolding node_of node_bytes go_subtree.Reader.le_bytes
node_of-node_bytes n x =
    let tail : Bytes = put_u64 n.fee ++ put_u64 n.size_in_bytes in
    let hash : take 32 (n.hash ++ tail) ≡ n.hash = take_exact 32 n.hash tail x.hash.0 in
    let behind : drop 32 (n.hash ++ tail) ≡ tail = drop_exact 32 n.hash tail x.hash.0 in
    let fee : take 8 tail ≡ put_u64 n.fee =
      take_exact 8 (put_u64 n.fee) (put_u64 n.size_in_bytes) (length-le_bytes 8 n.fee) in
    let long : length (n.hash ++ put_u64 n.fee) ≡ 40 =
      omega (arith, length-append n.hash (put_u64 n.fee), length-le_bytes 8 n.fee, x.hash.0) in
    let last : drop 40 (n.hash ++ tail) ≡ put_u64 n.size_in_bytes =
      rw (← append_assoc n.hash (put_u64 n.fee) (put_u64 n.size_in_bytes))
        (drop_exact 40 (n.hash ++ put_u64 n.fee) (put_u64 n.size_in_bytes) long) in
    let whole : take 8 (put_u64 n.size_in_bytes) ≡ put_u64 n.size_in_bytes = refl in
    rw
      (
        hash,
        behind,
        fee,
        last,
        from_le-put_u64 n.fee x.fee,
        from_le-put_u64 n.size_in_bytes x.size_in_bytes,
      )
      refl

pub read_nodes-nodes_bytes :
    (ns done old : List Node) (rest : Bytes)
    → All IsNode ns
    → length old ≡ length ns
    → read_nodes (length ns) (length done) (nodes_bytes ns ++ rest) (done ++ old)
      ≡ (ok rest, done ++ ns)
unfolding read_nodes nodes_bytes
read_nodes-nodes_bytes [] done [] rest x e = refl
read_nodes-nodes_bytes [] done (o ∷ old) rest x e = absurd (omega arith)
read_nodes-nodes_bytes (n ∷ ns) done [] rest x e = absurd (omega arith)
read_nodes-nodes_bytes (n ∷ ns) done (o ∷ old) rest x e =
    rw
      (
        append_assoc (node_bytes n) (nodes_bytes ns) rest,
        read_full-append Stage.node 48 (node_bytes n) (nodes_bytes ns ++ rest)
            (length-node_bytes n x.0),
        read_nodes,
        node_of-node_bytes n x.0,
        set-append done old o n,
      )
      (one_more done n ns old rest
        (read_nodes-nodes_bytes ns (done ++ n ∷ []) old rest x.1 (omega arith)))
  where
    one_more :
        (done : List Node) (n : Node) (ns old : List Node) (rest : Bytes)
        → read_nodes
            (length ns)
            (length (done ++ n ∷ []))
            (nodes_bytes ns ++ rest)
            ((done ++ n ∷ []) ++ old)
          ≡ (ok rest, (done ++ n ∷ []) ++ ns)
        → read_nodes
            (length ns)
            (suc (length done))
            (nodes_bytes ns ++ rest)
            ((done ++ n ∷ []) ++ old)
          ≡ (ok rest, done ++ n ∷ ns)
    one_more done n ns old rest h =
        let size : length (done ++ n ∷ []) ≡ suc (length done) =
          omega (arith, length-append done (n ∷ [])) in
        rw (← size, ← append_assoc done (n ∷ []) ns) h
