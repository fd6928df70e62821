-- ===== src/Codec/Partial.antt =====
-- The two readers that take one part of a serialized subtree: `DeserializeNodesFromReader` and
-- `DeserializeSubtreeConflictingFromReader` of subtree.go.
pub mod Parts
pub mod Nodes
pub mod Conflicting
use go_subtree.Prelude.{
  ℕ, zero, suc, ◌+◌, ◌-◌, ◌*◌, ◌%◌, ◌^◌, Option, none, some, List, [], ◌∷◌, ◌++◌, ℤ, pos, negsuc,
  ltb, if◌then◌else◌, length, take, drop, replicate, int_of_u64,
}
use go_subtree.Errors.{Result, ok, err, panic, conversion_failed, recovered, Stage}
use go_subtree.Hash.{Bytes, Hash, zero_hash, Platform}
use go_subtree.Node.{u64}
use go_subtree.Reader.{from_le, read_full, read_hashes}

-- The loop over the nodes of `DeserializeNodesFromReader`, with `size` bytes to copy into: the bytes
-- from node `i` on.
pub copy_hashes : ℕ → ℕ → ℕ → Bytes → Result Bytes
copy_hashes zero i size input = ok []
copy_hashes (suc k) i size input = elim (read_full Stage.node 48 input) [
  | ok (x, rest) ↦
      if ltb size (32 * (i + 1)) then panic else elim (copy_hashes k (i + 1) size rest) [
        | ok out ↦ ok (take 32 x ++ out)
        | err e ↦ err e
        | panic ↦ panic
      ]
  | err e ↦ err e
  | panic ↦ panic
]

-- `chainhash.HashSize*int(numLeaves)` wraps; `make` panics on a negative size.
pub copy_into : Platform → ℤ → ℕ → Bytes → Result Bytes
copy_into p (negsuc m) n input = panic
copy_into p (pos size) n input = if ltb p.max_alloc size then panic else copy_hashes n 0 size input

pub deserialize_nodes : Platform → Bytes → Result Bytes
deserialize_nodes p input = elim (read_full Stage.root_hash 56 input) [
  | ok (head, rest) ↦
      let n = from_le (take 8 (drop 48 head)) in copy_into p (int_of_u64 ((32 * n) % u64)) n rest
  | err e ↦ err e
  | panic ↦ panic
]

-- `Discard`, whose error is ignored: it stops at the end of the input, and skips nothing where the
-- number is negative.
pub discard : ℤ → Bytes → Bytes
discard (pos n) input = drop n input
discard (negsuc n) input = input

-- `48 * n` on int.
pub times_48 : ℤ → ℤ
times_48 (pos n) = int_of_u64 ((48 * n) % u64)
times_48 (negsuc n) = int_of_u64 ((u64 * 48 - 48 * (n + 1)) % u64)

-- The loop over the conflicting nodes, with the `make` before it.
pub take_hashes : Platform → ℕ → Bytes → Result (List Hash)
take_hashes p n input =
    if ltb p.max_alloc (n * 32)
    then err recovered
    else let (r, hashes) = read_hashes Stage.conflicting n 0 input (replicate n zero_hash) in
      elim r [ ok end ↦ ok hashes | err e ↦ err e | panic ↦ err recovered ]

-- The rest of the reader, from the number of conflicting nodes on.
pub read_conflicting : Platform → Bytes → Result (List Hash)
read_conflicting p input = elim (read_full Stage.num_conflicting 8 input) [
  | ok (word, rest) ↦ take_hashes p (from_le word) rest
  | err e ↦ err e
  | panic ↦ err recovered
]

pub deserialize_subtree_conflicting : Platform → Bytes → Result (List Hash)
deserialize_subtree_conflicting p input =
    elim (read_full Stage.num_leaves 8 (discard (pos 48) input)) [
      | ok (word, rest) ↦ elim (p.uint64_to_int (from_le word)) [
        | none ↦ err conversion_failed
        | some n ↦ read_conflicting p (discard (times_48 n) rest)
      ]
      | err e ↦ err e
      | panic ↦ err recovered
    ]
