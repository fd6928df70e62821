-- ===== src/Codec/Partial/Parts.antt =====
-- The parts of a serialized subtree that a partial reader skips or cuts up.
use go_subtree.Prelude.{
  ℕ, ◌+◌, ◌*◌, ◌%◌, ◌^◌, ◌≤◌, ◌<◌, ◌≡◌, refl, arith, List, [], ◌∷◌, ◌++◌, append_assoc, length,
  length-append, take, All, pos, int_of_u64,
}
use go_subtree.Errors.{ok, Stage}
use go_subtree.Hash.{Bytes}
use go_subtree.Node.{Node, IsNode, u64}
use go_subtree.Codec.{node_bytes, nodes_bytes, serialize_nodes}
use go_subtree.Reader.{put_u64, from_le, hashes_bytes, read_full, read_hashes}
use go_subtree.Codec.Reads.{length-node_bytes}
use go_subtree.Reader.Laws.{take_exact, read_full-append}
use go_subtree.Codec.Steps.{not_above, int_small}
use go_subtree.Codec.Partial.{copy_hashes}

pub take-node_bytes : (n : Node) → IsNode n → take 32 (node_bytes n) ≡ n.hash
unfolding node_bytes
take-node_bytes n x = take_exact 32 n.hash (put_u64 n.fee ++ put_u64 n.size_in_bytes) x.hash.0

pub copy_hashes-nodes_bytes :
    (ns : List Node) (i size : ℕ) (rest : Bytes)
    → All IsNode ns
    → 32 * (i + length ns) ≤ size
    → copy_hashes (length ns) i size (nodes_bytes ns ++ rest) ≡ ok (serialize_nodes ns)
unfolding copy_hashes nodes_bytes serialize_nodes
copy_hashes-nodes_bytes [] i size rest x h = refl
copy_hashes-nodes_bytes (n ∷ ns) i size rest x h =
    rw
      (
        append_assoc (node_bytes n) (nodes_bytes ns) rest,
        read_full-append Stage.node 48 (node_bytes n) (nodes_bytes ns ++ rest)
            (length-node_bytes n x.0),
        copy_hashes,
        not_above size (32 * (i + 1)) (omega arith),
        copy_hashes-nodes_bytes ns (i + 1) size rest x.1 (omega arith),
        take-node_bytes n x.0,
      )
      refl

pub length-nodes_bytes : (ns : List Node) → All IsNode ns → length (nodes_bytes ns) ≡ 48 * length ns
unfolding nodes_bytes
length-nodes_bytes [] x = refl
length-nodes_bytes (n ∷ ns) x = omega (
  arith,
  length-append (node_bytes n) (nodes_bytes ns),
  length-node_bytes n x.0,
  length-nodes_bytes ns x.1,
)

pub regroup_four : (a b c d r : Bytes) → a ++ (b ++ (c ++ (d ++ r))) ≡ (a ++ (b ++ (c ++ d))) ++ r
regroup_four a b c d r = simp append_assoc refl

pub regroup_three : (a b c r : Bytes) → a ++ (b ++ (c ++ r)) ≡ (a ++ (b ++ c)) ++ r
regroup_three a b c r = simp append_assoc refl

-- A head of the given parts, by its length.
pub length_three :
    (a b c : Bytes) → length a ≡ 32 → length b ≡ 8 → length c ≡ 8 → length (a ++ (b ++ c)) ≡ 48
length_three a b c x y z = omega (arith, length-append a (b ++ c), length-append b c)

pub length_four :
    (a b c d : Bytes)
    → length a ≡ 32
    → length b ≡ 8
    → length c ≡ 8
    → length d ≡ 8
    → length (a ++ (b ++ (c ++ d))) ≡ 56
length_four a b c d x y z w =
    omega (arith, length-append a (b ++ (c ++ d)), length-append b (c ++ d), length-append c d)

pub int_wrap : (x m : ℕ) → x ≤ m → m < 2 ^ 63 → int_of_u64 (x % u64) ≡ pos x
int_wrap x m h i = let same : x % u64 ≡ x = omega arith in rw same (int_small x (omega arith))

pub take_whole : (n : ℕ) → take 8 (put_u64 n) ≡ put_u64 n
unfolding go_subtree.Reader.le_bytes
take_whole n = refl
