-- ===== src/Merkle/Leaves.antt =====
-- The leaves that the loops of `Merkle` read.
use go_subtree.Prelude.{
  ℕ, zero, suc, ◌-◌, ◌^◌, ◌≡◌, refl, sym, arith, Bool-cases, inl, inr, List, [], ◌∷◌, ◌++◌, length,
  get_or, replicate, leb, map, length-append, length-replicate, length-map, get_or_past, leb→le,
}
use go_subtree.Hash.{Hash, zero_hash}
use go_subtree.Node.{Node}
use go_subtree.Powers.{ceil_log2}
use go_subtree.Powers.Log.{le-ceil_log2}
use go_subtree.Merkle.{empty_node, get_node_hash_at}

-- The leaves, padded with zero hashes to the next power of two.
unfoldable pub leaves : List Node → List Hash
leaves nodes =
    let len = length nodes in
    map (λ (n : Node). n.hash) nodes ++ replicate (2 ^ ceil_log2 len - len) zero_hash

get_or_zeros : (t i : ℕ) → get_or (replicate t zero_hash) i zero_hash ≡ zero_hash
get_or_zeros zero i = refl
get_or_zeros (suc t) zero = refl
get_or_zeros (suc t) (suc i) = get_or_zeros t i

get_or_hashes :
    (nodes : List Node) (t i : ℕ)
    → get_or (map (λ (n : Node). n.hash) nodes ++ replicate t zero_hash) i zero_hash
      ≡ (get_or nodes i empty_node).hash
get_or_hashes [] t i = get_or_zeros t i
get_or_hashes (n ∷ ns) t zero = refl
get_or_hashes (n ∷ ns) t (suc i) = get_or_hashes ns t i

-- A read past the leaves gives the padding.
pub get_node_hash_at-leaves :
    (nodes : List Node) (i : ℕ)
    → get_node_hash_at nodes i (length nodes) ≡ get_or (leaves nodes) i zero_hash
unfolding get_node_hash_at leaves
get_node_hash_at-leaves nodes i = elim (Bool-cases (leb (length nodes) i)) [
  | inl y ↦ rw (y, get_or_hashes nodes _ i, get_or_past nodes i empty_node (leb→le _ _ y))
  | inr n ↦ rw n (sym (get_or_hashes nodes _ i))
]

pub length-leaves : (nodes : List Node) → length (leaves nodes) ≡ 2 ^ ceil_log2 (length nodes)
unfolding leaves
length-leaves nodes =
    let size = length nodes in
    omega (
      arith,
      length-append (map (λ (n : Node). n.hash) nodes)
          (replicate (2 ^ ceil_log2 size - size) zero_hash),
      length-map nodes (λ (n : Node). n.hash),
      length-replicate (2 ^ ceil_log2 size - size) zero_hash,
      le-ceil_log2 size,
    )
