-- ===== src/Merkle.antt =====
-- merkle_tree.go without the coinbase proof. The error of `BuildMerkleTreeStoreFromBytes` is always
-- nil, so the model returns the store alone. An array is a list, a write to it `set`.
pub mod Loops
pub mod Leaves
pub mod Levels
pub mod Reference
pub mod Canonical
pub mod Branch
pub mod Parallel
mod Tests
use go_subtree.Prelude.{
  ℕ, zero, suc, ◌+◌, ◌-◌, ◌*◌, ◌/◌, ◌^◌, List, [], ◌∷◌, ◌++◌, length, get_or, set, replicate, ltb,
  leb, ◌==◌, if◌then◌else◌,
}
use go_subtree.Hash.{Hash, zero_hash, Platform}
use go_subtree.Node.{Node}
use go_subtree.Powers.{ceil_log2, next_power_of_two, min_of}

-- `merkles[i]`.
abbrev pub hash_at : List Hash → ℕ → Hash
hash_at merkles i = get_or merkles i zero_hash

abbrev pub empty_node : Node
empty_node = record { hash = zero_hash; fee = 0; size_in_bytes = 0 }

pub get_node_hash_at : List Node → ℕ → ℕ → Hash
get_node_hash_at nodes index len =
    if leb len index then zero_hash else (get_or nodes index empty_node).hash

pub get_merkle_pair : List Node → List Hash → ℕ → ℕ → ℕ → Hash × Hash
get_merkle_pair nodes merkles i next_pot len =
    if ltb i next_pot
    then (get_node_hash_at nodes i len, get_node_hash_at nodes (i + 1) len)
    else (hash_at merkles (i - next_pot), hash_at merkles (i - next_pot + 1))

-- `routineSplitSize`.
abbrev pub split_size : ℕ
split_size = 1024

module _ (p : Platform) where
  -- The double SHA-256 of the two hashes in one 64-byte array.
  unfoldable pub double_sha : Hash → Hash → Hash
  double_sha left right = p.sum256 (p.sum256 (left ++ right))

  pub calc_merkle : Hash → Hash → Hash
  calc_merkle left right =
      if p.equal left zero_hash
      then zero_hash
      else if p.equal right zero_hash
      then double_sha left left
      else double_sha left right

  -- One round of the loop of `calcMerkles`.
  pub write_merkle : List Node → ℕ → ℕ → ℕ → List Hash → List Hash
  write_merkle nodes next_pot len i merkles =
      let (left, right) = get_merkle_pair nodes merkles i next_pot len in
      set merkles (i / 2) (calc_merkle left right)

  -- The rounds of `for i := merkleFrom; i < merkleTo; i += 2` that are left.
  pub calc_rounds : ℕ → List Node → ℕ → ℕ → ℕ → List Hash → List Hash
  calc_rounds zero nodes next_pot len i merkles = merkles
  calc_rounds (suc r) nodes next_pot len i merkles =
      calc_rounds r nodes next_pot len (i + 2) (write_merkle nodes next_pot len i merkles)

  pub calc_merkles : List Node → ℕ → ℕ → ℕ → ℕ → List Hash → List Hash
  calc_merkles nodes merkle_from merkle_to next_pot len merkles =
      calc_rounds ((merkle_to - merkle_from + 1) / 2) nodes next_pot len merkle_from merkles

  -- The goroutines of one level, in the order in which they are started.
  pub chunk_rounds : ℕ → List Node → ℕ → ℕ → ℕ → ℕ → List Hash → List Hash
  chunk_rounds zero nodes i merkle_to next_pot len merkles = merkles
  chunk_rounds (suc c) nodes i merkle_to next_pot len merkles =
      chunk_rounds c nodes (i + split_size) merkle_to next_pot len
        (calc_merkles nodes i (min_of (i + split_size) merkle_to) next_pot len merkles)

  -- One level: in chunks where it is large.
  pub calc_level : List Node → ℕ → ℕ → ℕ → ℕ → List Hash → List Hash
  calc_level nodes merkle_from merkle_to next_pot len merkles =
      if ltb split_size (merkle_to - merkle_from)
      then chunk_rounds ((merkle_to - merkle_from + (split_size - 1)) / split_size) nodes
          merkle_from merkle_to next_pot len merkles
      else calc_merkles nodes merkle_from merkle_to next_pot len merkles

  -- The loop over `h`; the first argument is `height + 1 - h`.
  pub build_levels : ℕ → List Node → ℕ → ℕ → ℕ → List Hash → List Hash
  build_levels zero nodes merkle_from next_pot len merkles = merkles
  build_levels (suc k) nodes merkle_from next_pot len merkles =
      let merkle_to = merkle_from + 2 ^ k - 1 in
      build_levels k nodes (merkle_to + 1) next_pot len
        (calc_level nodes merkle_from merkle_to next_pot len merkles)

  pub build_merkle_tree_store : List Node → List Hash
  build_merkle_tree_store [] = []
  build_merkle_tree_store (n ∷ ns) =
      let len = length (n ∷ ns) in
      let next_pot = next_power_of_two len in
      if next_pot * 2 - 1 == 1
      then n.hash ∷ []
      else build_levels (suc (ceil_log2 len)) (n ∷ ns) 0 next_pot len
          (replicate (next_pot - 1) zero_hash)
