-- ===== src/Meta/Tests.antt =====
-- Runs of the metadata, on the tree of two nodes and the sample transactions.
use go_subtree.Prelude.{
  ℕ, ◌≤◌, ◌≡◌, ◌≢◌, refl, arith, some, none-ne-some, List, [], ◌∷◌, ◌++◌, length, pos, negsuc,
  replicate,
}
use go_subtree.Errors.{ok, err, panic, cannot_serialize_subtree_not_set}
use go_subtree.Hash.{Bytes, Hash, zero_hash}
use go_subtree.Hash.Sample.{sample, digest, digest-IsHash}
use go_subtree.Bt.Sample.{sample_bt}
use go_subtree.Merkle.Reference.{merkle_root, hashes, length-merkle_root}
use go_subtree.Subtree.{size}
use go_subtree.Subtree.Sample.{
  two_nodes, two_nodes-Reachable, sample-NeverZero, node_a-IsNonzero, node_b-IsNonzero,
}
use go_subtree.Subtree.Root.{root_hash}
use go_subtree.Subtree.Root.Evolved.{by_calls}
use go_subtree.Subtree.Root.Valid.{root_hash-merkle_root}
use go_subtree.Subtree.Index.Laws.{IsIndexed}
use go_subtree.Inpoints.{Inpoint, TxInpoints, zero_inpoints, get_tx_inpoints}
use go_subtree.Inpoints.Groups.{Group}
use go_subtree.Meta.{
  Meta, inpoints_at, meta_tx_inpoints, set_tx_inpoints, set_tx_inpoints_from_tx, check_parents,
  serialize_meta, new_subtree_meta_from_bytes,
}
use go_subtree.Meta.RoundTrip.{IsMeta, meta_read, new_subtree_meta_from_bytes-serialize_meta}
use go_subtree.Meta.Again.{serialize_meta-new_subtree_meta_from_bytes}
use go_subtree.Meta.Set.{Stores, set_tx_inpoints_lem, set_tx_inpoints_from_tx-Stores}

abbrev parent : Hash
parent = digest (3 ∷ [])

abbrev groups : List (List Group)
groups = [] ∷ ((parent, 4 ∷ []) ∷ []) ∷ []

abbrev one_parent : TxInpoints
one_parent = record {
  parent_tx_hashes = some (parent ∷ []);
  vout_idxs = 1 ∷ 4 ∷ [];
  subtree_index = pos 0;
}

abbrev meta : Meta
meta = record {
  subtree = some two_nodes;
  tx_inpoints = zero_inpoints ∷ one_parent ∷ zero_inpoints ∷ zero_inpoints ∷ [];
  root_hash = zero_hash;
}

-- A node behind the first whose parents are a nil slice.
no_parents :
    check_parents 2 0 (one_parent ∷ zero_inpoints ∷ []) ≡ err cannot_serialize_subtree_not_set
unfolding check_parents
no_parents = refl

negative_index : inpoints_at meta (negsuc 0) ≡ panic
unfolding inpoints_at
negative_index = refl

has_root : (root_hash sample two_nodes).0 ≡ some (merkle_root sample (hashes two_nodes.nodes))
has_root =
    root_hash-merkle_root sample (by_calls two_nodes-Reachable) (omega arith) sample-NeverZero
      (node_a-IsNonzero, (node_b-IsNonzero, tt))

abbrev root : Hash
root = merkle_root sample (hashes two_nodes.nodes)

meta-IsMeta : IsMeta sample two_nodes root groups meta
meta-IsMeta = record {
  qs = zero_inpoints ∷ one_parent ∷ [];
  more = zero_inpoints ∷ zero_inpoints ∷ [];
  has_subtree = refl;
  split = refl;
  as_many = refl;
  groups = refl;
  few = omega arith;
  packs = (record { parents = refl; words = refl }, (record { parents = refl; words = refl }, tt));
  writable = (
    record { parents = tt; words = tt; few = omega arith; room = omega arith },
    (
      record {
        parents = (digest-IsHash (3 ∷ []), tt);
        words = (omega arith, (omega arith, tt));
        few = omega arith;
        room = omega arith;
      },
      tt,
    ),
  );
  have_parents = ((parent ∷ [], refl), tt);
  has_root = has_root;
  root_size = length-merkle_root sample (hashes two_nodes.nodes) (omega arith) (refl, (refl, tt));
}

room : length two_nodes.nodes ≤ size two_nodes
unfolding size
room = omega arith

new_subtree_meta_from_bytes-serialize_meta_example :
    (b : Bytes) × ((serialize_meta sample meta).0 ≡ ok b)
    × (new_subtree_meta_from_bytes sample (some two_nodes) (b ++ 8 ∷ [])
        ≡ ok (meta_read two_nodes root groups))
new_subtree_meta_from_bytes-serialize_meta_example =
    new_subtree_meta_from_bytes-serialize_meta sample two_nodes two_nodes root groups meta (8 ∷ [])
      meta-IsMeta room

set_tx_inpoints_lem_example :
    (m' : Meta) × (set_tx_inpoints meta (pos 0) one_parent ≡ ok m')
    × (meta_tx_inpoints m' (pos 0) ≡ get_tx_inpoints one_parent)
    × ((j : ℕ) → j ≢ 0 → inpoints_at m' (pos j) ≡ inpoints_at meta (pos j))
    × (m'.subtree ≡ some two_nodes)
    × (m'.root_hash ≡ zero_hash)
set_tx_inpoints_lem_example = set_tx_inpoints_lem meta 0 one_parent (omega arith)

unindexed : IsIndexed two_nodes
unindexed m e = absurd (none-ne-some e)

abbrev spent : List Inpoint
spent =
    record { hash = digest (1 ∷ []); index = 3 }
    ∷ record { hash = digest (2 ∷ []); index = 0 }
    ∷ record { hash = digest (1 ∷ []); index = 5 }
    ∷ []

set_tx_inpoints_from_tx-Stores_example :
    Stores meta two_nodes (replicate 32 9) spent (set_tx_inpoints_from_tx sample_bt meta 9)
set_tx_inpoints_from_tx-Stores_example =
    set_tx_inpoints_from_tx-Stores sample_bt meta two_nodes 9 spent refl unindexed
      (refl, refl, (refl, refl, (refl, refl, tt))) (omega arith)

-- The second node has an empty slice of parents, which is not nil.
abbrev orphan : TxInpoints
orphan = record { parent_tx_hashes = some []; vout_idxs = []; subtree_index = pos 0 }

abbrev orphans : Meta
orphans = record {
  subtree = some two_nodes;
  tx_inpoints = zero_inpoints ∷ orphan ∷ zero_inpoints ∷ zero_inpoints ∷ [];
  root_hash = zero_hash;
}

orphans-IsMeta : IsMeta sample two_nodes root ([] ∷ [] ∷ []) orphans
orphans-IsMeta = record {
  qs = zero_inpoints ∷ orphan ∷ [];
  more = zero_inpoints ∷ zero_inpoints ∷ [];
  has_subtree = refl;
  split = refl;
  as_many = refl;
  groups = refl;
  few = omega arith;
  packs = (record { parents = refl; words = refl }, (record { parents = refl; words = refl }, tt));
  writable = (
    record { parents = tt; words = tt; few = omega arith; room = omega arith },
    (record { parents = tt; words = tt; few = omega arith; room = omega arith }, tt),
  );
  have_parents = (([], refl), tt);
  has_root = has_root;
  root_size = length-merkle_root sample (hashes two_nodes.nodes) (omega arith) (refl, (refl, tt));
}

serialize_meta-new_subtree_meta_from_bytes_example :
    (b : Bytes) × (m' : Meta) × ((serialize_meta sample orphans).0 ≡ ok b)
    × (new_subtree_meta_from_bytes sample (some two_nodes) (b ++ 8 ∷ []) ≡ ok m')
    × ((serialize_meta sample m').0 ≡ err cannot_serialize_subtree_not_set)
serialize_meta-new_subtree_meta_from_bytes_example =
    serialize_meta-new_subtree_meta_from_bytes sample two_nodes two_nodes root [] [] [] orphans
      (8 ∷ []) orphans-IsMeta refl room
