-- ===== src/Meta.antt =====
-- subtree_meta.go. `none` stands for a nil subtree; a method that changes the metadata, or the
-- subtree that they point to, returns the metadata on every path. The memory that `make` takes for
-- the inpoints is not limited here.
pub mod RoundTrip
mod Tests
pub mod Set
pub mod Again
use go_subtree.Prelude.{
  ℕ, zero, suc, Bool, true, false, Option, none, some, List, [], ◌∷◌, ◌++◌, ℤ, pos, negsuc, ltb,
  ◌==◌, if◌then◌else◌, length, get_elem?, set, replicate,
}
use go_subtree.Errors.{
  Result, ok, err, panic, ◌>>=◌, index_out_of_range, node_not_found, conversion_failed,
  cannot_serialize_subtree_not_set, Stage,
}
use go_subtree.Hash.{Bytes, Hash, zero_hash, Platform}
use go_subtree.Subtree.{Subtree, size}
use go_subtree.Subtree.Root.{root_hash}
use go_subtree.Subtree.Index.{node_index}
use go_subtree.Reader.{Progress, and_then, put_u32, read_full, read_u32}
use go_subtree.Bt.{Bt}
use go_subtree.Inpoints.{
  Inpoint, TxInpoints, zero_inpoints, get_tx_inpoints, serialize_inpoints, new_tx_inpoints_from_tx,
  new_tx_inpoints_from_reader,
}

pub record Meta : Type 0 where
  pub subtree : Option Subtree
  pub tx_inpoints : List TxInpoints
  pub root_hash : Hash

-- On a subtree that is not nil.
pub new_subtree_meta : Subtree → Meta
new_subtree_meta s = record {
  subtree = some s;
  tx_inpoints = replicate (size s) zero_inpoints;
  root_hash = zero_hash;
}

-- `s.TxInpoints[index]` behind its guard, which a negative index passes.
pub inpoints_at : Meta → ℤ → Result TxInpoints
inpoints_at m (negsuc i) = panic
inpoints_at m (pos i) = elim (get_elem? m.tx_inpoints i) [
  | none ↦ err index_out_of_range
  | some p ↦ ok p
]

pub meta_parent_tx_hashes : Meta → ℤ → Result (Option (List Hash))
meta_parent_tx_hashes m i = do p ← inpoints_at m i; ok p.parent_tx_hashes

pub meta_tx_inpoints : Meta → ℤ → Result (List Inpoint)
meta_tx_inpoints m i = do p ← inpoints_at m i; get_tx_inpoints p

pub set_tx_inpoints : Meta → ℤ → TxInpoints → Result Meta
set_tx_inpoints m (negsuc i) p = panic
set_tx_inpoints m (pos i) p =
    if ltb i (length m.tx_inpoints)
    then ok (record m { tx_inpoints = set m.tx_inpoints i p })
    else err index_out_of_range

-- `s.TxInpoints[index] = p`, without a guard.
pub store_at : Meta → ℕ → Result TxInpoints → Result (Unit {0}) × Meta
store_at m i (ok p) =
    if ltb i (length m.tx_inpoints)
    then (ok tt, record m { tx_inpoints = set m.tx_inpoints i p })
    else (panic, m)
store_at m i (err e) = (err e, m)
store_at m i panic = (panic, m)

-- `SetTxInpointsFromTx` after the call of `NodeIndex`.
pub store_found : Meta → ℤ → Result TxInpoints → Result (Unit {0}) × Meta
store_found m (negsuc i) p = if i == 0 then (err node_not_found, m) else (panic, m)
store_found m (pos i) p = store_at m i p

pub set_tx_inpoints_from_tx : (bt : Bt) → Meta → bt.Tx → Result (Unit {0}) × Meta
set_tx_inpoints_from_tx bt m tx = elim m.subtree [
  | none ↦ (panic, m)
  | some s ↦
      let (i, s') = node_index s (bt.tx_id tx) in
      store_found (record m { subtree = some s' }) i (new_tx_inpoints_from_tx bt tx)
]

-- The loop that looks for a node without parents; node 0 may have none.
pub check_parents : ℕ → ℕ → List TxInpoints → Result (Unit {0})
check_parents zero i ps = ok tt
check_parents (suc k) i ps = elim (i == 0) [
  | true ↦ check_parents k (suc i) ps
  | false ↦ elim (get_elem? ps i) [
    | none ↦ panic
    | some p ↦ elim p.parent_tx_hashes [
      | none ↦ err cannot_serialize_subtree_not_set
      | some hs ↦ check_parents k (suc i) ps
    ]
  ]
]

-- The loop of `serializeTxInpoints`.
pub inpoints_bytes : ℕ → ℕ → List TxInpoints → Result Bytes
inpoints_bytes zero i ps = ok []
inpoints_bytes (suc k) i ps = elim (get_elem? ps i) [
  | none ↦ panic
  | some p ↦ do b ← serialize_inpoints p; rest ← inpoints_bytes k (suc i) ps; ok (b ++ rest)
]

-- A pointer that is dereferenced.
pub deref {ℓ} : {A : Type ℓ} → Option A → Result A
deref none = panic
deref (some a) = ok a

pub read_meta_root : Meta → Bytes → Progress Meta
read_meta_root m input = elim (read_full Stage.root_hash 32 input) [
  | ok (h, rest) ↦ (ok rest, record m { root_hash = h })
  | err e ↦ (err e, m)
  | panic ↦ (panic, m)
]

pub meta_loaded : Progress Meta → Result Meta
meta_loaded (ok rest, m) = ok m
meta_loaded (err e, m) = err e
meta_loaded (panic, m) = panic

module _ (platform : Platform) where
  pub serialize_tx_inpoints : ℕ → List TxInpoints → Result Bytes
  serialize_tx_inpoints n ps = elim (platform.int_to_uint32 n) [
    | none ↦ err conversion_failed
    | some count ↦ do b ← inpoints_bytes count 0 ps; ok (put_u32 count ++ b)
  ]

  -- `Serialize` once `RootHash` has returned, and the assignment of the root.
  pub write_meta : Meta → ℕ → Result Hash → Result Bytes × Meta
  write_meta m n (ok root) =
      (do b ← serialize_tx_inpoints n m.tx_inpoints; ok (root ++ b), record m { root_hash = root })
  write_meta m n (err e) = (err e, m)
  write_meta m n panic = (panic, m)

  pub serialize_meta : Meta → Result Bytes × Meta
  serialize_meta m = elim m.subtree [
    | none ↦ (err cannot_serialize_subtree_not_set, m)
    | some s ↦ elim (check_parents (length s.nodes) 0 m.tx_inpoints) [
      | ok done ↦
          let (root, s') = root_hash platform s in
          write_meta (record m { subtree = some s' }) (length s.nodes) (deref root)
      | err e ↦ (err e, m)
      | panic ↦ (panic, m)
    ]
  ]

  -- The loop of `deserializeTxInpointsFromReader`; a write past the end panics.
  pub read_inpoints : ℕ → ℕ → Bytes → List TxInpoints → Progress (List TxInpoints)
  read_inpoints zero i input ps = (ok input, ps)
  read_inpoints (suc k) i input ps =
      let (r, p) = new_tx_inpoints_from_reader platform input in
      elim r [
        | ok rest ↦ elim (ltb i (length ps)) [
          | true ↦ read_inpoints k (suc i) rest (set ps i p)
          | false ↦ (panic, ps)
        ]
        | err e ↦ (err e, ps)
        | panic ↦ (panic, ps)
      ]

  pub fill_inpoints : Meta → ℕ → Bytes → Progress Meta
  fill_inpoints m n input = elim m.subtree [
    | none ↦ (panic, m)
    | some s ↦
        let (r, ps) = read_inpoints n 0 input (replicate (size s) zero_inpoints) in
        (r, record m { tx_inpoints = ps })
  ]

  pub deserialize_meta : Meta → Bytes → Progress Meta
  deserialize_meta m input =
      and_then (read_meta_root m input) (λ q. read_u32 Stage.num_inpoints (fill_inpoints q) q)

  pub new_subtree_meta_from_bytes : Option Subtree → Bytes → Result Meta
  new_subtree_meta_from_bytes s input =
      meta_loaded
        (deserialize_meta (record { subtree = s; tx_inpoints = []; root_hash = zero_hash }) input)

  pub new_subtree_meta_from_reader : Option Subtree → Bytes → Result Meta
  new_subtree_meta_from_reader none input = panic
  new_subtree_meta_from_reader (some s) input =
      meta_loaded (deserialize_meta (new_subtree_meta s) input)
