-- ===== src/Data.antt =====
-- subtree_data.go: the state, `AddTx` and `Serialize`. Data/Write streams transactions out, Data/Read
-- reads them. `none` stands for a nil subtree and for a nil transaction. A reader returns what is
-- left of the input, and a call that fails half-way returns what it has stored so far.
pub mod Write
pub mod Read
pub mod Complete
pub mod Placed
mod Tests
use go_subtree.Prelude.{
  ℕ, zero, suc, ◌+◌, ◌-◌, ◌*◌, Bool, true, false, not, ◌&&◌, Option, none, some, List, [], ◌∷◌,
  ◌++◌, ℤ, pos, negsuc, ltb, ltz, ◌==◌, if◌then◌else◌, length, get_elem?, set, replicate,
}
use go_subtree.Errors.{
  Result, ok, err, panic, ◌>>=◌, cannot_serialize_subtree_not_set, tx_index_out_of_bounds,
  subtree_nodes_empty, tx_hash_mismatch, subtree_length_mismatch, transaction_nil,
  transaction_write, transaction_read, read_from_failed,
}
use go_subtree.Hash.{Bytes, Hash, coinbase_placeholder, Platform}
use go_subtree.Node.{Node}
use go_subtree.Subtree.{Subtree, size}
use go_subtree.Subtree.Root.{root_hash}
use go_subtree.Bt.{Bt, Writer, TxRead, read_tx, at_end, failed}

pub record Data (bt : Bt) : Type 0 where
  pub subtree : Option Subtree
  pub txs : List (Option bt.Tx)

-- `txStartIndex`.
abbrev pub start_index : Bool → ℕ
start_index skip = if skip then 1 else 0

module _ (platform : Platform) (bt : Bt) where
  open bt use {Tx, tx_id, is_coinbase, serialize_bytes, serialize_nil, read_from}

  -- On a subtree that is not nil.
  pub new_subtree_data : Subtree → Data bt
  new_subtree_data s = record { subtree = some s; txs = replicate (size s) none }

  pub data_root_hash : Data bt → Option Hash × Data bt
  data_root_hash d = elim d.subtree [
    | none ↦ (none, d)
    | some s ↦ let (h, s') = root_hash platform s in (h, record d { subtree = some s' })
  ]

  pub is_placeholder : Node → Bool
  is_placeholder n = platform.equal n.hash coinbase_placeholder

  -- `Nodes[0].Hash.Equal(...)`.
  pub first_is_placeholder : List Node → Result Bool
  first_is_placeholder [] = panic
  first_is_placeholder (n ∷ ns) = ok (is_placeholder n)

  -- `s.Txs[index] = tx`.
  pub store_tx : Data bt → ℕ → Tx → Result (Unit {0}) × Data bt
  store_tx d i tx =
      if ltb i (length d.txs) then (ok tt, record d { txs = set d.txs i (some tx) }) else (panic, d)

  -- `AddTx` with the node at the index.
  pub add_tx_at : Data bt → Tx → ℕ → Option Node → Result (Unit {0}) × Data bt
  add_tx_at d tx i none = (panic, d)
  add_tx_at d tx i (some n) =
      if i == 0 && (is_coinbase tx && is_placeholder n)
      then store_tx d i tx
      else if not (platform.equal n.hash (tx_id tx))
      then (err tx_hash_mismatch, d)
      else store_tx d i tx

  pub add_tx : Data bt → Tx → ℤ → Result (Unit {0}) × Data bt
  add_tx d tx (negsuc i) = (panic, d)
  add_tx d tx (pos i) = elim d.subtree [
    | none ↦ (panic, d)
    | some s ↦ add_tx_at d tx i (get_elem? s.nodes i)
  ]

  -- The loop of `Serialize` that looks for a missing transaction, with as many rounds as are left.
  pub check_txs : ℕ → ℕ → List (Option Tx) → Result (Unit {0})
  check_txs zero i txs = ok tt
  check_txs (suc k) i txs = elim (get_elem? txs i) [
    | none ↦ panic
    | some (some tx) ↦ check_txs k (suc i) txs
    | some none ↦ elim (i == 0) [
      | true ↦ check_txs k (suc i) txs
      | false ↦ err subtree_length_mismatch
    ]
  ]

  pub tx_bytes : Option Tx → Result Bytes
  tx_bytes none = serialize_nil
  tx_bytes (some tx) = ok (serialize_bytes tx)

  pub txs_bytes : ℕ → ℕ → List (Option Tx) → Result Bytes
  txs_bytes zero i txs = ok []
  txs_bytes (suc k) i txs = elim (get_elem? txs i) [
    | none ↦ panic
    | some t ↦ do b ← tx_bytes t; rest ← txs_bytes k (suc i) txs; ok (b ++ rest)
  ]

  pub serialize_data : Data bt → Result Bytes
  serialize_data d = elim d.subtree [
    | none ↦ err cannot_serialize_subtree_not_set
    | some s ↦ do
      skip ← first_is_placeholder s.nodes
      let start = start_index skip
      done ← check_txs (length s.nodes - start) start d.txs
      txs_bytes (length s.nodes - start) start d.txs
  ]

  -- The test at the head of the loops over a range: the placeholder of the coinbase is left out.
  pub skips : ℕ → List Node → Result Bool
  skips zero nodes = first_is_placeholder nodes
  skips (suc i) nodes = ok false
