-- ===== src/Data/Write.antt =====
-- The writers of subtree_data.go, over an `io.Writer` and its state.
pub mod Complete
use go_subtree.Prelude.{
  ℕ, zero, suc, ◌+◌, ◌-◌, ◌*◌, Bool, true, false, not, ◌&&◌, Option, none, some, List, [], ◌∷◌,
  ◌++◌, ℤ, pos, negsuc, ltb, ltz, ◌==◌, if◌then◌else◌, length, get_elem?, set, replicate,
}
use go_subtree.Errors.{
  Result, ok, err, panic, ◌>>=◌, cannot_serialize_subtree_not_set, tx_index_out_of_bounds,
  subtree_nodes_empty, tx_hash_mismatch, subtree_length_mismatch, transaction_nil,
  transaction_write, transaction_read, read_from_failed,
}
use go_subtree.Hash.{Bytes, Hash, coinbase_placeholder, Platform}
use go_subtree.Node.{Node}
use go_subtree.Subtree.{Subtree, size}
use go_subtree.Bt.{Bt, Writer, TxRead, read_tx, at_end, failed}
use go_subtree.Data.{Data, skips}

module _ (platform : Platform) (bt : Bt) (writer : Writer bt) where
  open bt use {Tx, serialize_bytes}
  open writer use {Sink, write, serialize_to}

  -- `WriteTransactionChunk`.
  pub write_transaction_chunk : Sink → List (Option Tx) → Result (Unit {0}) × Sink
  write_transaction_chunk sink [] = (ok tt, sink)
  write_transaction_chunk sink (none ∷ txs) = write_transaction_chunk sink txs
  write_transaction_chunk sink (some tx ∷ txs) =
      let (fine, sink') = write sink (serialize_bytes tx) in
      elim fine [
        | true ↦ write_transaction_chunk sink' txs
        | false ↦ (err transaction_write, sink')
      ]

  -- The loop of `WriteTransactionsToWriter`, from an index that is not negative.
  pub write_range : ℕ → ℕ → List Node → List (Option Tx) → Sink → Result (Unit {0}) × Sink
  write_range zero i nodes txs sink = (ok tt, sink)
  write_range (suc k) i nodes txs sink = elim (skips platform bt i nodes) [
    | panic ↦ (panic, sink)
    | err e ↦ (err e, sink)
    | ok skip ↦ elim skip [
      | true ↦ write_range k (suc i) nodes txs sink
      | false ↦ elim (get_elem? txs i) [
        | none ↦ (panic, sink)
        | some none ↦ (err transaction_nil, sink)
        | some (some tx) ↦
            let (fine, sink') = serialize_to tx sink in
            elim fine [
              | true ↦ write_range k (suc i) nodes txs sink'
              | false ↦ (err transaction_write, sink')
            ]
      ]
    ]
  ]

  -- With a subtree; a negative index panics.
  pub write_between : Data bt → List Node → Sink → ℤ → ℤ → Result (Unit {0}) × Sink
  write_between d nodes sink (negsuc i) end =
      if ltz (negsuc i) end then (panic, sink) else (ok tt, sink)
  write_between d nodes sink (pos i) (negsuc e) = (ok tt, sink)
  write_between d nodes sink (pos i) (pos e) = write_range (e - i) i nodes d.txs sink

  pub write_transactions_to_writer : Data bt → Sink → ℤ → ℤ → Result (Unit {0}) × Sink
  write_transactions_to_writer d sink start end = elim d.subtree [
    | none ↦ (err cannot_serialize_subtree_not_set, sink)
    | some s ↦ write_between d s.nodes sink start end
  ]
