-- ===== src/Data/Read.antt =====
-- The readers of subtree_data.go. A loop recurses on the number of rounds that are left; the one of
-- `serializeFromReader`, which ends where the input does, recurses on fuel.
pub mod Ends
pub mod RoundTrip
pub mod Chunks
pub mod Calls
pub mod Overwrites
use go_subtree.Prelude.{
  ℕ, zero, suc, ◌+◌, ◌-◌, ◌*◌, Bool, true, false, not, ◌&&◌, Option, none, some, List, [], ◌∷◌,
  ◌++◌, ℤ, pos, negsuc, ltb, ltz, ◌==◌, if◌then◌else◌, length, get_elem?, set, replicate,
}
use go_subtree.Errors.{
  Result, ok, err, panic, ◌>>=◌, cannot_serialize_subtree_not_set, tx_index_out_of_bounds,
  subtree_nodes_empty, tx_hash_mismatch, subtree_length_mismatch, transaction_nil,
  transaction_write, transaction_read, read_from_failed,
}
use go_subtree.Hash.{Bytes, Hash, coinbase_placeholder, Platform}
use go_subtree.Node.{Node}
use go_subtree.Subtree.{Subtree, size}
use go_subtree.Bt.{Bt, Writer, TxRead, read_tx, at_end, failed}
use go_subtree.Data.{Data, is_placeholder, first_is_placeholder, skips, start_index}

module _ (platform : Platform) (bt : Bt) where
  open bt use {Tx, tx_id, is_coinbase, read_from}

  -- The loop of `ReadTransactionChunk`, from an index that is not negative.
  pub read_chunk : ℕ → ℕ → List Node → List Tx → Bytes → Result (Unit {0}) × List Tx × Bytes
  read_chunk zero i nodes txs input = (ok tt, txs, input)
  read_chunk (suc k) i nodes txs input = elim (get_elem? nodes i) [
    | none ↦ (ok tt, txs, input)
    | some n ↦ elim (i == 0 && is_placeholder platform bt n) [
      | true ↦ read_chunk k (suc i) nodes txs input
      | false ↦
          let (r, rest) = read_from input in
          elim r [
            | at_end ↦ (ok tt, txs, rest)
            | failed ↦ (err transaction_read, txs, rest)
            | read_tx tx ↦ elim (platform.equal n.hash (tx_id tx)) [
              | true ↦ read_chunk k (suc i) nodes (txs ++ tx ∷ []) rest
              | false ↦ (err tx_hash_mismatch, txs, rest)
            ]
          ]
    ]
  ]

  -- The first round at a negative index: the access that follows the reading panics.
  pub read_below : Bytes → Result (Unit {0}) × Bytes
  read_below input =
      let (r, rest) = read_from input in
      elim r [
        | at_end ↦ (ok tt, rest)
        | failed ↦ (err transaction_read, rest)
        | read_tx tx ↦ (panic, rest)
      ]

  -- `make` panics on a capacity that is negative or too large; a pointer takes 8 bytes.
  pub read_transaction_chunk : Bytes → Option Subtree → ℤ → ℤ → Result (Unit {0}) × List Tx × Bytes
  read_transaction_chunk input none start count = (err subtree_nodes_empty, [], input)
  read_transaction_chunk input (some s) start (negsuc c) =
      if length s.nodes == 0 then (err subtree_nodes_empty, [], input) else (panic, [], input)
  read_transaction_chunk input (some s) (pos i) (pos c) =
      if length s.nodes == 0
      then (err subtree_nodes_empty, [], input)
      else if ltb platform.max_alloc (c * 8)
      then (panic, [], input)
      else read_chunk c i s.nodes [] input
  read_transaction_chunk input (some s) (negsuc i) (pos c) =
      if length s.nodes == 0
      then (err subtree_nodes_empty, [], input)
      else if ltb platform.max_alloc (c * 8)
      then (panic, [], input)
      else if c == 0
      then (ok tt, [], input)
      else let (r, rest) = read_below input in (r, [], rest)

  -- The loop of `ReadTransactionsFromReader`, from an index that is not negative, over a list of nodes
  -- that is not empty: how it ends, the number of transactions read, and the transactions.
  pub read_range :
      ℕ
      → ℕ
      → List Node
      → List (Option Tx)
      → ℕ
      → Bytes
      → Result (Unit {0}) × ℕ × List (Option Tx) × Bytes
  read_range zero i nodes txs count input = (ok tt, count, txs, input)
  read_range (suc k) i nodes txs count input = elim (skips platform bt i nodes) [
    | panic ↦ (panic, count, txs, input)
    | err e ↦ (err e, count, txs, input)
    | ok skip ↦ elim skip [
      | true ↦ read_range k (suc i) nodes txs count input
      | false ↦
          let (r, rest) = read_from input in
          elim r [
            | at_end ↦ (ok tt, count, txs, rest)
            | failed ↦ (err transaction_read, count, txs, rest)
            | read_tx tx ↦ elim (get_elem? nodes i) [
              | none ↦ (panic, count, txs, rest)
              | some n ↦ elim (platform.equal n.hash (tx_id tx)) [
                | false ↦ (err tx_hash_mismatch, count, txs, rest)
                | true ↦ elim (ltb i (length txs)) [
                  | true ↦ read_range k (suc i) nodes (set txs i (some tx)) (suc count) rest
                  | false ↦ (panic, count, txs, rest)
                ]
              ]
            ]
          ]
    ]
  ]

  -- `ReadTransactionsFromReader` on a subtree with nodes.
  pub read_into : Data bt → List Node → ℤ → ℤ → Bytes → Result (Unit {0}) × ℕ × Data bt × Bytes
  read_into d nodes (negsuc i) end input =
      if ltz (negsuc i) end
      then (let (r, rest) = read_below input in (r, 0, d, rest))
      else (ok tt, 0, d, input)
  read_into d nodes (pos i) (negsuc e) input = (ok tt, 0, d, input)
  read_into d nodes (pos i) (pos e) input =
      let (r, count, txs, rest) = read_range (e - i) i nodes d.txs 0 input in
      (r, count, record d { txs = txs }, rest)

  pub read_transactions_from_reader :
      Data bt → Bytes → ℤ → ℤ → Result (Unit {0}) × ℕ × Data bt × Bytes
  read_transactions_from_reader d input start end = elim d.subtree [
    | none ↦ (err subtree_nodes_empty, 0, d, input)
    | some s ↦
        if length s.nodes == 0
        then (err subtree_nodes_empty, 0, d, input)
        else read_into d s.nodes start end input
  ]

  -- The loop of `serializeFromReader`; `none` where the fuel does not last.
  pub read_rest :
      ℕ → ℕ → List Node → List (Option Tx) → Bytes → Option (Result (Unit {0}) × List (Option Tx))
  read_rest zero i nodes txs input = none
  read_rest (suc fuel) i nodes txs input =
      let (r, rest) = read_from input in
      elim r [
        | at_end ↦ some (ok tt, txs)
        | failed ↦ some (err read_from_failed, txs)
        | read_tx tx ↦ elim (i == 1 && is_coinbase tx) [
          | true ↦ read_rest fuel i nodes (set txs 0 (some tx)) rest
          | false ↦ elim (get_elem? nodes i) [
            | none ↦ some (err tx_index_out_of_bounds, txs)
            | some n ↦ elim (platform.equal n.hash (tx_id tx)) [
              | false ↦ some (err tx_hash_mismatch, txs)
              | true ↦ read_rest fuel (suc i) nodes (set txs i (some tx)) rest
            ]
          ]
        ]
      ]

  -- On a subtree whose first node is there; the fuel is one more than the bytes of the input.
  pub load_nodes : List Node → Result Bool → Bytes → Option (Result (Unit {0}) × List (Option Tx))
  load_nodes nodes panic input = some (err subtree_nodes_empty, [])
  load_nodes nodes (err e) input = some (err e, [])
  load_nodes nodes (ok skip) input =
      read_rest (suc (length input)) (start_index skip) nodes (replicate (length nodes) none) input

  pub data_loaded : Option Subtree → Result (Unit {0}) × List (Option Tx) → Result (Data bt)
  data_loaded s (ok done, txs) = ok (record { subtree = s; txs = txs })
  data_loaded s (err e, txs) = err e
  data_loaded s (panic, txs) = panic

  -- `NewSubtreeDataFromBytes` and `NewSubtreeDataFromReader`.
  pub new_subtree_data_from_reader : Option Subtree → Bytes → Option (Result (Data bt))
  new_subtree_data_from_reader none input = some (err subtree_nodes_empty)
  new_subtree_data_from_reader (some s) input =
      elim (load_nodes s.nodes (first_is_placeholder platform bt s.nodes) input) [
        | none ↦ none
        | some out ↦ some (data_loaded (some s) out)
      ]
