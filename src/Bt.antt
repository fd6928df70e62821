-- ===== src/Bt.antt =====
-- What the package uses of transactions, which are go-bt's. A method of go-bt that returns a pointer
-- may return nil, which is `none`.
pub mod Sample
use go_subtree.Prelude.{
  ℕ, ◌^◌, ◌<◌, ◌≡◌, List, [], ◌++◌, ◌⊎◌, inl, inr, refl, Bool, true, Option, some, length,
}
use go_subtree.Errors.{Result}
use go_subtree.Hash.{Bytes, Hash, IsHash}

-- How `tx.ReadFrom` ends: with a transaction, with an error that is `io.EOF`, or with another one.
pub data TxRead (Tx : Type 0) : Type 0 where
  read_tx : Tx → TxRead Tx
  at_end : TxRead Tx
  failed : TxRead Tx

pub TxRead-cases :
    {Tx : Type 0} (r : TxRead Tx) → (r ≡ at_end) ⊎ ((r ≡ failed) ⊎ ((tx : Tx) × (r ≡ read_tx tx)))
TxRead-cases (read_tx tx) = inr (inr (tx, refl))
TxRead-cases at_end = inl refl
TxRead-cases failed = inr (inl refl)

-- `tx_id` is `*tx.TxIDChainHash()`; `previous_tx_id` and `previous_tx_out_index` are
-- `PreviousTxIDChainHash` and the field `PreviousTxOutIndex`, a uint32, of an input; `new_tx` is `NewTx`, and
-- the next two assign the fields `Version` and `LockTime`; `serialize_nil`
-- is what `SerializeBytes` does on a nil transaction. `read_from` returns what is left of the input;
-- a transaction takes at least one byte of it.
pub record Bt : Type 1 where
  pub Tx : Type 0
  pub Input : Type 0
  pub tx_id : Tx → Hash
  pub inputs : Tx → List Input
  pub previous_tx_id : Input → Option Hash
  pub previous_tx_id-IsHash : (i : Input) (h : Hash) → previous_tx_id i ≡ some h → IsHash h
  pub previous_tx_out_index : Input → ℕ
  pub previous_tx_out_index-lt : (i : Input) → previous_tx_out_index i < 2 ^ 32
  pub is_coinbase : Tx → Bool
  pub new_tx : Tx
  pub set_version : ℕ → Tx → Tx
  pub set_lock_time : ℕ → Tx → Tx
  pub serialize_bytes : Tx → Bytes
  pub serialize_nil : Result Bytes
  pub read_from : Bytes → TxRead Tx × Bytes
  pub read_from_nil : (read_from []).0 ≡ at_end
  pub read_from-shorter :
      (input : Bytes) (tx : Tx)
      → (read_from input).0 ≡ read_tx tx
      → length (read_from input).1 < length input

-- An `io.Writer` with its state: what has been written to it, `Write`, and `SerializeTo` of go-bt,
-- with `true` for no error.
pub record Writer (bt : Bt) : Type 1 where
  pub Sink : Type 0
  pub written : Sink → Bytes
  pub write : Sink → Bytes → Bool × Sink
  pub serialize_to : bt.Tx → Sink → Bool × Sink
  pub write_lem :
      (s : Sink) (b : Bytes) → (write s b).0 ≡ true → written (write s b).1 ≡ written s ++ b
  pub serialize_to_lem :
      (tx : bt.Tx) (s : Sink)
      → (serialize_to tx s).0 ≡ true
      → written (serialize_to tx s).1 ≡ written s ++ bt.serialize_bytes tx
