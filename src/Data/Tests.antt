-- ===== src/Data/Tests.antt =====
-- Runs of the subtree data, on transactions of one byte and a writer that keeps everything.
use go_subtree.Prelude.{◌≡◌, refl, Bool, true, false, none, some, [], ◌∷◌, ◌++◌, pos}
use go_subtree.Errors.{Result, ok, err, tx_hash_mismatch, subtree_length_mismatch}
use go_subtree.Hash.{Bytes, hash_eq, coinbase_placeholder}
use go_subtree.Hash.Sample.{sample}
use go_subtree.Subtree.{Subtree}
use go_subtree.Subtree.Sample.{node_a, node_b, two_nodes, tree_of}
use go_subtree.Bt.{Writer}
use go_subtree.Bt.Sample.{sample_bt}
use go_subtree.Data.{
  Data, new_subtree_data, is_placeholder, first_is_placeholder, add_tx_at, add_tx, check_txs,
  serialize_data,
}
use go_subtree.Data.Complete.{IsComplete}
use go_subtree.Data.Placed.{IsPlacedData}
use go_subtree.Data.Write.{write_transaction_chunk, write_transactions_to_writer}
use go_subtree.Data.Write.Complete.{NeverFails, Writes, write_transactions_to_writer-serialize_data}
use go_subtree.Data.Read.{
  new_subtree_data_from_reader, read_transaction_chunk, read_transactions_from_reader,
}
use go_subtree.Data.Read.Ends.{new_subtree_data_from_reader_ends}
use go_subtree.Data.Read.RoundTrip.{new_subtree_data_from_reader-serialize_data}
use go_subtree.Data.Read.Chunks.{IsPrefix, wanted, read_transaction_chunk-IsPrefix}
use go_subtree.Data.Read.Calls.{made, added, read, Reached-IsPlacedData}
use go_subtree.Data.Read.Overwrites.{new_subtree_data_from_reader_overwrites}

abbrev pub kept : Bytes → Bytes → Bool × Bytes
kept sink b = (true, sink ++ b)

abbrev keeper : Writer sample_bt
keeper = record {
  Sink = Bytes;
  written = λ sink. sink;
  write = kept;
  serialize_to = λ tx sink. (true, sink ++ tx ∷ []);
  write_lem = λ sink b e. refl;
  serialize_to_lem = λ tx sink e. refl;
}

-- The placeholder stands before two nodes.
abbrev with_placeholder : Subtree
with_placeholder =
    tree_of
      (record { hash = coinbase_placeholder; fee = 0; size_in_bytes = 0 } ∷ node_a ∷ node_b ∷ []) 11
      300

abbrev full : Data sample_bt
full = record { subtree = some with_placeholder; txs = some 0 ∷ some 7 ∷ some 9 ∷ [] }

full-IsComplete : IsComplete sample sample_bt with_placeholder true (7 ∷ 9 ∷ []) full
unfolding first_is_placeholder is_placeholder coinbase_placeholder hash_eq
full-IsComplete = record {
  first = some 0 ∷ [];
  more = [];
  has_subtree = refl;
  has_placeholder = refl;
  one = refl;
  split = refl;
  as_many = refl;
}

never_fails : NeverFails sample sample_bt keeper
never_fails = record { write = λ sink b. refl; serialize_to = λ tx sink. refl }

missing_tx :
    serialize_data sample sample_bt (record { subtree = some two_nodes; txs = some 7 ∷ none ∷ [] })
    ≡ err subtree_length_mismatch
unfolding serialize_data first_is_placeholder is_placeholder coinbase_placeholder hash_eq check_txs
missing_tx = refl

wrong_tx :
    (add_tx sample sample_bt (new_subtree_data sample sample_bt two_nodes) 8 (pos 1)).0
    ≡ err tx_hash_mismatch
unfolding add_tx add_tx_at new_subtree_data is_placeholder coinbase_placeholder hash_eq
wrong_tx = refl

write_transactions_to_writer-serialize_data_example :
    (b : Bytes) × (serialize_data sample sample_bt full ≡ ok b)
    × Writes sample sample_bt keeper [] b
        (write_transactions_to_writer sample sample_bt keeper full [] (pos 0) (pos 3))
    × Writes sample sample_bt keeper [] b
        (write_transaction_chunk sample sample_bt keeper [] (some 7 ∷ some 9 ∷ []))
write_transactions_to_writer-serialize_data_example =
    write_transactions_to_writer-serialize_data sample sample_bt keeper with_placeholder true
      (7 ∷ 9 ∷ []) full [] full-IsComplete never_fails

new_subtree_data_from_reader-serialize_data_example :
    (b : Bytes) × (serialize_data sample sample_bt full ≡ ok b)
    × (new_subtree_data_from_reader sample sample_bt (some with_placeholder) b
        ≡ some (ok (record { subtree = some with_placeholder; txs = none ∷ some 7 ∷ some 9 ∷ [] })))
new_subtree_data_from_reader-serialize_data_example =
    new_subtree_data_from_reader-serialize_data sample sample_bt with_placeholder true
      (record { hash = coinbase_placeholder; fee = 0; size_in_bytes = 0 } ∷ [])
      (node_a ∷ node_b ∷ []) (7 ∷ 9 ∷ []) full full-IsComplete refl refl
      (refl, refl, (λ rest. refl), (refl, refl, (λ rest. refl), tt))

new_subtree_data_from_reader_ends_example :
    (out : Result (Data sample_bt)) × (new_subtree_data_from_reader sample sample_bt
        (some two_nodes)
        (7 ∷ 9 ∷ [])
      ≡ some out)
new_subtree_data_from_reader_ends_example =
    new_subtree_data_from_reader_ends sample sample_bt (some two_nodes) (7 ∷ 9 ∷ [])

read_transaction_chunk-IsPrefix_example :
    IsPrefix sample sample_bt 1
      (wanted sample sample_bt 1 two_nodes.nodes)
      (read_transaction_chunk sample sample_bt (9 ∷ 7 ∷ []) (some two_nodes) (pos 1) (pos 1)).1
read_transaction_chunk-IsPrefix_example =
    read_transaction_chunk-IsPrefix sample sample_bt two_nodes 1 1 (9 ∷ 7 ∷ [])

abbrev two_calls : Data sample_bt
two_calls =
    (read_transactions_from_reader sample sample_bt
      (add_tx sample sample_bt (new_subtree_data sample sample_bt two_nodes) 7 (pos 0)).1
      (9 ∷ 8 ∷ []) (pos 1) (pos 3)).2

Reached-IsPlacedData_example : IsPlacedData sample sample_bt two_calls
Reached-IsPlacedData_example =
    Reached-IsPlacedData sample sample_bt two_calls
      (read (9 ∷ 8 ∷ []) (pos 1) (pos 3) (added 7 (pos 0) (made two_nodes)))

no_placeholder : is_placeholder sample sample_bt node_a ≡ false
unfolding is_placeholder coinbase_placeholder hash_eq
no_placeholder = refl

new_subtree_data_from_reader_overwrites_example :
    new_subtree_data_from_reader sample sample_bt (some two_nodes) (7 ∷ 0 ∷ 9 ∷ [])
    ≡ some (ok (record { subtree = some two_nodes; txs = some 0 ∷ some 9 ∷ [] }))
new_subtree_data_from_reader_overwrites_example =
    new_subtree_data_from_reader_overwrites sample sample_bt two_nodes node_a node_b 7 0 9 refl
      no_placeholder refl refl refl refl (λ rest. refl) (λ rest. refl) (λ rest. refl)
