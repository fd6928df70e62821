-- ===== src/Data/Read/Ends.antt =====
-- `serializeFromReader` comes to an end.
use go_subtree.Prelude.{
  ℕ, zero, suc, ◌<◌, ◌≡◌, refl, arith, Bool, ◌&&◌, Bool-cases, inl, inr, Option, none, some,
  Option-cases, List, ◌==◌, length, get_elem?, set, replicate,
}
use go_subtree.Hash.{Bytes, Platform}
use go_subtree.Node.{Node}
use go_subtree.Subtree.{Subtree}
use go_subtree.Bt.{Bt, TxRead-cases}
use go_subtree.Errors.{
  Result, ok, err, panic, read_from_failed, tx_index_out_of_bounds, tx_hash_mismatch,
}
use go_subtree.Data.{Data, first_is_placeholder, start_index}
use go_subtree.Data.Read.{read_rest, load_nodes, data_loaded, new_subtree_data_from_reader}

module _ (platform : Platform) (bt : Bt) where
  open bt use {Tx, tx_id, is_coinbase, read_from, read_from-shorter}

  -- Any fuel that is more than the bytes of the input is enough.
  pub read_rest_ends :
      (fuel i : ℕ) (nodes : List Node) (txs : List (Option Tx)) (input : Bytes)
      → length input < fuel
      → (out : Result (Unit {0}) × List (Option Tx)) × (read_rest platform bt fuel i nodes txs input
          ≡ some out)
  unfolding read_rest
  read_rest_ends zero i nodes txs input few = absurd (omega arith)
  read_rest_ends (suc fuel) i nodes txs input few = elim (TxRead-cases (read_from input).0) [
    | inl e ↦ ((ok tt, txs), rw (e, read_rest) refl)
    | inr (inl e) ↦ ((err read_from_failed, txs), rw (e, read_rest) refl)
    | inr (inr (tx, e)) ↦
        let rest = (read_from input).1 in
        let shorter : length rest < fuel = omega (arith, read_from-shorter input tx e) in
        elim (Bool-cases (i == 1 && is_coinbase tx)) [
          | inl y ↦
              let (out, f) = read_rest_ends fuel i nodes (set txs 0 (some tx)) rest shorter in
              (out, rw (e, read_rest, y) f)
          | inr z ↦ elim (Option-cases (get_elem? nodes i)) [
            | inl past ↦ ((err tx_index_out_of_bounds, txs), rw (e, read_rest, z, past) refl)
            | inr (n, at) ↦ elim (Bool-cases (platform.equal n.hash (tx_id tx))) [
              | inl same ↦
                  let (out, f) =
                    read_rest_ends fuel (suc i) nodes (set txs i (some tx)) rest shorter in
                  (out, rw (e, read_rest, z, at, same) f)
              | inr other ↦ ((err tx_hash_mismatch, txs), rw (e, read_rest, z, at, other) refl)
            ]
          ]
        ]
  ]

  load_nodes_ends :
      (nodes : List Node) (first : Result Bool) (input : Bytes)
      → (out : Result (Unit {0}) × List (Option Tx)) × (load_nodes platform bt nodes first input
          ≡ some out)
  unfolding load_nodes
  load_nodes_ends nodes panic input = (_, refl)
  load_nodes_ends nodes (err e) input = (_, refl)
  load_nodes_ends nodes (ok skip) input =
      read_rest_ends (suc (length input)) (start_index skip) nodes (replicate (length nodes) none)
        input (omega arith)

  -- On every subtree, nil included, and every input, `NewSubtreeDataFromBytes` comes to an end: the
  -- fuel of the model lasts.
  pub new_subtree_data_from_reader_ends :
      (s : Option Subtree) (input : Bytes)
      → (out : Result (Data bt)) × (new_subtree_data_from_reader platform bt s input ≡ some out)
  unfolding new_subtree_data_from_reader
  new_subtree_data_from_reader_ends none input = (_, refl)
  new_subtree_data_from_reader_ends (some s) input =
      let (out, e) = load_nodes_ends s.nodes (first_is_placeholder platform bt s.nodes) input in
      (data_loaded platform bt (some s) out, rw (e, new_subtree_data_from_reader) refl)
