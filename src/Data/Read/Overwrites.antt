-- ===== src/Data/Read/Overwrites.antt =====
-- A coinbase transaction that is not the first one, in `serializeFromReader`.
use go_subtree.Prelude.{
  ℕ, suc, ◌-◌, ◌<◌, ◌≡◌, refl, ap, ◌∙◌, arith, true, false, ◌&&◌, Option, none, some, List, [], ◌∷◌,
  ◌++◌, ◌==◌, length, get_elem?, set,
}
use go_subtree.Hash.{Bytes, Platform}
use go_subtree.Node.{Node}
use go_subtree.Subtree.{Subtree}
use go_subtree.Bt.{Bt, TxRead}
use go_subtree.Errors.{ok}
use go_subtree.Data.{first_is_placeholder}
use go_subtree.Data.{is_placeholder, first_is_placeholder}
use go_subtree.Data.Complete.{all_bytes}
use go_subtree.Data.Read.{read_rest, load_nodes, data_loaded, new_subtree_data_from_reader}
use go_subtree.Data.Read.RoundTrip.{IsReadable}

module _ (platform : Platform) (bt : Bt) where
  open bt use {Tx, tx_id, is_coinbase, read_from, read_from_nil, read_from-shorter}

  -- One transaction of a node, read.
  step :
      (fuel i : ℕ) (nodes : List Node) (txs : List (Option Tx)) (n : Node) (t : Tx) (rest : Bytes)
      → IsReadable platform bt t
      → (i == 1 && is_coinbase t) ≡ false
      → get_elem? nodes i ≡ some n
      → n.hash ≡ tx_id t
      → read_rest platform bt (suc fuel) i nodes txs (bt.serialize_bytes t ++ rest)
        ≡ read_rest platform bt fuel (suc i) nodes (set txs i (some t)) rest
  unfolding read_rest
  step fuel i nodes txs n t rest readable plain at hash =
      let e = readable rest in
      rw
        (
          ap (λ (x : TxRead Tx × Bytes). x.0) e,
          read_rest,
          plain,
          at,
          (platform.equal_iff n.hash (tx_id t)).1 hash,
          ap (λ (x : TxRead Tx × Bytes). x.1) e,
        )
        refl

  -- A coinbase, read where the index is 1.
  step_coinbase :
      (fuel : ℕ) (nodes : List Node) (txs : List (Option Tx)) (c : Tx) (rest : Bytes)
      → IsReadable platform bt c
      → is_coinbase c ≡ true
      → read_rest platform bt (suc fuel) 1 nodes txs (bt.serialize_bytes c ++ rest)
        ≡ read_rest platform bt fuel 1 nodes (set txs 0 (some c)) rest
  unfolding read_rest
  step_coinbase fuel nodes txs c rest readable coinbase =
      let e = readable rest in
      rw
        (
          ap (λ (x : TxRead Tx × Bytes). x.0) e,
          read_rest,
          coinbase,
          ap (λ (x : TxRead Tx × Bytes). x.1) e,
        )
        refl

  at_end_lem :
      (fuel i : ℕ) (nodes : List Node) (txs : List (Option Tx))
      → read_rest platform bt (suc fuel) i nodes txs [] ≡ some (ok tt, txs)
  unfolding read_rest
  at_end_lem fuel i nodes txs = rw (read_from_nil, read_rest) refl

  -- A transaction that is read leaves fewer bytes.
  shorter :
      (t : Tx) (rest : Bytes)
      → IsReadable platform bt t
      → length rest < length (bt.serialize_bytes t ++ rest)
  shorter t rest readable =
      let e = readable rest in
      omega (
        arith,
        rw (ap (λ (x : TxRead Tx × Bytes). x.1) e) at (
            read_from-shorter (bt.serialize_bytes t ++ rest) t
              (ap (λ (x : TxRead Tx × Bytes). x.0) e)),
      )

  -- On a subtree of two nodes, the first not the placeholder, and an input with the transaction of
  -- the first, a coinbase, and the transaction of the second, which is no coinbase:
  -- `NewSubtreeDataFromBytes` reports no error, and has put the coinbase, whatever its hash, in the
  -- place of the first transaction.
  pub new_subtree_data_from_reader_overwrites :
      (s : Subtree) (n m : Node) (t c u : Tx)
      → s.nodes ≡ n ∷ m ∷ []
      → is_placeholder platform bt n ≡ false
      → n.hash ≡ tx_id t
      → m.hash ≡ tx_id u
      → is_coinbase c ≡ true
      → is_coinbase u ≡ false
      → IsReadable platform bt t
      → IsReadable platform bt c
      → IsReadable platform bt u
      → new_subtree_data_from_reader platform bt (some s) (all_bytes platform bt (t ∷ c ∷ u ∷ []))
        ≡ some (ok (record { subtree = some s; txs = some c ∷ some u ∷ [] }))
  unfolding new_subtree_data_from_reader load_nodes data_loaded first_is_placeholder
  new_subtree_data_from_reader_overwrites s n m t c u nodes plain first second coinbase other rt rc
        ru =
      let b2 : Bytes = all_bytes platform bt (u ∷ []) in
      let b1 : Bytes = all_bytes platform bt (c ∷ u ∷ []) in
      let b : Bytes = all_bytes platform bt (t ∷ c ∷ u ∷ []) in
      let rest = length b - 3 in
      let fuel : length b ≡ suc (suc (suc rest)) =
        omega (arith, shorter t b1 rt, shorter c b2 rc, shorter u [] ru) in
      let no_coinbase : (1 == 1 && is_coinbase u) ≡ false = other in
      let both : List Node = n ∷ m ∷ [] in
      let read : read_rest platform bt (suc (length b)) 0 both (none ∷ none ∷ []) b
          ≡ some (ok tt, some c ∷ some u ∷ []) =
        rw fuel (
          step (suc (suc (suc rest))) 0 both (none ∷ none ∷ []) n t b1 rt refl refl first
          ∙ step_coinbase (suc (suc rest)) both (some t ∷ none ∷ []) c b2 rc coinbase
          ∙ step (suc rest) 1 both (some c ∷ none ∷ []) m u [] ru no_coinbase refl second
          ∙ at_end_lem rest 2 both (some c ∷ some u ∷ [])) in
      let loaded : load_nodes platform bt s.nodes (first_is_placeholder platform bt s.nodes) b
          ≡ some (ok tt, some c ∷ some u ∷ []) =
        rw (nodes, plain, load_nodes, nodes) read in
      rw (new_subtree_data_from_reader, loaded) refl
