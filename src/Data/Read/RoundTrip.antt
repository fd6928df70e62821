-- ===== src/Data/Read/RoundTrip.antt =====
-- Subtree data read back from what `Serialize` has written.
use go_subtree.Prelude.{
  ℕ, zero, suc, ◌+◌, ◌<◌, ◌≡◌, refl, sym, ap, ◌∙◌, arith, Bool, true, false, ◌&&◌, and_false,
  Option, none, some, List, [], ◌∷◌, ◌++◌, map, ◌==◌, length, length-append, get_elem?,
  get_elem?-middle, set-append, next_index, next_done, replicate, length-replicate,
}
use go_subtree.Hash.{Bytes, Platform}
use go_subtree.Node.{Node}
use go_subtree.Subtree.{Subtree}
use go_subtree.Bt.{Bt, TxRead, read_tx}
use go_subtree.Errors.{ok}
use go_subtree.Data.{Data, start_index, serialize_data}
use go_subtree.Data.{Data, start_index, serialize_data}
use go_subtree.Data.Complete.{IsComplete, all_bytes, serialize_data-IsComplete}
use go_subtree.Data.Read.{read_rest, load_nodes, data_loaded, new_subtree_data_from_reader}

module _ (platform : Platform) (bt : Bt) where
  open bt use {Tx, tx_id, is_coinbase, serialize_bytes, read_from, read_from_nil, read_from-shorter}

  -- `ReadFrom` reads the transaction back, whatever bytes stand behind.
  abbrev pub IsReadable : Tx → Type 0
  IsReadable t = (rest : Bytes) → read_from (serialize_bytes t ++ rest) ≡ (read_tx t, rest)

  -- The transactions of the nodes, one by one; none is a coinbase.
  abbrev pub Matches : List Node → List Tx → Type 0
  Matches [] [] = Unit
  Matches (n ∷ ns) (t ∷ ts) =
      (n.hash ≡ tx_id t) × (is_coinbase t ≡ false) × IsReadable t × Matches ns ts
  Matches _ _ = ⊥

  read_rest-all_bytes :
      (ts : List Tx) (front ns : List Node) (done : List (Option Tx)) (fuel : ℕ)
      → Matches ns ts
      → length front ≡ length done
      → length (all_bytes platform bt ts) < fuel
      → read_rest platform bt fuel
          (length done)
          (front ++ ns)
          (done ++ replicate (length ts) none)
          (all_bytes platform bt ts)
        ≡ some (ok tt, done ++ map some ts)
  unfolding read_rest
  read_rest-all_bytes ts front ns done zero m same few = absurd (omega arith)
  read_rest-all_bytes [] front ns done (suc fuel) m same few = rw (read_from_nil, read_rest) refl
  read_rest-all_bytes (t ∷ ts) front [] done (suc fuel) m same few = absurd m
  read_rest-all_bytes (t ∷ ts) front (n ∷ ns) done (suc fuel) (hash, plain, readable, m) same few =
      let slots : List (Option Tx) = replicate (length ts) none in
      let e = readable (all_bytes platform bt ts) in
      let e0 = ap (λ (x : TxRead Tx × Bytes). x.0) e in
      let e1 = ap (λ (x : TxRead Tx × Bytes). x.1) e in
      let fewer : length (all_bytes platform bt ts) < fuel =
        omega (arith, rw e1 at (read_from-shorter _ t e0)) in
      let no_coinbase : (length done == 1 && is_coinbase t) ≡ false =
        rw plain (and_false (length done == 1)) in
      let at : get_elem? (front ++ n ∷ ns) (length done) ≡ some n =
        rw (← same) (get_elem?-middle front ns n) in
      let equal : platform.equal n.hash (tx_id t) ≡ true =
        (platform.equal_iff n.hash (tx_id t)).1 hash in
      let both : length (front ++ n ∷ []) ≡ length (done ++ some t ∷ []) =
        omega (arith, same, length-append front (n ∷ []), length-append done (some t ∷ [])) in
      rw
        (
          e0,
          read_rest,
          no_coinbase,
          at,
          equal,
          e1,
          set-append done slots none (some t),
          next_index done (some t),
          next_done front ns n,
          next_done done (map some ts) (some t),
        )
        (read_rest-all_bytes ts (front ++ n ∷ []) ns (done ++ some t ∷ []) fuel m both fewer)

  read_from_index :
      (ts : List Tx) (front ns : List Node) (head : List (Option Tx)) (i : ℕ)
      → Matches ns ts
      → length front ≡ i
      → length head ≡ i
      → read_rest platform bt
          (suc (length (all_bytes platform bt ts)))
          i
          (front ++ ns)
          (head ++ replicate (length ts) none)
          (all_bytes platform bt ts)
        ≡ some (ok tt, head ++ map some ts)
  read_from_index ts front ns head i m e f = rw (← f) (
      read_rest-all_bytes ts front ns head (suc (length (all_bytes platform bt ts))) m (e ∙ sym f)
        (omega arith))

  slots_lem :
      (skip : Bool) (n k : ℕ) (a : Option Tx)
      → start_index skip + n ≡ k
      → replicate k a ≡ replicate (start_index skip) a ++ replicate n a
  slots_lem true n k a e = let size : k ≡ suc n = omega arith in rw size refl
  slots_lem false n k a e = let size : k ≡ n = omega arith in rw size refl

  -- For data that have every transaction but the coinbase that a placeholder stands for, whose
  -- transactions are those of the nodes, can be read back and are no coinbases: `Serialize` gives
  -- bytes from which `NewSubtreeDataFromBytes` with the same subtree restores the transactions. The
  -- entry of the placeholder comes back as nil.
  pub new_subtree_data_from_reader-serialize_data :
      (s : Subtree) (skip : Bool) (front ns : List Node) (ts : List Tx) (d : Data bt)
      → IsComplete platform bt s skip ts d
      → s.nodes ≡ front ++ ns
      → length front ≡ start_index skip
      → Matches ns ts
      → (b : Bytes) × (serialize_data platform bt d ≡ ok b)
        × (new_subtree_data_from_reader platform bt (some s) b
            ≡ some (
                ok (record {
                  subtree = some s;
                  txs = replicate (start_index skip) none ++ map some ts;
                })))
  unfolding new_subtree_data_from_reader load_nodes data_loaded
  new_subtree_data_from_reader-serialize_data s skip front ns ts d x split one m =
      let b = all_bytes platform bt ts in
      let head : List (Option Tx) = replicate (start_index skip) none in
      let read : read_rest platform bt (suc (length b)) (start_index skip) s.nodes
            (replicate (length s.nodes) none) b
          ≡ some (ok tt, head ++ map some ts) =
        rw (slots_lem skip (length ts) (length s.nodes) none x.as_many, split)
          (read_from_index ts front ns head (start_index skip) m one
            (length-replicate (start_index skip) none)) in
      (
        b,
        serialize_data-IsComplete platform bt s skip ts d x,
        rw (new_subtree_data_from_reader, x.has_placeholder, load_nodes, read) refl,
      )
