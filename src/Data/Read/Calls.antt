-- ===== src/Data/Read/Calls.antt =====
-- Calls on subtree data, in any order and however they end.
use go_subtree.Prelude.{
  ℕ, zero, suc, ◌-◌, ◌≡◌, sym, ◌∙◌, true, false, Bool-cases, inl, inr, Option, some, Option-cases,
  List, ℤ, pos, negsuc, ltb, ltz, ◌==◌, if◌then◌else◌, length, get_elem?, set,
}
use go_subtree.Hash.{Bytes, Platform}
use go_subtree.Node.{Node}
use go_subtree.Subtree.{Subtree}
use go_subtree.Bt.{Bt, TxRead-cases}
use go_subtree.Errors.{err}
use go_subtree.Data.{Data, skips}
use mathlib.Core.Path.{subst}
use go_subtree.Prelude.{some_inj}
use go_subtree.Errors.{Result-cases, subtree_nodes_empty}
use go_subtree.Data.{Data, new_subtree_data, skips, add_tx}
use go_subtree.Data.Placed.{
  by_hash, ArePlaced, ArePlaced-set, IsPlacedData, new_subtree_data-IsPlacedData,
  add_tx-IsPlacedData,
}
use go_subtree.Data.Read.{read_range, read_into, read_transactions_from_reader}

module _ (platform : Platform) (bt : Bt) where
  open bt use {Tx, tx_id, read_from}

  read_range-ArePlaced :
      (k i : ℕ) (nodes : List Node) (txs : List (Option Tx)) (count : ℕ) (input : Bytes)
      → ArePlaced platform bt nodes txs
      → ArePlaced platform bt nodes (read_range platform bt k i nodes txs count input).2
  unfolding read_range
  read_range-ArePlaced zero i nodes txs count input x = x
  read_range-ArePlaced (suc k) i nodes txs count input x =
      elim (Result-cases (skips platform bt i nodes)) [
        | inr (inr e) ↦ rw (e, read_range) x
        | inr (inl (error, e)) ↦ rw (e, read_range) x
        | inl (true, e) ↦
            rw (e, read_range) (read_range-ArePlaced k (suc i) nodes txs count input x)
        | inl (false, e) ↦ elim (TxRead-cases (read_from input).0) [
          | inl r ↦ rw (e, read_range, r) x
          | inr (inl r) ↦ rw (e, read_range, r) x
          | inr (inr (tx, r)) ↦ elim (Option-cases (get_elem? nodes i)) [
            | inl past ↦ rw (e, read_range, r, past) x
            | inr (n, at) ↦ elim (Bool-cases (platform.equal n.hash (tx_id tx))) [
              | inr other ↦ rw (e, read_range, r, at, other) x
              | inl same ↦ elim (Bool-cases (ltb i (length txs))) [
                | inr outside ↦ rw (e, read_range, r, at, same, outside) x
                | inl inside ↦
                    let placed = by_hash n at ((platform.equal_iff n.hash (tx_id tx)).0 same) in
                    rw (e, read_range, r, at, same, inside)
                      (read_range-ArePlaced k (suc i) nodes (set txs i (some tx)) (suc count)
                        (read_from input).1 (ArePlaced-set platform bt nodes txs i tx x placed))
              ]
            ]
          ]
        ]
      ]

  read_into-IsPlacedData :
      (d : Data bt) (s : Subtree) (start stop : ℤ) (input : Bytes)
      → d.subtree ≡ some s
      → IsPlacedData platform bt d
      → IsPlacedData platform bt (read_into platform bt d s.nodes start stop input).2
  unfolding read_into
  read_into-IsPlacedData d s (negsuc i) stop input has x = elim (Bool-cases (ltz (negsuc i) stop)) [
    | inl y ↦ rw (y, read_into) x
    | inr z ↦ rw (z, read_into) x
  ]
  read_into-IsPlacedData d s (pos i) (negsuc e) input has x = x
  read_into-IsPlacedData d s (pos i) (pos e) input has x = λ u f.
      subst
        (λ (v : Subtree).
          ArePlaced platform bt v.nodes (read_range platform bt (e - i) i s.nodes d.txs 0 input).2)
        (some_inj (sym has ∙ f)) (read_range-ArePlaced (e - i) i s.nodes d.txs 0 input (x s has))

  read-some :
      (s : Subtree) (d : Data bt) (start stop : ℤ) (input : Bytes)
      → d.subtree ≡ some s
      → read_transactions_from_reader platform bt d input start stop ≡ (
          if length s.nodes == 0
          then (err subtree_nodes_empty, 0, d, input)
          else read_into platform bt d s.nodes start stop input)
  unfolding read_transactions_from_reader
  read-some s d start stop input has = simp (has, read_transactions_from_reader)

  read-IsPlacedData :
      (d : Data bt) (start stop : ℤ) (input : Bytes)
      → IsPlacedData platform bt d
      → IsPlacedData platform bt (read_transactions_from_reader platform bt d input start stop).2
  unfolding read_transactions_from_reader
  read-IsPlacedData d start stop input x = elim (Option-cases d.subtree) [
    | inl absent ↦ rw (absent, read_transactions_from_reader) x
    | inr (s, has) ↦ elim (Bool-cases (length s.nodes == 0)) [
      | inl y ↦ rw (read-some s d start stop input has, y) x
      | inr z ↦
          rw (read-some s d start stop input has, z)
            (read_into-IsPlacedData d s start stop input has x)
    ]
  ]

  -- New subtree data, and what a call leaves of them, also where it reports an error or panics.
  pub data Reached : Data bt → Type 0 where
    made : (s : Subtree) → Reached (new_subtree_data platform bt s)
    added : {d : Data bt} (tx : Tx) (i : ℤ) → Reached d → Reached (add_tx platform bt d tx i).1
    read :
        {d : Data bt} (input : Bytes) (start stop : ℤ)
        → Reached d
        → Reached (read_transactions_from_reader platform bt d input start stop).2

  -- Whatever calls of `AddTx` and `ReadTransactionsFromReader` new subtree data have seen, with any
  -- transactions, indices and inputs, and however these calls ended: every transaction stands at a
  -- node that has its hash, or is a coinbase at the placeholder in the first place.
  pub Reached-IsPlacedData : (d : Data bt) → Reached d → IsPlacedData platform bt d
  Reached-IsPlacedData _ (made s) = new_subtree_data-IsPlacedData platform bt s
  Reached-IsPlacedData _ (added {d} tx i r) =
      add_tx-IsPlacedData platform bt d tx i (Reached-IsPlacedData d r)
  Reached-IsPlacedData _ (read {d} input start stop r) =
      read-IsPlacedData d start stop input (Reached-IsPlacedData d r)
