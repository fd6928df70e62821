-- ===== src/Data/Placed.antt =====
-- Where `AddTx` puts a transaction.
use go_subtree.Prelude.{
  ℕ, zero, suc, ◌≡◌, ◌≢◌, sym, ◌∙◌, Bool, true, ◌&&◌, Bool-cases, inl, inr, Option, none, some,
  Option-cases, List, ℤ, pos, negsuc, ltb, ◌==◌, length, get_elem?, set, replicate,
}
use go_subtree.Hash.{coinbase_placeholder, Platform}
use go_subtree.Node.{Node}
use go_subtree.Subtree.{Subtree}
use go_subtree.Bt.{Bt}
use go_subtree.Data.{Data}
use mathlib.Core.Path.{subst}
use go_subtree.Prelude.{and_true, none-ne-some, some_inj, get_elem?-set_cases, ==→eq}
use go_subtree.Subtree.{size}
use go_subtree.Data.{Data, new_subtree_data, is_placeholder, store_tx, add_tx_at, add_tx}

module _ (platform : Platform) (bt : Bt) where
  open bt use {Tx, tx_id, is_coinbase}

  -- The node at the index has the transaction's hash, or it is the first one and the placeholder, and
  -- the transaction is a coinbase.
  pub data IsPlaced (nodes : List Node) (i : ℕ) (tx : Tx) : Type 0 where
    by_hash : (n : Node) → get_elem? nodes i ≡ some n → n.hash ≡ tx_id tx → IsPlaced nodes i tx
    by_placeholder :
        (n : Node)
        → i ≡ 0
        → get_elem? nodes i ≡ some n
        → n.hash ≡ coinbase_placeholder
        → is_coinbase tx ≡ true
        → IsPlaced nodes i tx

  abbrev pub ArePlaced : List Node → List (Option Tx) → Type 0
  ArePlaced nodes txs = (i : ℕ) (tx : Tx) → get_elem? txs i ≡ some (some tx) → IsPlaced nodes i tx

  pub ArePlaced-set :
      (nodes : List Node) (txs : List (Option Tx)) (i : ℕ) (tx : Tx)
      → ArePlaced nodes txs
      → IsPlaced nodes i tx
      → ArePlaced nodes (set txs i (some tx))
  ArePlaced-set nodes txs i tx all here j u e =
      elim (get_elem?-set_cases txs i j (some tx) (some u) e) [
        | inl (same, f) ↦
            subst (λ (v : Tx). IsPlaced nodes j v) (some_inj f)
              (subst (λ (k : ℕ). IsPlaced nodes k tx) (sym same) here)
        | inr f ↦ all j u f
      ]

  -- Every transaction of the data stands at a node that is its own.
  abbrev pub IsPlacedData : Data bt → Type 0
  IsPlacedData d = (s : Subtree) → d.subtree ≡ some s → ArePlaced s.nodes d.txs

  no_tx : (n i : ℕ) (tx : Tx) → get_elem? (replicate n none) i ≢ some (some tx)
  no_tx zero i tx e = none-ne-some e
  no_tx (suc n) zero tx e = none-ne-some (some_inj e)
  no_tx (suc n) (suc i) tx e = no_tx n i tx e

  pub new_subtree_data-IsPlacedData : (s : Subtree) → IsPlacedData (new_subtree_data platform bt s)
  unfolding new_subtree_data
  new_subtree_data-IsPlacedData s u e i tx f = absurd (no_tx (size s) i tx f)

  store_tx-IsPlacedData :
      (d : Data bt) (i : ℕ) (tx : Tx)
      → IsPlacedData d
      → ((s : Subtree) → d.subtree ≡ some s → IsPlaced s.nodes i tx)
      → IsPlacedData (store_tx platform bt d i tx).1
  unfolding store_tx
  store_tx-IsPlacedData d i tx x here = elim (Bool-cases (ltb i (length d.txs))) [
    | inl y ↦ rw y (λ s e. ArePlaced-set s.nodes d.txs i tx (x s e) (here s e))
    | inr z ↦ rw z x
  ]

  at_placeholder :
      (i : ℕ) (a b : Bool) → (i == 0 && (a && b)) ≡ true → (i ≡ 0) × (a ≡ true) × (b ≡ true)
  at_placeholder i a b e =
      let (first, both) = and_true (i == 0) (a && b) e in
      let (left, right) = and_true a b both in (==→eq i 0 first, left, right)

  add_tx_at-IsPlacedData :
      (s : Subtree) (d : Data bt) (tx : Tx) (i : ℕ)
      → d.subtree ≡ some s
      → IsPlacedData d
      → IsPlacedData (add_tx_at platform bt d tx i (get_elem? s.nodes i)).1
  unfolding add_tx_at is_placeholder
  add_tx_at-IsPlacedData s d tx i has x = elim (Option-cases (get_elem? s.nodes i)) [
    | inl past ↦ rw (past, add_tx_at) x
    | inr (n, at) ↦ elim (Bool-cases (i == 0 && (is_coinbase tx && is_placeholder platform bt n))) [
      | inl y ↦
          let (first, coinbase, equal) =
            at_placeholder i (is_coinbase tx) (is_placeholder platform bt n) y in
          let placed : IsPlaced s.nodes i tx =
            by_placeholder n first at ((platform.equal_iff n.hash coinbase_placeholder).0 equal)
              coinbase in
          rw (at, add_tx_at, y)
            (store_tx-IsPlacedData d i tx x (λ u e. rw (some_inj (sym has ∙ e)) at placed))
      | inr z ↦ elim (Bool-cases (platform.equal n.hash (tx_id tx))) [
        | inl same ↦
            let placed : IsPlaced s.nodes i tx =
              by_hash n at ((platform.equal_iff n.hash (tx_id tx)).0 same) in
            rw (at, add_tx_at, z, same)
              (store_tx-IsPlacedData d i tx x (λ u e. rw (some_inj (sym has ∙ e)) at placed))
        | inr other ↦ rw (at, add_tx_at, z, other) x
      ]
    ]
  ]

  add_tx-some :
      (s : Subtree) (d : Data bt) (tx : Tx) (i : ℕ)
      → d.subtree ≡ some s
      → add_tx platform bt d tx (pos i) ≡ add_tx_at platform bt d tx i (get_elem? s.nodes i)
  unfolding add_tx
  add_tx-some s d tx i has = simp (has, add_tx)

  pub add_tx-IsPlacedData :
      (d : Data bt) (tx : Tx) (i : ℤ) → IsPlacedData d → IsPlacedData (add_tx platform bt d tx i).1
  unfolding add_tx
  add_tx-IsPlacedData d tx (negsuc i) x = x
  add_tx-IsPlacedData d tx (pos i) x = elim (Option-cases d.subtree) [
    | inl absent ↦ rw (absent, add_tx) x
    | inr (s, has) ↦ rw (add_tx-some s d tx i has) (add_tx_at-IsPlacedData s d tx i has x)
  ]
