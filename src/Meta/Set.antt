-- ===== src/Meta/Set.antt =====
-- The setters of the metadata, and what the getters return after them.
use mathlib.Core.List.{Perm}
use go_subtree.Prelude.{
  ℕ, ◌<◌, ◌≤◌, ◌≡◌, ◌≢◌, refl, some, List, [], length, get_elem?, get_elem?-set,
  get_elem?-set_other, set, pos, ltb, lt→ltb, Bool-cases, inl, inr, ltb→lt, ltb-false→le,
}
use go_subtree.Errors.{Result, ok, err, panic, node_not_found}
use go_subtree.Hash.{Hash}
use go_subtree.Node.{Node}
use go_subtree.Subtree.{Subtree}
use go_subtree.Subtree.Index.{node_index, ensure_index}
use go_subtree.Subtree.Index.Laws.{IsIndexed, node_index-cases}
use go_subtree.Bt.{Bt}
use go_subtree.Inpoints.{Inpoint, TxInpoints, get_tx_inpoints, new_tx_inpoints_from_tx, u32}
use go_subtree.Inpoints.Groups.{group_all}
use go_subtree.Inpoints.Packed.{IsPacked}
use go_subtree.Inpoints.Build.{Spends, new_sized_from_inputs-IsPacked}
use go_subtree.Meta.{
  Meta, inpoints_at, meta_tx_inpoints, set_tx_inpoints, store_at, store_found,
  set_tx_inpoints_from_tx,
}

abbrev pub with_inpoints : Meta → ℕ → TxInpoints → Meta
with_inpoints m i p = record m { tx_inpoints = set m.tx_inpoints i p }

inpoints_at-set :
    (m : Meta) (i : ℕ) (p : TxInpoints)
    → i < length m.tx_inpoints
    → inpoints_at (with_inpoints m i p) (pos i) ≡ ok p
unfolding inpoints_at
inpoints_at-set m i p h = rw (inpoints_at, get_elem?-set m.tx_inpoints i p h) refl

inpoints_at-set_other :
    (m : Meta) (i j : ℕ) (p : TxInpoints)
    → j ≢ i
    → inpoints_at (with_inpoints m i p) (pos j) ≡ inpoints_at m (pos j)
unfolding inpoints_at
inpoints_at-set_other m i j p h = rw (inpoints_at, get_elem?-set_other m.tx_inpoints i j p h) refl

-- `SetTxInpoints` within range succeeds. After it `GetTxInpoints` at this index gives the inpoints of
-- the new entry, every other entry is what it was, and the subtree and the root are unchanged.
pub set_tx_inpoints_lem :
    (m : Meta) (i : ℕ) (p : TxInpoints)
    → i < length m.tx_inpoints
    → (m' : Meta) × (set_tx_inpoints m (pos i) p ≡ ok m')
      × (meta_tx_inpoints m' (pos i) ≡ get_tx_inpoints p)
      × ((j : ℕ) → j ≢ i → inpoints_at m' (pos j) ≡ inpoints_at m (pos j))
      × (m'.subtree ≡ m.subtree)
      × (m'.root_hash ≡ m.root_hash)
unfolding set_tx_inpoints meta_tx_inpoints
set_tx_inpoints_lem m i p h = (
  with_inpoints m i p,
  rw (lt→ltb i (length m.tx_inpoints) h) refl,
  rw (inpoints_at-set m i p h) refl,
  λ j other. inpoints_at-set_other m i j p other,
  refl,
  refl,
)

-- The metadata after `SetTxInpointsFromTx`, but for a changed entry: the subtree has its index map.
abbrev pub with_index : Meta → Subtree → Meta
with_index m s = record m { subtree = some (ensure_index s) }

-- What `SetTxInpointsFromTx` does for a transaction with hash `h` that spends `qs`. Where a node has
-- the hash and the metadata have an entry for it, the entry is set, `GetTxInpoints` at its index
-- returns what the transaction spends, up to order, and the other entries are what they were. Where
-- they have no such entry it panics, and where no node has the hash it says so.
pub data Stores (m : Meta) (s : Subtree) (h : Hash) (qs : List Inpoint)
    : Result (Unit {0}) × Meta → Type 0 where
  stored :
      (i : ℕ) (n : Node) (p : TxInpoints) (points : List Inpoint)
      → get_elem? s.nodes i ≡ some n
      → n.hash ≡ h
      → i < length m.tx_inpoints
      → IsPacked (group_all [] qs) p
      → meta_tx_inpoints (with_inpoints (with_index m s) i p) (pos i) ≡ ok points
      → Perm points qs
      → ((j : ℕ)
          → j ≢ i
          → inpoints_at (with_inpoints (with_index m s) i p) (pos j) ≡ inpoints_at m (pos j))
      → Stores m s h qs (ok tt, with_inpoints (with_index m s) i p)
  beyond :
      (i : ℕ) (n : Node)
      → get_elem? s.nodes i ≡ some n
      → n.hash ≡ h
      → length m.tx_inpoints ≤ i
      → Stores m s h qs (panic, with_index m s)
  missing :
      ((i : ℕ) (n : Node) → get_elem? s.nodes i ≡ some n → n.hash ≢ h)
      → Stores m s h qs (err node_not_found, with_index m s)

module _ (bt : Bt) where
  open bt use {Tx, tx_id, inputs}

  store_at-Stores :
      (m : Meta) (s : Subtree) (tx : Tx) (qs : List Inpoint) (i : ℕ) (n : Node)
      → Spends bt (inputs tx) qs
      → length qs < u32
      → get_elem? s.nodes i ≡ some n
      → n.hash ≡ tx_id tx
      → Stores m s (tx_id tx) qs (store_at (with_index m s) i (new_tx_inpoints_from_tx bt tx))
  unfolding store_at new_tx_inpoints_from_tx meta_tx_inpoints inpoints_at
  store_at-Stores m s tx qs i n spends few at same =
      let (p, e, x, grouped, points, got, perm) =
        new_sized_from_inputs-IsPacked bt (inputs tx) qs spends few in
      rw (e, store_at)
        (elim (Bool-cases (ltb i (length m.tx_inpoints))) [
          | inl y ↦
              let h : i < length m.tx_inpoints = ltb→lt i (length m.tx_inpoints) y in
              rw y (
                stored i n p points at same h x (rw (inpoints_at-set (with_index m s) i p h) got)
                  perm (λ j other. inpoints_at-set_other (with_index m s) i j p other))
          | inr z ↦ rw z (beyond i n at same (ltb-false→le i (length m.tx_inpoints) z))
        ])

  set_tx_inpoints_from_tx-some :
      (m : Meta) (s : Subtree) (tx : Tx)
      → m.subtree ≡ some s
      → set_tx_inpoints_from_tx bt m tx
        ≡ store_found
            (record m { subtree = some (node_index s (tx_id tx)).1 })
            (node_index s (tx_id tx)).0
            (new_tx_inpoints_from_tx bt tx)
  unfolding set_tx_inpoints_from_tx
  set_tx_inpoints_from_tx-some m s tx has = rw (has, set_tx_inpoints_from_tx) refl

  -- For metadata on a subtree whose index map, if it has one, is right, and a transaction with inputs
  -- whose previous hashes are not nil, fewer than 2 ^ 32 of them: `SetTxInpointsFromTx` sets the entry
  -- of a node with the transaction's hash so that it holds what the transaction spends, and leaves
  -- the others; it panics where there is a node but no entry, and reports where there is no node.
  pub set_tx_inpoints_from_tx-Stores :
      (m : Meta) (s : Subtree) (tx : Tx) (qs : List Inpoint)
      → m.subtree ≡ some s
      → IsIndexed s
      → Spends bt (inputs tx) qs
      → length qs < u32
      → Stores m s (tx_id tx) qs (set_tx_inpoints_from_tx bt m tx)
  unfolding store_found
  set_tx_inpoints_from_tx-Stores m s tx qs has x spends few =
      rw (set_tx_inpoints_from_tx-some m s tx has) (elim (node_index-cases s (tx_id tx) x) [
        | inl (e, absent) ↦ rw e (missing absent)
        | inr (i, n, e, at, same) ↦ rw e (store_at-Stores m s tx qs i n spends few at same)
      ])
