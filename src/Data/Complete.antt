-- ===== src/Data/Complete.antt =====
-- Subtree data that have every transaction but the coinbase, which a placeholder stands for.
use go_subtree.Prelude.{
  suc, ◌+◌, ◌-◌, ◌≡◌, refl, arith, Bool, Option, some, List, [], ◌∷◌, ◌++◌, map, length,
  get_elem?-middle, next_index, next_done,
}
use go_subtree.Hash.{Bytes, Platform}
use go_subtree.Subtree.{Subtree}
use go_subtree.Bt.{Bt}
use go_subtree.Errors.{ok}
use go_subtree.Data.{
  Data, first_is_placeholder, start_index, check_txs, tx_bytes, txs_bytes, serialize_data,
}

module _ (platform : Platform) (bt : Bt) where
  open bt use {Tx, tx_id, serialize_bytes}

  -- The transactions behind the placeholder, if there is one, are `ts`; what stands in the
  -- placeholder's place does not matter.
  pub record IsComplete (s : Subtree) (skip : Bool) (ts : List Tx) (d : Data bt) : Type 0 where
    pub first : List (Option Tx)
    pub more : List (Option Tx)
    pub has_subtree : d.subtree ≡ some s
    pub has_placeholder : first_is_placeholder platform bt s.nodes ≡ ok skip
    pub one : length first ≡ start_index skip
    pub split : d.txs ≡ first ++ (map some ts ++ more)
    pub as_many : start_index skip + length ts ≡ length s.nodes

  abbrev pub all_bytes : List Tx → Bytes
  all_bytes [] = []
  all_bytes (t ∷ ts) = serialize_bytes t ++ all_bytes ts

  check_txs_complete :
      (ts : List Tx) (done more : List (Option Tx))
      → check_txs platform bt (length ts) (length done) (done ++ (map some ts ++ more)) ≡ ok tt
  unfolding check_txs
  check_txs_complete [] done more = refl
  check_txs_complete (t ∷ ts) done more =
      rw
        (
          get_elem?-middle done (map some ts ++ more) (some t),
          check_txs,
          next_index done (some t),
          next_done done (map some ts ++ more) (some t),
        )
        (check_txs_complete ts (done ++ some t ∷ []) more)

  txs_bytes_complete :
      (ts : List Tx) (done more : List (Option Tx))
      → txs_bytes platform bt (length ts) (length done) (done ++ (map some ts ++ more))
        ≡ ok (all_bytes ts)
  unfolding txs_bytes tx_bytes
  txs_bytes_complete [] done more = refl
  txs_bytes_complete (t ∷ ts) done more =
      let others : txs_bytes platform bt (length ts) (suc (length done))
            (done ++ some t ∷ (map some ts ++ more))
          ≡ ok (all_bytes ts) =
        rw (next_index done (some t), next_done done (map some ts ++ more) (some t))
          (txs_bytes_complete ts (done ++ some t ∷ []) more) in
      rw (get_elem?-middle done (map some ts ++ more) (some t), txs_bytes, others) refl

  pub serialize_data-IsComplete :
      (s : Subtree) (skip : Bool) (ts : List Tx) (d : Data bt)
      → IsComplete s skip ts d
      → serialize_data platform bt d ≡ ok (all_bytes ts)
  unfolding serialize_data
  serialize_data-IsComplete s skip ts d x =
      let rounds : length s.nodes - length x.first ≡ length ts = omega (arith, x.as_many, x.one) in
      rw
        (
          x.has_subtree,
          serialize_data,
          x.has_placeholder,
          ← x.one,
          rounds,
          x.split,
          check_txs_complete ts x.first x.more,
        )
        (txs_bytes_complete ts x.first x.more)
