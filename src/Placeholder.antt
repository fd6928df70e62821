-- ===== src/Placeholder.antt =====
-- The placeholder transaction and the frozen bytes of coinbase_placeholder.go.
use go_subtree.Prelude.{◌^◌, ◌-◌, ◌≡◌, ◌↔◌, refl, Bool, true, take, replicate}
use go_subtree.Hash.{Bytes, Hash, Platform, coinbase_placeholder}
use go_subtree.Bt.{Bt}

abbrev pub frozen_bytes : Bytes
frozen_bytes = replicate 36 255

-- `FrozenBytesTxBytes` is its slice.
abbrev pub frozen_bytes_tx_hash : Hash
frozen_bytes_tx_hash = take 32 frozen_bytes

frozen_bytes_tx_hash-coinbase_placeholder : frozen_bytes_tx_hash ≡ coinbase_placeholder
unfolding coinbase_placeholder
frozen_bytes_tx_hash-coinbase_placeholder = refl

module _ (bt : Bt) where
  abbrev pub generate_coinbase_placeholder_tx : bt.Tx
  generate_coinbase_placeholder_tx =
      bt.set_lock_time (2 ^ 32 - 1) (bt.set_version (2 ^ 32 - 1) bt.new_tx)

  abbrev pub is_coinbase_placeholder_tx : Platform → bt.Tx → Bool
  is_coinbase_placeholder_tx p tx =
      p.equal (bt.tx_id tx) (bt.tx_id generate_coinbase_placeholder_tx)

  -- It accepts the transactions that have the hash of the placeholder transaction, and no others.
  is_coinbase_placeholder_tx_iff :
      (p : Platform) (tx : bt.Tx)
      → (is_coinbase_placeholder_tx p tx ≡ true)
        ↔ (bt.tx_id tx ≡ bt.tx_id generate_coinbase_placeholder_tx)
  is_coinbase_placeholder_tx_iff p tx =
      p.equal_iff (bt.tx_id tx) (bt.tx_id generate_coinbase_placeholder_tx)
