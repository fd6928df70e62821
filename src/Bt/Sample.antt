-- ===== src/Bt/Sample.antt =====
-- Transactions of one byte, for the tests. The byte stands 32 times in the hash, and every
-- transaction spends two outputs of one parent and between them one of another.
use mathlib.Core.Path.{subst}
use go_subtree.Prelude.{
  ℕ, ◌%◌, ◌^◌, ◌<◌, ◌≡◌, refl, sym, arith, [], ◌∷◌, ◌==◌, some, some_inj, length, replicate,
}
use go_subtree.Errors.{panic}
use go_subtree.Hash.{Bytes, Hash, IsHash}
use go_subtree.Hash.Sample.{digest, digest-IsHash}
use go_subtree.Bt.{Bt, TxRead, read_tx, at_end, failed}

abbrev pub read_byte : Bytes → TxRead ℕ × Bytes
read_byte [] = (at_end, [])
read_byte (b ∷ bs) = (read_tx b, bs)

abbrev pub IsRead : TxRead ℕ → Type 0
IsRead (read_tx b) = Unit
IsRead at_end = ⊥
IsRead failed = ⊥

pub read_byte-shorter :
    (input : Bytes) (tx : ℕ)
    → (read_byte input).0 ≡ read_tx tx
    → length (read_byte input).1 < length input
read_byte-shorter [] tx e = absurd (subst IsRead (sym e) tt)
read_byte-shorter (b ∷ bs) tx e = omega arith

pub parent-IsHash : (i : ℕ × ℕ) (h : Hash) → some (digest (i.0 ∷ [])) ≡ some h → IsHash h
parent-IsHash i h e = subst IsHash (some_inj e) (digest-IsHash (i.0 ∷ []))

abbrev pub sample_bt : Bt
sample_bt = record {
  Tx = ℕ;
  Input = ℕ × ℕ;
  tx_id = replicate 32;
  inputs = λ tx. (1, 3) ∷ (2, 0) ∷ (1, 5) ∷ [];
  previous_tx_id = λ i. some (digest (i.0 ∷ []));
  previous_tx_id-IsHash = parent-IsHash;
  previous_tx_out_index = λ i. i.1 % 2 ^ 32;
  previous_tx_out_index-lt = λ i. omega arith;
  is_coinbase = λ tx. tx == 0;
  new_tx = 1;
  set_version = λ version tx. tx;
  set_lock_time = λ lock_time tx. tx;
  serialize_bytes = λ tx. tx ∷ [];
  serialize_nil = panic;
  read_from = read_byte;
  read_from_nil = refl;
  read_from-shorter = read_byte-shorter;
}
