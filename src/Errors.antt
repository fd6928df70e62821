-- ===== src/Errors.antt =====
-- The sentinel errors of errors.go, and the outcome of a call: a value, an error, or a panic.
use go_subtree.Prelude.{◌⊎◌, inl, inr, ◌≡◌, ◌≢◌, refl, Bool, true, false, if◌then◌else◌}

-- Which read or write of a decoder failed, from the message that wraps the cause.

pub data Stage : Type 0 where
  root_hash fees size_in_bytes num_leaves node num_conflicting conflicting : Stage
  num_parents parent_hash num_indexes parent_index num_inpoints : Stage

-- The two errors of `io.ReadFull` at the end of the input.
pub data ReadError : Type 0 where
  eof unexpected_eof : ReadError

pub data Error : Type 0 where
  index_out_of_range height_negative not_power_of_two subtree_full subtree_nil : Error
  subtree_not_empty coinbase_placeholder_misuse conflicting_node_not_in_subtree : Error
  node_not_found target_height_too_small parent_tx_hashes_mismatch no_subtrees_available : Error
  cannot_serialize_subtree_not_set tx_index_out_of_bounds subtree_nodes_empty tx_hash_mismatch :
      Error
  subtree_length_mismatch transaction_nil transaction_write transaction_read : Error
  capacity_not_positive read_error : Error
  -- The errors of the system calls for a mapping, wrapped.
  create_temp_failed truncate_failed mmap_failed munmap_failed : Error
  -- The error of `tx.ReadFrom`, wrapped.
  read_from_failed : Error
  read_failed : Stage → ReadError → Error
  -- `safe.Uint64ToInt` refuses the number.
  conversion_failed : Error
  -- A panic that a deferred function has turned into an error.
  recovered : Error

pub data Result {ℓ} (A : Type ℓ) : Type ℓ where
  ok : A → Result A
  err : Error → Result A
  -- A run-time panic, as on an index out of range.
  panic : Result A

infixl 5 ◌>>=◌
abbrev pub ◌>>=◌ {ℓ κ} : {A : Type ℓ} {B : Type κ} → Result A → (A → Result B) → Result B
ok a >>= f = f a
err e >>= f = err e
panic >>= f = panic

pub ok-injective {ℓ} : {A : Type ℓ} {a b : A} → ok a ≡ ok b → a ≡ b
ok-injective h = cc

pub err-ne-ok {ℓ} : {A : Type ℓ} {e : Error} {a : A} → err e ≢ ok a
err-ne-ok h = cc

pub panic-ne-ok {ℓ} : {A : Type ℓ} {a : A} → panic ≢ ok a
panic-ne-ok h = cc

pub panic-ne-err {ℓ} : {A : Type ℓ} {r : Result A} {e : Error} → r ≡ panic → r ≢ err e
panic-ne-err h f = cc

-- A result that is a success only if `b` holds, or only if it does not.
pub ok_if {ℓ} :
    {A : Type ℓ} (b : Bool) (e : Error) {r : Result A} {a : A}
    → (if b then err e else r) ≡ ok a
    → (b ≡ false) × (r ≡ ok a)
ok_if true e h = absurd (err-ne-ok h)
ok_if false e h = (refl, h)

pub Result-cases {ℓ} :
    {A : Type ℓ} (x : Result A)
    → ((a : A) × (x ≡ ok a)) ⊎ (((e : Error) × (x ≡ err e)) ⊎ (x ≡ panic))
Result-cases (ok a) = inl (a, refl)
Result-cases (err e) = inr (inl (e, refl))
Result-cases panic = inr (inr refl)
