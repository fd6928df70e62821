-- ===== src/Mmap/Header.antt =====
-- The part in front of the nodes is read without a panic.
use mathlib.Core.Path.{subst}
use go_subtree.Prelude.{ℕ, ◌≢◌, Bool-cases, inl, inr, length, ltb}
use go_subtree.Errors.{Result, ok, err, panic, Result-cases, Stage}
use go_subtree.Hash.{Bytes}
use go_subtree.Subtree.{Subtree}
use go_subtree.Reader.{read_full, from_le, read_uint, and_then, Progress}
use go_subtree.Codec.{read_root, read_fees, read_size}
use go_subtree.Mmap.{read_header}

abbrev Returns {ℓ} : {A : Type ℓ} → Result A → Type 0
Returns (ok a) = Unit
Returns (err e) = Unit
Returns panic = ⊥

Returns-panic {ℓ} : {A : Type ℓ} {r : Result A} → Returns r → r ≢ panic
Returns-panic {r} h e = subst Returns e h

Returns-read_full : (stage : Stage) (n : ℕ) (input : Bytes) → Returns (read_full stage n input)
unfolding read_full
Returns-read_full stage n input = elim (Bool-cases (ltb (length input) n)) [
  | inl y ↦ rw (read_full, y) tt
  | inr z ↦ rw (read_full, z) tt
]

Returns-and_then :
    (x : Progress Subtree) (f : Subtree → Bytes → Progress Subtree)
    → Returns x.0
    → ((s : Subtree) (b : Bytes) → Returns (f s b).0)
    → Returns (and_then x f).0
unfolding and_then
Returns-and_then (ok b, s) f h g = g s b
Returns-and_then (err e, s) f h g = h
Returns-and_then (panic, s) f h g = h

Returns-read_uint :
    (w : ℕ) (stage : Stage) (assign : ℕ → Bytes → Progress Subtree) (s : Subtree) (input : Bytes)
    → ((n : ℕ) (b : Bytes) → Returns (assign n b).0)
    → Returns (read_uint w stage assign s input).0
unfolding read_uint
Returns-read_uint w stage assign s input g = elim (Result-cases (read_full stage w input)) [
  | inl ((word, rest), f) ↦ rw (read_uint, f) (g (from_le word) rest)
  | inr (inl (x, f)) ↦ rw (read_uint, f) tt
  | inr (inr f) ↦ absurd (Returns-panic (Returns-read_full stage w input) f)
]

Returns-read_root : (s : Subtree) (input : Bytes) → Returns (read_root s input).0
unfolding read_root
Returns-read_root s input = elim (Result-cases (read_full Stage.root_hash 32 input)) [
  | inl (x, f) ↦ rw (read_root, f) tt
  | inr (inl (x, f)) ↦ rw (read_root, f) tt
  | inr (inr f) ↦ absurd (Returns-panic (Returns-read_full Stage.root_hash 32 input) f)
]

pub read_full-ne-panic : (stage : Stage) (n : ℕ) (input : Bytes) → read_full stage n input ≢ panic
read_full-ne-panic stage n input = Returns-panic (Returns-read_full stage n input)

pub read_header-ne-panic : (s : Subtree) (input : Bytes) → (read_header s input).0 ≢ panic
unfolding read_header read_fees read_size
read_header-ne-panic s input = Returns-panic (
    Returns-and_then (and_then (read_root s input) read_fees) read_size
      (Returns-and_then (read_root s input) read_fees (Returns-read_root s input) (λ u b.
        Returns-read_uint 8 Stage.fees (λ n rest. (ok rest, record u { fees = n })) u b
          (λ n rest. tt)))
      (λ u b.
        Returns-read_uint 8 Stage.size_in_bytes
          (λ n rest. (ok rest, record u { size_in_bytes = n })) u b (λ n rest. tt)))
