-- ===== src/Hash.antt =====
-- coinbase_placeholder.go, and what the program takes from Go's runtime, crypto/sha256 and the
-- chainhash package.
pub mod Sample
use go_subtree.Prelude.{
  ℕ, ◌^◌, ℤ, pos, ◌≤◌, ◌<◌, ◌≡◌, ◌↔◌, Bool, true, false, ◌&&◌, List, [], ◌∷◌, Option, some, arith,
  length, replicate, All, ◌==◌,
}

abbrev pub Bytes : Type 0
Bytes = List ℕ

-- `chainhash.Hash` is a [32]byte.
abbrev pub Hash : Type 0
Hash = Bytes

abbrev pub IsByte : ℕ → Type 0
IsByte b = b < 256

abbrev pub IsHash : Hash → Type 0
IsHash h = (length h ≡ 32) × All IsByte h

-- The zero value `chainhash.Hash{}`.
unfoldable pub zero_hash : Hash
zero_hash = replicate 32 0

unfoldable pub coinbase_placeholder : Hash
coinbase_placeholder = replicate 32 255

-- Go's `==` on arrays of bytes, by which maps and `slices.Index` compare keys.
unfoldable pub hash_eq : Hash → Hash → Bool
hash_eq [] [] = true
hash_eq (x ∷ xs) (y ∷ ys) = x == y && hash_eq xs ys
hash_eq _ _ = false

pub hash_eq_iff : (a b : Hash) → (hash_eq a b ≡ true) ↔ (a ≡ b)
unfolding hash_eq
hash_eq_iff [] [] = ground arith
hash_eq_iff [] (y ∷ ys) = ground arith
hash_eq_iff (x ∷ xs) [] = ground arith
hash_eq_iff (x ∷ xs) (y ∷ ys) = ground (arith, hash_eq_iff xs ys)

-- What lies outside the repository, or is left to the implementation of Go. `equal` and `new_hash`
-- are `Hash.Equal`, also `IsEqual` where no pointer is nil, and `NewHash` of chainhash, and `sum256` is `sha256.Sum256`. `grow old need` is
-- the capacity that `append` picks where the old one is below `need`; `make` panics above
-- `max_alloc` bytes; the next three are `int` of minus infinity, of NaN, and of 2 ^ 63 or more.
-- `int_to_uint32` and `uint64_to_int` are `safe.IntToUint32`, on a length,
-- and `safe.Uint64ToInt`, with `none` for their error.
pub record Platform : Type 0 where
  pub equal : Hash → Hash → Bool
  pub equal_iff : (a b : Hash) → (equal a b ≡ true) ↔ (a ≡ b)
  pub new_hash : Bytes → Option Hash
  pub new_hash_lem : (b : Bytes) → length b ≡ 32 → new_hash b ≡ some b
  pub sum256 : Bytes → Hash
  pub sum256-IsHash : (b : Bytes) → IsHash (sum256 b)
  pub grow : ℕ → ℕ → ℕ
  pub need-le-grow : (old need : ℕ) → need ≤ grow old need
  pub max_alloc : ℕ
  pub max_alloc-lt : max_alloc < 2 ^ 63
  pub int_of_neg_inf : ℤ
  pub int_of_nan : ℤ
  pub int_of_large : ℤ
  pub int_to_uint32 : ℕ → Option ℕ
  pub int_to_uint32_lem : (n : ℕ) → n < 2 ^ 32 → int_to_uint32 n ≡ some n
  pub uint64_to_int : ℕ → Option ℤ
  pub uint64_to_int_lem : (n : ℕ) → n < 2 ^ 63 → uint64_to_int n ≡ some (pos n)
