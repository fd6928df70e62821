-- ===== src/Reader.antt =====
-- What the decoders of the package share: numbers low byte first, `io.ReadFull` over an input that
-- is the list of its bytes, and the outcome of a reading together with what it has filled in so far.
pub mod Words
pub mod Laws
pub mod Extends
use go_subtree.Prelude.{
  ℕ, zero, suc, ◌+◌, ◌*◌, ◌/◌, ◌%◌, ◌^◌, Option, none, some, List, [], ◌∷◌, ◌++◌, ℤ, pos, negsuc,
  ltz, ltb, ◌==◌, if◌then◌else◌, length, take, drop, set, replicate, int_of_u64,
}
use go_subtree.Errors.{Result, ok, err, panic, read_failed, Stage, ReadError, eof, unexpected_eof}
use go_subtree.Hash.{Bytes, Hash, zero_hash}

-- `w` bytes of a number, the lowest first; `binary.LittleEndian` with `w` 8 and 4.
unfoldable pub le_bytes : ℕ → ℕ → Bytes
le_bytes zero n = []
le_bytes (suc w) n = n % 256 ∷ le_bytes w (n / 256)

unfoldable pub from_le : Bytes → ℕ
from_le [] = 0
from_le (b ∷ bs) = b + 256 * from_le bs

abbrev pub put_u64 : ℕ → Bytes
put_u64 n = le_bytes 8 n

abbrev pub put_u32 : ℕ → Bytes
put_u32 n = le_bytes 4 n

unfoldable pub hashes_bytes : List Hash → Bytes
hashes_bytes [] = []
hashes_bytes (h ∷ hs) = h ++ hashes_bytes hs

-- `io.ReadFull` into `n` bytes: the bytes read, and the rest of the input.
unfoldable pub read_full : Stage → ℕ → Bytes → Result (Bytes × Bytes)
read_full stage n input =
    if ltb (length input) n
    then err (read_failed stage (if length input == 0 then eof else unexpected_eof))
    else ok (take n input, drop n input)

-- An array of 32 zero bytes after a read into it, a failed one included.
unfoldable pub fill : Bytes → Hash
fill input = take 32 (input ++ zero_hash)

-- The rest of the input, or how the reading ended, and the receiver.
abbrev pub Progress : Type 0 → Type 0
Progress A = Result Bytes × A

unfoldable pub and_then : {A : Type 0} → Progress A → (A → Bytes → Progress A) → Progress A
and_then (ok b, s) f = f s b
and_then (err e, s) f = (err e, s)
and_then (panic, s) f = (panic, s)

-- A read of a number of `w` bytes, and the assignment that follows it.
unfoldable pub read_uint :
    {A : Type 0} → ℕ → Stage → (ℕ → Bytes → Progress A) → A → Bytes → Progress A
read_uint w stage assign s input = elim (read_full stage w input) [
  | ok (word, rest) ↦ assign (from_le word) rest
  | err e ↦ (err e, s)
  | panic ↦ (panic, s)
]

abbrev pub read_u64 : {A : Type 0} → Stage → (ℕ → Bytes → Progress A) → A → Bytes → Progress A
read_u64 = read_uint 8

abbrev pub read_u32 : {A : Type 0} → Stage → (ℕ → Bytes → Progress A) → A → Bytes → Progress A
read_u32 = read_uint 4

-- A loop that reads hashes into a list, with `i` the index of the next one and as many to read as is
-- said.
unfoldable pub read_hashes : Stage → ℕ → ℕ → Bytes → List Hash → Progress (List Hash)
read_hashes stage zero i input hashes = (ok input, hashes)
read_hashes stage (suc k) i input hashes = elim (read_full stage 32 input) [
  | ok (h, rest) ↦ read_hashes stage k (suc i) rest (set hashes i (fill input))
  | err e ↦ (err e, set hashes i (fill input))
  | panic ↦ (panic, hashes)
]
