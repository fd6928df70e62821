-- ===== src/Inpoints.antt =====
-- inpoints.go. A slice is the list of its elements: one that shares its storage with another, as
-- `NewTxInpointsFromPacked` and `GetParentVoutsAtIndex` make it, is a copy here, and a slice
-- expression that reaches past the length, into the capacity, is a panic. `String` is left out.
pub mod Groups
pub mod Packed
pub mod Query
pub mod Build
pub mod RoundTrip
mod Tests
use go_subtree.Prelude.{
  ℕ, zero, suc, ◌+◌, ◌-◌, ◌*◌, ◌%◌, ◌^◌, Bool, true, false, not, ◌&&◌, ◌||◌, Option, none, some,
  List, [], ◌∷◌, ◌++◌, ℤ, pos, negsuc, ltb, ◌==◌, if◌then◌else◌, length, get_elem?, set, take, drop,
  replicate,
}
use go_subtree.Errors.{
  Result, ok, err, panic, ◌>>=◌, index_out_of_range, parent_tx_hashes_mismatch, Stage,
}
use go_subtree.Hash.{Bytes, Hash, zero_hash, hash_eq, Platform}
use go_subtree.Reader.{Progress, and_then, put_u32, hashes_bytes, read_u32, read_hashes}
use go_subtree.Bt.{Bt}

pub record Inpoint : Type 0 where
  pub hash : Hash
  pub index : ℕ

-- `none` is a nil slice, which `Meta.Serialize` tells from an empty one.
pub record TxInpoints : Type 0 where
  pub parent_tx_hashes : Option (List Hash)
  pub vout_idxs : List ℕ
  pub subtree_index : ℤ

abbrev pub u32 : ℕ
u32 = 2 ^ 32

-- The elements of a slice that may be nil.
abbrev pub elements {ℓ} : {A : Type ℓ} → Option (List A) → List A
elements none = []
elements (some xs) = xs

-- `TxInpoints{}`.
abbrev pub zero_inpoints : TxInpoints
zero_inpoints = record { parent_tx_hashes = none; vout_idxs = []; subtree_index = pos 0 }

pub new_tx_inpoints : TxInpoints
new_tx_inpoints = record { parent_tx_hashes = some []; vout_idxs = []; subtree_index = pos 0 }

pub new_tx_inpoints_from_packed : Option (List Hash) → List ℕ → TxInpoints
new_tx_inpoints_from_packed parents vout_idxs = record {
  parent_tx_hashes = parents;
  vout_idxs = vout_idxs;
  subtree_index = pos 0;
}

-- `p.voutIdxs[i]`.
pub word_at : List ℕ → ℕ → Result ℕ
word_at words i = elim (get_elem? words i) [ none ↦ panic | some w ↦ ok w ]

-- The loops that step over a number of parents, from a count word on.
pub walk : ℕ → ℕ → List ℕ → Result ℕ
walk zero place words = ok place
walk (suc j) place words = do count ← word_at words place; walk j (place + (1 + count)) words

-- `p.voutIdxs[low:high]`.
pub slice : List ℕ → ℕ → ℕ → Result (List ℕ)
slice words low high =
    if ltb (length words) high then panic else ok (take (high - low) (drop low words))

pub vout_slice_for_parent : TxInpoints → ℕ → Result (List ℕ)
vout_slice_for_parent p i = do
  place ← walk i 0 p.vout_idxs
  count ← word_at p.vout_idxs place
  slice p.vout_idxs (place + 1) (place + 1 + count)

pub get_parent_tx_hashes : TxInpoints → Option (List Hash)
get_parent_tx_hashes p = p.parent_tx_hashes

pub get_parent_tx_hash_at_index : TxInpoints → ℤ → Result Hash
get_parent_tx_hash_at_index p (negsuc i) = err index_out_of_range
get_parent_tx_hash_at_index p (pos i) = elim (get_elem? (elements p.parent_tx_hashes) i) [
  | none ↦ err index_out_of_range
  | some h ↦ ok h
]

pub get_parent_vouts_at_index : TxInpoints → ℤ → Result (List ℕ)
get_parent_vouts_at_index p (negsuc i) = err index_out_of_range
get_parent_vouts_at_index p (pos i) =
    if ltb i (length (elements p.parent_tx_hashes))
    then vout_slice_for_parent p i
    else err index_out_of_range

pub nr_inputs : TxInpoints → ℤ
nr_inputs p =
    let count = length (elements p.parent_tx_hashes) in
    let words = length p.vout_idxs in
    if count == 0
    then pos 0
    else if ltb words count
    then negsuc (count - words - 1)
    else pos (words - count)

-- The inner loop of `GetTxInpoints`: `k` inpoints of one parent.
pub points : Hash → ℕ → ℕ → List ℕ → Result (List Inpoint)
points h zero i words = ok []
points h (suc k) i words = do
  v ← word_at words i
  rest ← points h k (suc i) words
  ok (record { hash = h; index = v } ∷ rest)

-- The outer loop, from the parent whose count word stands at `place`.
pub collect : List Hash → ℕ → List ℕ → Result (List Inpoint)
collect [] place words = ok []
collect (h ∷ hs) place words = do
  count ← word_at words place
  here ← points h count (place + 1) words
  rest ← collect hs (place + (1 + count)) words
  ok (here ++ rest)

-- `make` panics on a negative capacity.
pub get_tx_inpoints : TxInpoints → Result (List Inpoint)
get_tx_inpoints p = elim (nr_inputs p) [
  | negsuc n ↦ panic
  | pos n ↦ collect (elements p.parent_tx_hashes) 0 p.vout_idxs
]

pub len32 {ℓ} : {A : Type ℓ} → Option (List A) → ℕ
len32 none = 0
len32 (some xs) = if ltb (u32 - 1) (length xs) then 2 ^ 31 - 1 else length xs

pub words_bytes : List ℕ → Bytes
words_bytes [] = []
words_bytes (w ∷ ws) = put_u32 w ++ words_bytes ws

-- The check of the layout at the head of `Serialize`.
pub is_mismatch : ℕ → ℕ → Bool
is_mismatch parents words =
    (parents == 0 && not (words == 0)) || (ltb 0 parents && ltb words parents)

pub serialize_inpoints : TxInpoints → Result Bytes
serialize_inpoints p =
    if is_mismatch (length (elements p.parent_tx_hashes)) (length p.vout_idxs)
    then err parent_tx_hashes_mismatch
    else ok (
        put_u32 (len32 p.parent_tx_hashes)
        ++ (hashes_bytes (elements p.parent_tx_hashes) ++ words_bytes p.vout_idxs))

-- `slices.Index`, with `none` for -1.
pub index_of : Hash → List Hash → Option ℕ
index_of h [] = none
index_of h (k ∷ ks) = elim (hash_eq k h) [
  | true ↦ some 0
  | false ↦ elim (index_of h ks) [ none ↦ none | some i ↦ some (suc i) ]
]

-- The words after the `append`, the `copy` and the two writes: the new one at `place`, and the count
-- raised. The slice expressions of the `copy` panic where `insert_at` is past the end.
pub insert_word : List ℕ → ℕ → ℕ → ℕ → Result (List ℕ)
insert_word words place count vout =
    let insert_at = place + 1 + count in
    if ltb (length words) insert_at
    then panic
    else ok (set (take insert_at words ++ vout ∷ drop insert_at words) place ((count + 1) % u32))

pub append_input : TxInpoints → Hash → ℕ → Result TxInpoints
append_input p hash vout = elim (index_of hash (elements p.parent_tx_hashes)) [
  | none ↦ ok (record p {
    parent_tx_hashes = some (elements p.parent_tx_hashes ++ hash ∷ []);
    vout_idxs = p.vout_idxs ++ 1 ∷ vout ∷ [];
  })
  | some idx ↦ do
    place ← walk idx 0 p.vout_idxs
    count ← word_at p.vout_idxs place
    words ← insert_word p.vout_idxs place count vout
    ok (record p { vout_idxs = words })
]

module _ (bt : Bt) where
  open bt use {Tx, Input, inputs, previous_tx_id, previous_tx_out_index}

  -- The loop of `newSizedFromInputs`; a nil hash panics where it is dereferenced.
  pub append_all : TxInpoints → List Input → Result TxInpoints
  append_all p [] = ok p
  append_all p (i ∷ is) = elim (previous_tx_id i) [
    | none ↦ panic
    | some h ↦ do q ← append_input p h (previous_tx_out_index i); append_all q is
  ]

  pub new_sized_from_inputs : List Input → Result TxInpoints
  new_sized_from_inputs [] = ok zero_inpoints
  new_sized_from_inputs (i ∷ is) =
      append_all (record { parent_tx_hashes = some []; vout_idxs = []; subtree_index = pos 0 })
        (i ∷ is)

  -- `NewTxInpointsFromTx`.
  unfoldable pub new_tx_inpoints_from_tx : Tx → Result TxInpoints
  new_tx_inpoints_from_tx tx = new_sized_from_inputs (inputs tx)

-- The inner loop of `deserializeFromReader`: `k` index words.
pub read_words : ℕ → List ℕ → Bytes → Progress (List ℕ)
read_words zero words input = (ok input, words)
read_words (suc k) words input =
    read_u32 Stage.parent_index (λ v rest. read_words k (words ++ v ∷ []) rest) words input

-- The outer loop: for each of `k` parents a count word and as many index words.
pub read_runs : ℕ → List ℕ → Bytes → Progress (List ℕ)
read_runs zero words input = (ok input, words)
read_runs (suc k) words input =
    read_u32 Stage.num_indexes
      (λ count rest. and_then (read_words count (words ++ count ∷ []) rest) (read_runs k)) words
      input

-- Both loops, in the receiver.
pub fill_vouts : ℕ → TxInpoints → Bytes → Progress TxInpoints
fill_vouts n p input = let (r, words) = read_runs n [] input in (r, record p { vout_idxs = words })

module _ (platform : Platform) where
  pub fill_parents : TxInpoints → ℕ → Bytes → Progress TxInpoints
  fill_parents p n input =
      if n == 0
      then (ok input, p)
      else if ltb platform.max_alloc (n * 32)
      then (panic, p)
      else let (r, hashes) = read_hashes Stage.parent_hash n 0 input (replicate n zero_hash) in
        and_then (r, record p { parent_tx_hashes = some hashes }) (fill_vouts n)

  pub deserialize_inpoints : TxInpoints → Bytes → Progress TxInpoints
  deserialize_inpoints p input = read_u32 Stage.num_parents (fill_parents p) p input

  -- `NewTxInpointsFromReader` and, without what is left of the input, `NewTxInpointsFromBytes`.
  pub new_tx_inpoints_from_reader : Bytes → Progress TxInpoints
  new_tx_inpoints_from_reader input = deserialize_inpoints zero_inpoints input
