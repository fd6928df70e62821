-- ===== src/Data/Read/Chunks.antt =====
-- The transactions that `ReadTransactionChunk` returns.
use go_subtree.Prelude.{
  ℕ, zero, suc, ◌*◌, ◌≤◌, ◌≡◌, refl, sym, ap, ◌∙◌, arith, false, ◌&&◌, Bool-cases, inl, inr, some,
  Option-cases, List, [], ◌∷◌, ◌++◌, append_assoc, append-nil, pos, ltb, ◌==◌, if◌then◌else◌,
  ne→==-false, length, get_elem?, drop, none-ne-some, some_inj,
}
use go_subtree.Hash.{Bytes, Platform}
use go_subtree.Node.{Node}
use go_subtree.Subtree.{Subtree}
use go_subtree.Bt.{Bt, TxRead-cases}
use go_subtree.Data.{is_placeholder}
use go_subtree.Data.Read.{read_chunk, read_transaction_chunk}

module _ (platform : Platform) (bt : Bt) where
  open bt use {Tx, tx_id, read_from}

  -- The transactions are those of the first nodes, one by one.
  abbrev pub Begin : List Node → List Tx → Type 0
  Begin ns [] = Unit
  Begin [] (t ∷ ts) = ⊥
  Begin (n ∷ ns) (t ∷ ts) = (n.hash ≡ tx_id t) × Begin ns ts

  -- The nodes whose transactions are read, from an index on: without a placeholder in front.
  abbrev pub wanted : ℕ → List Node → List Node
  wanted zero [] = []
  wanted zero (n ∷ ns) = if is_placeholder platform bt n then ns else n ∷ ns
  wanted (suc i) nodes = drop (suc i) nodes

  -- What a loop over at most `k` nodes returns, that has read `txs` before: these, and those of the
  -- nodes `ns` that it has come to.
  abbrev pub Adds : ℕ → List Node → List Tx → List Tx → Type 0
  Adds k ns txs out = (more : List Tx) × (out ≡ txs ++ more) × Begin ns more × (length more ≤ k)

  Adds-none : (k : ℕ) (ns : List Node) (txs : List Tx) → Adds k ns txs txs
  Adds-none k ns txs = ([], sym (append-nil txs), tt, omega arith)

  Adds-one :
      (k : ℕ) (n : Node) (ns : List Node) (tx : Tx) (txs out : List Tx)
      → n.hash ≡ tx_id tx
      → Adds k ns (txs ++ tx ∷ []) out
      → Adds (suc k) (n ∷ ns) txs out
  Adds-one k n ns tx txs out same (more, e, b, few) =
      (tx ∷ more, e ∙ append_assoc txs (tx ∷ []) more, (same, b), omega arith)

  Adds-more :
      (k : ℕ) (ns : List Node) (txs out : List Tx) → Adds k ns txs out → Adds (suc k) ns txs out
  Adds-more k ns txs out (more, e, b, few) = (more, e, b, omega arith)

  wanted_next :
      (i : ℕ) (nodes : List Node) (n : Node)
      → get_elem? nodes i ≡ some n
      → drop i nodes ≡ n ∷ drop (suc i) nodes
  wanted_next i [] n e = absurd (none-ne-some e)
  wanted_next zero (m ∷ ms) n e = ap (λ (a : Node). a ∷ ms) (some_inj e)
  wanted_next (suc i) (m ∷ ms) n e = wanted_next i ms n e

  -- One round at a node that is not skipped, before rounds that are right.
  read_one :
      (k i : ℕ) (nodes : List Node) (n : Node) (txs : List Tx) (input : Bytes)
      → get_elem? nodes i ≡ some n
      → (i == 0 && is_placeholder platform bt n) ≡ false
      → ((done : List Tx) (rest : Bytes)
          → Adds k (drop (suc i) nodes) done (read_chunk platform bt k (suc i) nodes done rest).1)
      → Adds
          (suc k)
          (n ∷ drop (suc i) nodes)
          txs
          (read_chunk platform bt (suc k) i nodes txs input).1
  unfolding read_chunk
  read_one k i nodes n txs input at plain later = elim (TxRead-cases (read_from input).0) [
    | inl e ↦ rw (at, read_chunk, plain, e) (Adds-none (suc k) (n ∷ drop (suc i) nodes) txs)
    | inr (inl e) ↦ rw (at, read_chunk, plain, e) (Adds-none (suc k) (n ∷ drop (suc i) nodes) txs)
    | inr (inr (tx, e)) ↦ elim (Bool-cases (platform.equal n.hash (tx_id tx))) [
      | inl y ↦
          rw (at, read_chunk, plain, e, y)
            (Adds-one k n (drop (suc i) nodes) tx txs _ ((platform.equal_iff n.hash (tx_id tx)).0 y)
              (later (txs ++ tx ∷ []) (read_from input).1))
      | inr z ↦ rw (at, read_chunk, plain, e, z) (Adds-none (suc k) (n ∷ drop (suc i) nodes) txs)
    ]
  ]

  read_chunk-suc :
      (k i : ℕ) (nodes : List Node) (txs : List Tx) (input : Bytes)
      → Adds k (drop (suc i) nodes) txs (read_chunk platform bt k (suc i) nodes txs input).1
  unfolding read_chunk
  read_chunk-suc zero i nodes txs input = Adds-none 0 (drop (suc i) nodes) txs
  read_chunk-suc (suc k) i nodes txs input = elim (Option-cases (get_elem? nodes (suc i))) [
    | inl past ↦ rw (past, read_chunk) (Adds-none (suc k) (drop (suc i) nodes) txs)
    | inr (n, at) ↦ rw (wanted_next (suc i) nodes n at) (
        read_one k (suc i) nodes n txs input at (rw (ne→==-false (suc i) 0 (λ z. omega arith)) refl)
          (λ done rest. read_chunk-suc k (suc i) nodes done rest))
  ]

  read_chunk-zero :
      (k : ℕ) (nodes : List Node) (txs : List Tx) (input : Bytes)
      → Adds k (wanted 0 nodes) txs (read_chunk platform bt k 0 nodes txs input).1
  unfolding read_chunk
  read_chunk-zero zero nodes txs input = Adds-none 0 (wanted 0 nodes) txs
  read_chunk-zero (suc k) [] txs input = Adds-none (suc k) [] txs
  read_chunk-zero (suc k) (n ∷ ns) txs input = elim (Bool-cases (is_placeholder platform bt n)) [
    | inl y ↦ rw (y, read_chunk) (Adds-more k ns txs _ (read_chunk-suc k 0 (n ∷ ns) txs input))
    | inr z ↦ rw z (
        read_one k 0 (n ∷ ns) n txs input refl z
          (λ done rest. read_chunk-suc k 0 (n ∷ ns) done rest))
  ]

  -- No more transactions than `count`, and those of the first nodes.
  abbrev pub IsPrefix : ℕ → List Node → List Tx → Type 0
  IsPrefix count ns txs = Begin ns txs × (length txs ≤ count)

  read_chunk-IsPrefix :
      (k i : ℕ) (nodes : List Node) (input : Bytes)
      → IsPrefix k (wanted i nodes) (read_chunk platform bt k i nodes [] input).1
  read_chunk-IsPrefix k zero nodes input =
      let (more, e, b, few) = read_chunk-zero k nodes [] input in rw e (b, few)
  read_chunk-IsPrefix k (suc i) nodes input =
      let (more, e, b, few) = read_chunk-suc k i nodes [] input in rw e (b, few)

  -- However `ReadTransactionChunk` ends, from an index and with a count that are not negative,
  -- whatever the input: the transactions that it returns have the hashes of the nodes from the index
  -- on, one by one, where a coinbase placeholder in the first place is left out; and there are no more
  -- than were asked for.
  pub read_transaction_chunk-IsPrefix :
      (s : Subtree) (start count : ℕ) (input : Bytes)
      → IsPrefix count
          (wanted start s.nodes)
          (read_transaction_chunk platform bt input (some s) (pos start) (pos count)).1
  unfolding read_transaction_chunk
  read_transaction_chunk-IsPrefix s start count input = elim (Bool-cases (length s.nodes == 0)) [
    | inl y ↦ rw y (tt, omega arith)
    | inr z ↦ elim (Bool-cases (ltb platform.max_alloc (count * 8))) [
      | inl y ↦ rw (z, y) (tt, omega arith)
      | inr w ↦ rw (z, w) (read_chunk-IsPrefix count start s.nodes input)
    ]
  ]
