-- ===== src/Codec/Extends.antt =====
-- A reader that succeeds on an input does the same on a longer one, and leaves the additional bytes.
use go_subtree.Prelude.{
  ℕ, zero, suc, ◌*◌, ◌≡◌, inl, inr, Option, List, ◌++◌, take, drop, set, ltb, Bool-cases, replicate,
  int_of_u64, pos,
}
use go_subtree.Errors.{Result-cases, ok, Stage}
use go_subtree.Hash.{Bytes, zero_hash, Platform}
use go_subtree.Node.{Node}
use go_subtree.Subtree.{Subtree, log2_height}
use go_subtree.Codec.{
  read_root, read_fees, read_size, node_of, read_nodes, NodeAllocator, node_space, fill_nodes,
  deserialize_nodes_with_allocator, fill_conflicting, deserialize_conflicting_nodes, read_all,
}
use go_subtree.Reader.{read_hashes}
use go_subtree.Reader.Extends.{
  Extends, and_then-Extends, read_full_long, read_full_more, read_full-cases, fill_more,
  read_uint-Extends, read_hashes_more, inside, no_error, no_panic, longer,
}

pub read_root-Extends : (s : Subtree) → Extends (read_root s)
unfolding read_root
read_root-Extends s x y r t e = elim (read_full-cases Stage.root_hash 32 x) [
  | inl long ↦
      rw (read_full_more Stage.root_hash 32 x y long, fill_more x y long)
        (longer y (rw (read_full_long Stage.root_hash 32 x long) at e))
  | inr (k, f) ↦ absurd (no_error (rw f at e))
]

read_nodes_more :
    (k i : ℕ) (x y r : Bytes) (old new : List Node)
    → read_nodes k i x old ≡ (ok r, new)
    → read_nodes k i (x ++ y) old ≡ (ok (r ++ y), new)
unfolding read_nodes
read_nodes_more zero i x y r old new e = longer y e
read_nodes_more (suc k) i x y r old new e = elim (read_full-cases Stage.node 48 x) [
  | inl long ↦
      rw (read_full_more Stage.node 48 x y long, read_nodes)
        (read_nodes_more k (suc i) (drop 48 x) y r (set old i (node_of (take 48 x))) new
          (rw (read_full_long Stage.node 48 x long, read_nodes) at e))
  | inr (c, f) ↦ absurd (no_error (rw (f, read_nodes) at e))
]

pub read_fees-Extends : (s : Subtree) → Extends (read_fees s)
unfolding read_fees
read_fees-Extends s = read_uint-Extends 8 Stage.fees _ s (λ n x y r t e. longer y e)

pub read_size-Extends : (s : Subtree) → Extends (read_size s)
unfolding read_size
read_size-Extends s = read_uint-Extends 8 Stage.size_in_bytes _ s (λ n x y r t e. longer y e)

module _ (p : Platform) where
  fill_nodes-Extends :
      (alloc : Option NodeAllocator) (s : Subtree) (n : ℕ) → Extends (fill_nodes p alloc s n)
  unfolding fill_nodes
  fill_nodes-Extends alloc s n x y r t e = elim (Result-cases (node_space p alloc n)) [
    | inl (found, f) ↦
        rw (f, fill_nodes)
          (inside (read_nodes n 0 x found.0) (read_nodes n 0 (x ++ y) found.0)
            (λ nodes. record s {
              tree_size = int_of_u64 n;
              height = log2_height p (pos n);
              nodes = nodes;
              nodes_cap = found.1;
            })
            y r t (λ new. read_nodes_more n 0 x y r found.0 new) (rw (f, fill_nodes) at e))
    | inr (inl (k, f)) ↦ absurd (no_error (rw (f, fill_nodes) at e))
    | inr (inr f) ↦ absurd (no_panic (rw (f, fill_nodes) at e))
  ]

  fill_conflicting-Extends : (s : Subtree) (n : ℕ) → Extends (fill_conflicting p s n)
  unfolding fill_conflicting
  fill_conflicting-Extends s n x y r t e = elim (Bool-cases (ltb p.max_alloc (n * 32))) [
    | inl f ↦ absurd (no_panic (rw f at e))
    | inr f ↦ rw f (
        inside (read_hashes Stage.conflicting n 0 x (replicate n zero_hash))
          (read_hashes Stage.conflicting n 0 (x ++ y) (replicate n zero_hash))
          (λ hashes. record s { conflicting_nodes = hashes }) y r t
          (λ new. read_hashes_more Stage.conflicting n 0 x y r (replicate n zero_hash) new)
          (rw f at e))
  ]

  nodes-Extends :
      (alloc : Option NodeAllocator) (s : Subtree)
      → Extends (deserialize_nodes_with_allocator p alloc s)
  unfolding deserialize_nodes_with_allocator
  nodes-Extends alloc s =
      read_uint-Extends 8 Stage.num_leaves (fill_nodes p alloc s) s (fill_nodes-Extends alloc s)

  conflicting-Extends : (s : Subtree) → Extends (deserialize_conflicting_nodes p s)
  unfolding deserialize_conflicting_nodes
  conflicting-Extends s =
      read_uint-Extends 8 Stage.num_conflicting (fill_conflicting p s) s
        (fill_conflicting-Extends s)

  pub read_all-Extends : (alloc : Option NodeAllocator) (s : Subtree) → Extends (read_all p alloc s)
  unfolding read_all
  read_all-Extends alloc s =
      and_then-Extends _ (deserialize_conflicting_nodes p)
        (and_then-Extends _ (deserialize_nodes_with_allocator p alloc)
          (and_then-Extends _ read_size
            (and_then-Extends (read_root s) read_fees (read_root-Extends s) read_fees-Extends)
            read_size-Extends)
          (nodes-Extends alloc))
        conflicting-Extends
