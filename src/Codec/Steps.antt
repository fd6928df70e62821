-- ===== src/Codec/Steps.antt =====
-- Each reader of the whole subtree, on a part that `Serialize` has written.
use go_subtree.Prelude.{
  ℕ, zero, suc, ◌*◌, ◌^◌, ◌≤◌, ◌<◌, ◌≡◌, refl, ap, ◌∙◌, arith, Option, none, some, List, [], ◌∷◌,
  ◌++◌, append_assoc, length, length-replicate, take, replicate, All, pos, int_of_u64, ltb,
  Bool-cases, inl, inr, false,
}
use go_subtree.Errors.{ok, Stage}
use go_subtree.Hash.{Bytes, Hash, IsHash, zero_hash, Platform}
use go_subtree.Node.{Node, IsNode, u64}
use go_subtree.Merkle.{empty_node}
use go_subtree.Subtree.{Subtree, log2_height}
use go_subtree.Codec.{
  nodes_bytes, body_bytes, read_root, read_fees, read_size, NodeAllocator, node_space, make_nodes,
  fill_nodes, deserialize_nodes_with_allocator, fill_conflicting, deserialize_conflicting_nodes,
}
use go_subtree.Reader.{put_u64, hashes_bytes}
use go_subtree.Codec.Reads.{read_nodes-nodes_bytes}
use go_subtree.Reader.Laws.{read_full-append, fill-append, read_u64-put, read_hashes-hashes_bytes}

-- What Go's types say of a subtree's fields, and room in memory for its lists.
pub record IsWritable (p : Platform) (s : Subtree) : Type 0 where
  pub fees : s.fees < u64
  pub size_in_bytes : s.size_in_bytes < u64
  pub nodes : All IsNode s.nodes
  pub conflicting : All IsHash s.conflicting_nodes
  pub nodes_int : length s.nodes < 2 ^ 63
  pub conflicting_int : length s.conflicting_nodes < 2 ^ 63
  pub nodes_room : length s.nodes * 48 ≤ p.max_alloc
  pub conflicting_room : length s.conflicting_nodes * 32 ≤ p.max_alloc

pub read_root-append :
    (u : Subtree) (h rest : Bytes)
    → length h ≡ 32
    → read_root u (h ++ rest) ≡ (ok rest, record u { root_hash = some h })
unfolding read_root
read_root-append u h rest e =
    rw (fill-append h rest e, read_full-append Stage.root_hash 32 h rest e) refl

length-take : (n : ℕ) (xs : List Node) → n ≤ length xs → length (take n xs) ≡ n
length-take zero xs h = refl
length-take (suc n) [] h = absurd (omega arith)
length-take (suc n) (x ∷ xs) h = ap suc (length-take n xs (omega arith))

pub int_small : (n : ℕ) → n < 2 ^ 63 → int_of_u64 n ≡ pos n
int_small n h = ground arith

pub not_above : (a b : ℕ) → b ≤ a → ltb a b ≡ false
not_above a b h = ground arith

above : (a b : ℕ) → ltb a b ≡ false → b ≤ a
above a b h = ground arith

module _ (p : Platform) where
  make_nodes_lem : (n : ℕ) → n * 48 ≤ p.max_alloc → make_nodes p n ≡ ok (replicate n empty_node, n)
  unfolding make_nodes
  make_nodes_lem n h = rw (not_above p.max_alloc (n * 48) h) refl

  -- Whatever the allocator returns, there is room for the nodes.
  node_space_lem :
      (alloc : Option NodeAllocator) (n : ℕ)
      → n < 2 ^ 63
      → n * 48 ≤ p.max_alloc
      → (space : List Node) × (cap : ℕ) × (node_space p alloc n ≡ ok (space, cap))
        × (length space ≡ n)
        × (n ≤ cap)
  unfolding node_space
  node_space_lem none n i h =
      (replicate n empty_node, n, make_nodes_lem n h, length-replicate n empty_node, omega arith)
  node_space_lem (some alloc) n i h =
      rw (int_small n i) (elim (Bool-cases (ltb (length (alloc (pos n))) n)) [
        | inl y ↦ (
          replicate n empty_node,
          n,
          rw y (make_nodes_lem n h),
          length-replicate n empty_node,
          omega arith,
        )
        | inr z ↦ (
          take n (alloc (pos n)),
          length (alloc (pos n)),
          rw z refl,
          length-take n (alloc (pos n)) (above _ n z),
          above _ n z,
        )
      ])

  pub fill_nodes_lem :
      (alloc : Option NodeAllocator) (u : Subtree) (ns : List Node) (rest : Bytes)
      → All IsNode ns
      → length ns < 2 ^ 63
      → length ns * 48 ≤ p.max_alloc
      → (cap : ℕ) × (length ns ≤ cap)
        × (fill_nodes p alloc u (length ns) (nodes_bytes ns ++ rest) ≡ (
          ok rest,
          record u {
            tree_size = pos (length ns);
            height = log2_height p (pos (length ns));
            nodes = ns;
            nodes_cap = cap;
          },
        ))
  unfolding fill_nodes
  fill_nodes_lem alloc u ns rest x i h =
      let (space, cap, e, size, room) = node_space_lem alloc (length ns) i h in
      (
        cap,
        room,
        rw (e, fill_nodes, int_small (length ns) i, read_nodes-nodes_bytes ns [] space rest x size)
            refl,
      )

  fill_conflicting_lem :
      (u : Subtree) (hs : List Hash) (rest : Bytes)
      → All IsHash hs
      → length hs * 32 ≤ p.max_alloc
      → fill_conflicting p u (length hs) (hashes_bytes hs ++ rest)
        ≡ (ok rest, record u { conflicting_nodes = hs })
  unfolding fill_conflicting
  fill_conflicting_lem u hs rest x h =
      rw
        (
          not_above p.max_alloc (length hs * 32) h,
          read_hashes-hashes_bytes Stage.conflicting hs [] (replicate (length hs) zero_hash) rest x
              (length-replicate (length hs) zero_hash),
        )
        refl

six :
    (a b c d e f r : Bytes)
    → (a ++ (b ++ (c ++ (d ++ (e ++ f))))) ++ r ≡ a ++ (b ++ (c ++ (d ++ (e ++ (f ++ r)))))
six a b c d e f r = simp append_assoc refl

abbrev pub written : Subtree → Bytes → Bytes
written s rest =
    put_u64 s.fees
    ++ (put_u64 s.size_in_bytes
        ++ (put_u64 (length s.nodes)
            ++ (nodes_bytes s.nodes
                ++ (put_u64 (length s.conflicting_nodes)
                    ++ (hashes_bytes s.conflicting_nodes ++ rest)))))

pub read_fees-put :
    (u : Subtree) (n : ℕ) (rest : Bytes)
    → n < u64
    → read_fees u (put_u64 n ++ rest) ≡ (ok rest, record u { fees = n })
unfolding read_fees
read_fees-put u n rest h = read_u64-put Stage.fees _ u n rest h

pub read_size-put :
    (u : Subtree) (n : ℕ) (rest : Bytes)
    → n < u64
    → read_size u (put_u64 n ++ rest) ≡ (ok rest, record u { size_in_bytes = n })
unfolding read_size
read_size-put u n rest h = read_u64-put Stage.size_in_bytes _ u n rest h

pub fits : (n : ℕ) → n < 2 ^ 63 → n < u64
fits n h = omega arith

pub body_rest : (s : Subtree) (rest : Bytes) → body_bytes s ++ rest ≡ written s rest
unfolding body_bytes
body_rest s rest =
    six (put_u64 s.fees) (put_u64 s.size_in_bytes) (put_u64 (length s.nodes)) (nodes_bytes s.nodes)
      (put_u64 (length s.conflicting_nodes)) (hashes_bytes s.conflicting_nodes) rest

module _ (p : Platform) where
  pub conflicting_lem :
      (u : Subtree) (hs : List Hash) (rest : Bytes)
      → All IsHash hs
      → length hs < 2 ^ 63
      → length hs * 32 ≤ p.max_alloc
      → deserialize_conflicting_nodes p u (put_u64 (length hs) ++ (hashes_bytes hs ++ rest))
        ≡ (ok rest, record u { conflicting_nodes = hs })
  unfolding deserialize_conflicting_nodes
  conflicting_lem u hs rest x i h =
      read_u64-put Stage.num_conflicting (fill_conflicting p u) u (length hs)
        (hashes_bytes hs ++ rest) (fits _ i)
      ∙ fill_conflicting_lem p u hs rest x h

  pub nodes_lem :
      (alloc : Option NodeAllocator) (u : Subtree) (n : ℕ) (rest : Bytes)
      → n < 2 ^ 63
      → deserialize_nodes_with_allocator p alloc u (put_u64 n ++ rest) ≡ fill_nodes p alloc u n rest
  unfolding deserialize_nodes_with_allocator
  nodes_lem alloc u n rest i =
      read_u64-put Stage.num_leaves (fill_nodes p alloc u) u n rest (fits _ i)
