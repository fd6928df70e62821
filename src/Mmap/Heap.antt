-- ===== src/Mmap/Heap.antt =====
-- Where the system has room, the mapped nodes are those that the other readers and constructors keep
-- in memory.
use go_subtree.Prelude.{
  ℕ, zero, suc, ◌-◌, ◌*◌, ◌%◌, ◌^◌, ◌≤◌, ◌<◌, ◌≡◌, refl, sym, ap, ◌∙◌, arith, false, inl, inr, none,
  some, List, [], ◌∷◌, ◌++◌, append-nil, set-append, next_index, lt→ltb, pos, length, replicate,
  int_of_u64,
}
use go_subtree.Errors.{Result, ok, err, panic, Result-cases, Stage}
use go_subtree.Hash.{Bytes, Platform}
use go_subtree.Node.{Node, u64}
use go_subtree.Os.{Os, IsRoomy}
use go_subtree.Merkle.{empty_node}
use go_subtree.Subtree.{Subtree, log2_height, node_size}
use go_subtree.Reader.{put_u64, read_full, Progress, and_then}
use go_subtree.Codec.Steps.{int_small, not_above, read_root-append, read_fees-put, read_size-put}
use go_subtree.Codec.{
  node_of, read_nodes, make_nodes, node_space, fill_nodes, deserialize_conflicting_nodes,
  zero_subtree,
}
use go_subtree.Mmap.{
  unix, MmapNodeStore, MmapSubtree, append_nodes, view_nodes, map_nodes, mmap_file,
  new_file_backed_mmap_nodes, read_conflicting_mapped, read_mapped, map_leaves, read_header,
}

-- The outcome of a loop that fills a list, as that of one that appends.
abbrev appended : Progress (List Node) → Result (List Node × Bytes)
appended (ok rest, nodes) = ok (nodes, rest)
appended (err e, nodes) = err e
appended (panic, nodes) = panic

append_nodes-read_nodes :
    (k : ℕ) (input : Bytes) (done : List Node)
    → append_nodes k input done
      ≡ appended (read_nodes k (length done) input (done ++ replicate k empty_node))
unfolding append_nodes read_nodes
append_nodes-read_nodes zero input done = rw (append-nil done) refl
append_nodes-read_nodes (suc k) input done = elim (Result-cases (read_full Stage.node 48 input)) [
  | inl ((x, rest), e) ↦
      rw
        (
          e,
          append_nodes,
          read_nodes,
          set-append done (replicate k empty_node) empty_node (node_of x),
          next_index done (node_of x),
        )
        (append_nodes-read_nodes k rest (done ++ node_of x ∷ []))
  | inr (inl (x, e)) ↦ rw (e, append_nodes, read_nodes) refl
  | inr (inr e) ↦ rw (e, append_nodes, read_nodes) refl
]

-- A subtree that a reader leaves, with a store.
abbrev pub with_store : MmapNodeStore → Progress Subtree → Result MmapSubtree
with_store store (ok rest, s) = ok (record { subtree = s; closer = some store })
with_store store (err e, s) = err e
with_store store (panic, s) = panic

-- What `deserializeNodesWithAllocator` leaves without an allocator, once the nodes are read.
abbrev in_memory : Subtree → ℕ → Progress (List Node) → Progress Subtree
in_memory s n (r, nodes) = (r, record s { nodes = nodes; nodes_cap = n })

module _ (os : Os) (roomy : IsRoomy os) where
  map_nodes_roomy :
      (capacity m fd : ℕ) (path : Bytes) (w : os.World)
      → capacity * 48 < u64
      → (store : MmapNodeStore) × ((map_nodes unix os capacity (pos (suc m)) fd path w).0
          ≡ ok (capacity, store))
  unfolding map_nodes mmap_file view_nodes
  map_nodes_roomy capacity m fd path w h =
      let (addr, there) = roomy.mmap fd m (os.truncate fd (pos (suc m)) w).1 in
      let seen : view_nodes capacity (pos (suc m)) ≡ some capacity =
        rw (lt→ltb 0 (suc m) (omega arith), lt→ltb (capacity * 48) u64 h) refl in
      (
        record { region = some addr; file_path = path; is_done = false },
        rw (roomy.truncate fd (suc m) w, there, seen) refl,
      )

  -- A mapping for so many nodes, with the capacity that is asked for.
  pub new_file_backed_mmap_nodes_lem :
      (c : ℕ) (dir : Bytes) (w : os.World)
      → suc c * 48 < 2 ^ 63
      → (store : MmapNodeStore) × ((new_file_backed_mmap_nodes unix os (pos (suc c)) dir w).0
          ≡ ok (suc c, store))
  unfolding new_file_backed_mmap_nodes
  new_file_backed_mmap_nodes_lem c dir w h =
      let (fd, path, file) = roomy.create_temp dir w in
      let m = suc c * 48 - 1 in
      let whole : suc c * node_size % u64 ≡ suc m = omega arith in
      let size : int_of_u64 (suc c * node_size % u64) ≡ pos (suc m) =
        ap int_of_u64 whole ∙ int_small (suc m) (omega arith) in
      let (store, made) =
        map_nodes_roomy (suc c) m fd path (os.create_temp dir w).1 (omega arith) in
      let found : new_file_backed_mmap_nodes unix os (pos (suc c)) dir w
          ≡ map_nodes unix os (suc c) (int_of_u64 (suc c * node_size % u64)) fd path
              (os.create_temp dir w).1 =
        rw (file, new_file_backed_mmap_nodes) refl in
      (
        store,
        ap (λ x. x.0)
              (found ∙ ap (λ n. map_nodes unix os (suc c) n fd path (os.create_temp dir w).1) size)
            ∙ made,
      )

  module _ (p : Platform) where
    read_conflicting_mapped-with_store :
        (s : Subtree) (store : MmapNodeStore) (input : Bytes) (w : os.World)
        → (read_conflicting_mapped unix os p
            (record { subtree = s; closer = some store })
            input
            w).0
          ≡ with_store store (deserialize_conflicting_nodes p s input)
    unfolding read_conflicting_mapped
    read_conflicting_mapped-with_store s store input w =
        elim (Result-cases (deserialize_conflicting_nodes p s input).0) [
          | inl (rest, e) ↦ rw (e, read_conflicting_mapped, with_store) refl
          | inr (inl (x, e)) ↦ rw (e, read_conflicting_mapped, with_store) refl
          | inr (inr e) ↦ rw (e, read_conflicting_mapped, with_store) refl
        ]

    read_mapped-with_store :
        (s : Subtree) (store : MmapNodeStore) (n : ℕ) (input : Bytes) (w : os.World)
        → (read_mapped unix os p (record { subtree = s; closer = some store }) n n input w).0
          ≡ with_store store (
              and_then
                (in_memory s n (read_nodes n 0 input (replicate n empty_node)))
                (deserialize_conflicting_nodes p))
    unfolding read_mapped and_then
    read_mapped-with_store s store n input w =
        let nodes = (read_nodes n 0 input (replicate n empty_node)).1 in
        elim (Result-cases (read_nodes n 0 input (replicate n empty_node)).0) [
          | inl (rest, e) ↦
              let read : append_nodes n input [] ≡ ok (nodes, rest) =
                append_nodes-read_nodes n input [] ∙ rw e refl in
              rw (e, and_then, read, read_mapped)
                (read_conflicting_mapped-with_store (record s { nodes = nodes; nodes_cap = n })
                  store rest w)
          | inr (inl (x, e)) ↦
              let read : append_nodes n input [] ≡ err x =
                append_nodes-read_nodes n input [] ∙ rw e refl in
              rw (e, and_then, read, read_mapped) refl
          | inr (inr e) ↦
              let read : append_nodes n input [] ≡ panic =
                append_nodes-read_nodes n input [] ∙ rw e refl in
              rw (e, and_then, read, read_mapped) refl
        ]

    fill_nodes-none :
        (s : Subtree) (n : ℕ) (input : Bytes)
        → n * 48 ≤ p.max_alloc
        → fill_nodes p none s n input
          ≡ in_memory
              (record s { tree_size = int_of_u64 n; height = log2_height p (pos n) })
              n
              (read_nodes n 0 input (replicate n empty_node))
    unfolding fill_nodes node_space make_nodes
    fill_nodes-none s n input h =
        let space : node_space p none n ≡ ok (replicate n empty_node, n) =
          rw (not_above p.max_alloc (n * 48) h) refl in
        rw (space, fill_nodes) refl

    pub map_leaves-with_store :
        (s : Subtree) (c : ℕ) (input dir : Bytes) (w : os.World)
        → suc c * 48 ≤ p.max_alloc
        → (store : MmapNodeStore) × ((map_leaves unix os p s (suc c) input dir w).0
            ≡ with_store store
                (and_then (fill_nodes p none s (suc c) input) (deserialize_conflicting_nodes p)))
    unfolding map_leaves
    map_leaves-with_store s c input dir w h =
        let small = p.max_alloc-lt in
        let sized = record s {
          tree_size = int_of_u64 (suc c);
          height = log2_height p (pos (suc c));
        } in
        let (store, made) = new_file_backed_mmap_nodes_lem c dir w (omega arith) in
        let int : int_of_u64 (suc c) ≡ pos (suc c) = int_small (suc c) (omega arith) in
        let asked : (new_file_backed_mmap_nodes unix os (int_of_u64 (suc c)) dir w).0
            ≡ ok (suc c, store) =
          ap (λ n. (new_file_backed_mmap_nodes unix os n dir w).0) int ∙ made in
        (
          store,
          rw (asked, map_leaves)
              (read_mapped-with_store sized store (suc c) input
                  (new_file_backed_mmap_nodes unix os (int_of_u64 (suc c)) dir w).1
                ∙ sym (
                    ap (λ x. with_store store (and_then x (deserialize_conflicting_nodes p)))
                      (fill_nodes-none s (suc c) input h))),
        )

-- What stands in front of the nodes.
abbrev pub header_bytes : Bytes → ℕ → ℕ → ℕ → Bytes → Bytes
header_bytes root fees size_in_bytes n rest =
    root ++ (put_u64 fees ++ (put_u64 size_in_bytes ++ (put_u64 n ++ rest)))

module _ (root : Bytes) (fees size_in_bytes n : ℕ) (rest : Bytes) where
  abbrev pub headed : Subtree
  headed = record zero_subtree { root_hash = some root; fees = fees; size_in_bytes = size_in_bytes }

  pub read_header_lem :
      length root ≡ 32
      → fees < u64
      → size_in_bytes < u64
      → read_header zero_subtree (header_bytes root fees size_in_bytes n rest)
        ≡ (ok (put_u64 n ++ rest), headed)
  unfolding read_header and_then
  read_header_lem a b c =
      let input = header_bytes root fees size_in_bytes n rest in
      rw
        (
          read_root-append zero_subtree root
              (put_u64 fees ++ (put_u64 size_in_bytes ++ (put_u64 n ++ rest))) a,
          read_fees-put (record zero_subtree { root_hash = some root }) fees
              (put_u64 size_in_bytes ++ (put_u64 n ++ rest)) b,
          read_size-put (record zero_subtree { root_hash = some root; fees = fees }) size_in_bytes
              (put_u64 n ++ rest) c,
        )
        refl
