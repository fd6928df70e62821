-- ===== src/Mmap/Same.antt =====
-- The reader and the constructors over mapped nodes give the subtrees of those over memory.
use mathlib.Core.Path.{subst}
use go_subtree.Prelude.{
  ℕ, zero, suc, ◌*◌, ◌^◌, ◌≤◌, ◌<◌, ◌≡◌, refl, sym, ap, ◌∙◌, arith, true, false, none, some, length,
  ℤ, pos, negsuc, ltb, lt→ltb, ltb-false→le, not, Bool, if◌then◌else◌, ◌-◌,
}
use go_subtree.Errors.{
  Result, ok, panic, Stage, not_power_of_two, err-ne-ok, panic-ne-ok, ok-injective, ok_if,
}
use go_subtree.Hash.{Bytes, Platform}
use go_subtree.Node.{u64}
use go_subtree.Os.{Os, IsRoomy, IsClean}
use go_subtree.Powers.Log.{pow_pos, pow_lt_reflects}
use go_subtree.Powers.{is_power_of_two}
use go_subtree.Subtree.{Subtree, log2_height, new_tree, new_tree_by_leaf_count}
use go_subtree.Reader.{put_u64, and_then}
use go_subtree.Reader.Words.{from_le-put_u64, length-le_bytes}
use go_subtree.Reader.Laws.{read_full-append}
use go_subtree.Codec.{
  fill_nodes, deserialize_nodes_with_allocator, deserialize_conflicting_nodes, read_all,
  zero_subtree,
}
use go_subtree.Codec.Steps.{nodes_lem}
use go_subtree.Mmap.{
  unix, MmapNodeStore, new_file_backed_mmap_nodes, tree_size_of, new_tree_mmap,
  new_tree_by_leaf_count_mmap, map_leaves, read_header, deserialize_from_reader_mmap,
  new_subtree_from_reader_mmap,
}
use go_subtree.Mmap.Settles.{Closes, Settled}
use go_subtree.Mmap.Balance.{new_tree_by_leaf_count_mmap-Settled}
use go_subtree.Mmap.Heap.{
  with_store, header_bytes, headed, read_header_lem, map_leaves-with_store,
  new_file_backed_mmap_nodes_lem,
}

ok_unless :
    {A : Type 0} (b : Bool) {r : Result A} {a : A}
    → (if b then panic else r) ≡ ok a
    → (b ≡ false) × (r ≡ ok a)
ok_unless true e = absurd (panic-ne-ok e)
ok_unless false e = (refl, e)

module _ (os : Os) (roomy : IsRoomy os) (p : Platform) where
  read_all-header :
      (root : Bytes) (fees size_in_bytes n : ℕ) (rest : Bytes)
      → length root ≡ 32
      → fees < u64
      → size_in_bytes < u64
      → n < 2 ^ 63
      → read_all p none zero_subtree (header_bytes root fees size_in_bytes n rest)
        ≡ and_then
            (fill_nodes p none (headed root fees size_in_bytes n rest) n rest)
            (deserialize_conflicting_nodes p)
  unfolding read_all and_then read_header
  read_all-header root fees size_in_bytes n rest a b c h =
      let header = read_header_lem root fees size_in_bytes n rest a b c in
      ap
        (λ x.
          and_then (and_then x (deserialize_nodes_with_allocator p none))
            (deserialize_conflicting_nodes p))
        header
      ∙ ap (λ x. and_then x (deserialize_conflicting_nodes p))
          (nodes_lem p none (headed root fees size_in_bytes n rest) n rest h)

  pub new_subtree_from_reader_mmap_header :
      (root : Bytes) (fees size_in_bytes n : ℕ) (rest dir : Bytes) (w : os.World)
      → length root ≡ 32
      → fees < u64
      → size_in_bytes < u64
      → n < 2 ^ 63
      → new_subtree_from_reader_mmap unix os p (header_bytes root fees size_in_bytes n rest) dir w
        ≡ map_leaves unix os p (headed root fees size_in_bytes n rest) n rest dir w
  unfolding new_subtree_from_reader_mmap deserialize_from_reader_mmap
  new_subtree_from_reader_mmap_header root fees size_in_bytes n rest dir w a b c h =
      let header = read_header_lem root fees size_in_bytes n rest a b c in
      rw
        (
          ap (λ x. x.0) header,
          deserialize_from_reader_mmap,
          read_full-append Stage.num_leaves 8 (put_u64 n) rest (length-le_bytes 8 n),
          from_le-put_u64 n (omega arith),
          ap (λ x. x.1) header,
        )
        refl

  -- On any root hash, totals and positive number of leaves that go in front, the nodes of which fit in
  -- memory, whatever stands behind them, where the system has room and the build is not that for
  -- Windows: `NewSubtreeFromReaderMmap` ends as the reads of `DeserializeFromReaderWithAllocator`
  -- without an allocator do before its deferred recover. It returns the subtree that these reads make,
  -- with a store, or the error at which they stop, and panics where they panic.
  pub new_subtree_from_reader_mmap-read_all :
      (root : Bytes) (fees size_in_bytes n : ℕ) (rest dir : Bytes) (w : os.World)
      → length root ≡ 32
      → fees < u64
      → size_in_bytes < u64
      → 0 < n
      → n * 48 ≤ p.max_alloc
      → (store : MmapNodeStore) × ((new_subtree_from_reader_mmap unix os p
            (header_bytes root fees size_in_bytes n rest)
            dir
            w).0
          ≡ with_store store
              (read_all p none zero_subtree (header_bytes root fees size_in_bytes n rest)))
  new_subtree_from_reader_mmap-read_all root fees size_in_bytes zero rest dir w a b c d e =
      absurd (omega arith)
  new_subtree_from_reader_mmap-read_all root fees size_in_bytes (suc n) rest dir w a b c d e =
      let small = p.max_alloc-lt in
      let (store, same) =
        map_leaves-with_store os roomy p (headed root fees size_in_bytes (suc n) rest) n rest dir w
          e in
      (
        store,
        ap (λ x. x.0)
              (new_subtree_from_reader_mmap_header root fees size_in_bytes (suc n) rest dir w a b c
                (omega arith))
            ∙ same
            ∙ ap (with_store store)
                (sym (read_all-header root fees size_in_bytes (suc n) rest a b c (omega arith))),
      )

  abbrev empty_tree : ℕ → ℕ → ℤ → Subtree
  empty_tree h room n = record zero_subtree { height = pos h; nodes_cap = room; tree_size = n }

  new_tree_mmap_lem :
      (h room : ℕ) (store : MmapNodeStore) (dir : Bytes) (w : os.World)
      → (new_file_backed_mmap_nodes unix os (tree_size_of p h) dir w).0 ≡ ok (room, store)
      → (new_tree_mmap unix os p (pos h) dir w).0
        ≡ ok (record { subtree = empty_tree h room (tree_size_of p h); closer = some store })
  unfolding new_tree_mmap
  new_tree_mmap_lem h room store dir w e = rw (e, new_tree_mmap) refl

  new_tree_mmap-new_tree :
      (height : ℤ) (s : Subtree) (dir : Bytes) (w : os.World)
      → new_tree p height ≡ ok s
      → (store : MmapNodeStore) × ((new_tree_mmap unix os p height dir w).0
          ≡ ok (record { subtree = s; closer = some store }))
  unfolding new_tree new_tree_mmap tree_size_of
  new_tree_mmap-new_tree (negsuc h) s dir w e = absurd (err-ne-ok e)
  new_tree_mmap-new_tree (pos h) s dir w e =
      let (fits, tree) = ok_unless (ltb p.max_alloc (2 ^ h * 48)) e in
      let small = p.max_alloc-lt in
      let room = ltb-false→le p.max_alloc (2 ^ h * 48) fits in
      let positive = pow_pos h in
      let low = pow_lt_reflects h 63 (omega arith) in
      let size : tree_size_of p h ≡ pos (2 ^ h) = rw (lt→ltb h 63 low) refl in
      let whole : suc (2 ^ h - 1) ≡ 2 ^ h = omega arith in
      let (store, made) = new_file_backed_mmap_nodes_lem os roomy (2 ^ h - 1) dir w (omega arith) in
      let asked : (new_file_backed_mmap_nodes unix os (tree_size_of p h) dir w).0
          ≡ ok (2 ^ h, store) =
        ap (λ n. (new_file_backed_mmap_nodes unix os n dir w).0) (size ∙ ap pos (sym whole))
        ∙ made
        ∙ ap (λ n. ok (n, store)) whole in
      (
        store,
        new_tree_mmap_lem h (2 ^ h) store dir w asked
            ∙ ap (λ n. ok (record { subtree = empty_tree h (2 ^ h) n; closer = some store })) size
            ∙ ap (λ t. ok (record { subtree = t; closer = some store })) (ok-injective tree),
      )

  new_tree_by_leaf_count_mmap-new_tree_by_leaf_count :
      (max_leaves : ℤ) (s : Subtree) (dir : Bytes) (w : os.World)
      → new_tree_by_leaf_count p max_leaves ≡ ok s
      → (store : MmapNodeStore) × ((new_tree_by_leaf_count_mmap unix os p max_leaves dir w).0
          ≡ ok (record { subtree = s; closer = some store }))
  unfolding new_tree_by_leaf_count new_tree_by_leaf_count_mmap
  new_tree_by_leaf_count_mmap-new_tree_by_leaf_count max_leaves s dir w e =
      let (power, tree) = ok_if (not (is_power_of_two max_leaves)) not_power_of_two e in
      let (store, made) = new_tree_mmap-new_tree (log2_height p max_leaves) s dir w tree in
      (store, rw power made)

  -- If `NewTreeByLeafCount` returns a tree, the system has room, no removal of a file or of a mapping
  -- fails and the build is not that for Windows, `NewTreeByLeafCountMmap` returns the same tree with a
  -- store; there are then one file and one mapping more, which `Close` gives back, without an error,
  -- and a second `Close` does nothing.
  pub new_tree_by_leaf_count_mmap-Closes :
      (max_leaves : ℤ) (s : Subtree) (dir : Bytes) (w : os.World)
      → IsClean os
      → new_tree_by_leaf_count p max_leaves ≡ ok s
      → (store : MmapNodeStore) × (w' : os.World) × (new_tree_by_leaf_count_mmap unix os p
            max_leaves dir w
          ≡ (ok (record { subtree = s; closer = some store }), w'))
        × Closes os unix (os.view w) (record { subtree = s; closer = some store }) w'
  new_tree_by_leaf_count_mmap-Closes max_leaves s dir w clean e =
      let (store, made) = new_tree_by_leaf_count_mmap-new_tree_by_leaf_count max_leaves s dir w e in
      let w' = (new_tree_by_leaf_count_mmap unix os p max_leaves dir w).1 in
      let whole : new_tree_by_leaf_count_mmap unix os p max_leaves dir w
          ≡ (ok (record { subtree = s; closer = some store }), w') =
        ap (λ r. (r, w')) made in
      (
        store,
        w',
        whole,
        subst (Settled os unix (os.view w)) whole
            (new_tree_by_leaf_count_mmap-Settled unix os clean p max_leaves dir w),
      )
