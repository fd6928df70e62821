-- ===== src/Mmap/Balance.antt =====
-- However the reader over mapped nodes ends, no file, descriptor or mapping is lost but by a panic.
use go_subtree.Prelude.{
  ℕ, ◌≡◌, refl, ap, Bool-cases, inl, inr, some, [], ◌∷◌, ℤ, pos, negsuc, int_of_u64,
}
use go_subtree.Errors.{Result, ok, err, panic, Result-cases, not_power_of_two, Stage}
use go_subtree.Hash.{Bytes, Platform}
use go_subtree.Os.{View, Os, IsClean}
use go_subtree.Powers.{is_power_of_two}
use go_subtree.Subtree.{Subtree, log2_height}
use go_subtree.Reader.{read_full, from_le}
use go_subtree.Codec.{deserialize_conflicting_nodes, zero_subtree}
use go_subtree.Mmap.{
  Target, MmapNodeStore, MmapSubtree, append_nodes, new_file_backed_mmap_nodes, close_subtree,
  tree_size_of, new_tree_mmap, new_tree_by_leaf_count_mmap, read_conflicting_mapped, read_mapped,
  map_leaves, read_header, deserialize_from_reader_mmap, new_subtree_from_reader_mmap,
}
use go_subtree.Mmap.Header.{read_full-ne-panic, read_header-ne-panic}
use go_subtree.Mmap.Settles.{
  Adds, Owns, Stored, Settled, new_file_backed_mmap_nodes-Stored, Owns-Closes,
}

module _ (target : Target) (os : Os) (clean : IsClean os) (p : Platform) where
  abbrev own_store : Subtree → MmapNodeStore → MmapSubtree
  own_store s store = record { subtree = s; closer = some store }

  Owns-Adds :
      (v : View) (store : MmapNodeStore) (w : os.World) → Owns os target v store w → Adds os v w
  Owns-Adds v store w (addr, b, bs, t, same, e) = (addr, b ∷ bs, e)

  module _ (v : View) (store : MmapNodeStore) (w : os.World) (own : Owns os target v store w) where
    read_conflicting_mapped-Settled :
        (s : Subtree) (input : Bytes)
        → Settled os target v (read_conflicting_mapped target os p (own_store s store) input w)
    unfolding read_conflicting_mapped
    read_conflicting_mapped-Settled s input =
        elim (Result-cases (deserialize_conflicting_nodes p s input).0) [
          | inl (rest, e) ↦
              let s' = (deserialize_conflicting_nodes p s input).1 in
              let found : read_conflicting_mapped target os p (own_store s store) input w
                  ≡ (ok (own_store s' store), w) =
                rw (e, read_conflicting_mapped) refl in
              rw found (Owns-Closes os clean target s' v store w own)
          | inr (inl (x, e)) ↦
              let found : read_conflicting_mapped target os p (own_store s store) input w
                  ≡ (err x, (close_subtree target os (own_store s store) w).2) =
                rw (e, read_conflicting_mapped) refl in
              rw found (Owns-Closes os clean target s v store w own).3
          | inr (inr e) ↦
              let found : read_conflicting_mapped target os p (own_store s store) input w
                  ≡ (panic, w) =
                rw (e, read_conflicting_mapped) refl in
              rw found (Owns-Adds v store w own)
        ]

    read_mapped-Settled :
        (s : Subtree) (room n : ℕ) (input : Bytes)
        → Settled os target v (read_mapped target os p (own_store s store) room n input w)
    unfolding read_mapped read_conflicting_mapped
    read_mapped-Settled s room n input = elim (Result-cases (append_nodes n input [])) [
      | inl ((nodes, rest), e) ↦
          let found : read_mapped target os p (own_store s store) room n input w
              ≡ read_conflicting_mapped target os p
                  (own_store (record s { nodes = nodes; nodes_cap = room }) store) rest w =
            rw (e, read_mapped) refl in
          rw found
            (read_conflicting_mapped-Settled (record s { nodes = nodes; nodes_cap = room }) rest)
      | inr (inl (x, e)) ↦
          let found : read_mapped target os p (own_store s store) room n input w
              ≡ (err x, (close_subtree target os (own_store s store) w).2) =
            rw (e, read_mapped) refl in
          rw found (Owns-Closes os clean target s v store w own).3
      | inr (inr e) ↦
          let found : read_mapped target os p (own_store s store) room n input w ≡ (panic, w) =
            rw (e, read_mapped) refl in
          rw found (Owns-Adds v store w own)
    ]

  pub map_leaves-Settled :
      (s : Subtree) (n : ℕ) (input dir : Bytes) (w : os.World)
      → Settled os target (os.view w) (map_leaves target os p s n input dir w)
  unfolding map_leaves
  map_leaves-Settled s n input dir w =
      made (new_file_backed_mmap_nodes target os (int_of_u64 n) dir w) refl
        (new_file_backed_mmap_nodes-Stored os clean target (int_of_u64 n) dir w)
    where
      sized : Subtree
      sized = record s { tree_size = int_of_u64 n; height = log2_height p (pos n) }

      made :
          (r : Result (ℕ × MmapNodeStore) × os.World)
          → new_file_backed_mmap_nodes target os (int_of_u64 n) dir w ≡ r
          → Stored os target (os.view w) r
          → Settled os target (os.view w) (map_leaves target os p s n input dir w)
      made (ok (room, store), w') e stored =
          let found : map_leaves target os p s n input dir w
              ≡ read_mapped target os p (own_store sized store) room n input w' =
            rw (ap (λ x. x.0) e, map_leaves, ap (λ x. x.1) e) refl in
          rw found (read_mapped-Settled (os.view w) store w' stored sized room n input)
      made (err x, w') e stored =
          let found : map_leaves target os p s n input dir w ≡ (err x, w') =
            rw (ap (λ x. x.0) e, map_leaves, ap (λ x. x.1) e) refl in
          rw found stored
      made (panic, w') e stored =
          let found : map_leaves target os p s n input dir w ≡ (panic, w') =
            rw (ap (λ x. x.0) e, map_leaves, ap (λ x. x.1) e) refl in
          rw found stored

  new_tree_mmap-Settled :
      (height : ℤ) (dir : Bytes) (w : os.World)
      → Settled os target (os.view w) (new_tree_mmap target os p height dir w)
  unfolding new_tree_mmap
  new_tree_mmap-Settled (negsuc h) dir w = refl
  new_tree_mmap-Settled (pos h) dir w =
      made (new_file_backed_mmap_nodes target os (tree_size_of p h) dir w) refl
        (new_file_backed_mmap_nodes-Stored os clean target (tree_size_of p h) dir w)
    where
      made :
          (r : Result (ℕ × MmapNodeStore) × os.World)
          → new_file_backed_mmap_nodes target os (tree_size_of p h) dir w ≡ r
          → Stored os target (os.view w) r
          → Settled os target (os.view w) (new_tree_mmap target os p (pos h) dir w)
      made (ok (room, store), w') e stored =
          let s = record zero_subtree {
            height = pos h;
            nodes_cap = room;
            tree_size = tree_size_of p h;
          } in
          let found : new_tree_mmap target os p (pos h) dir w ≡ (ok (own_store s store), w') =
            rw (ap (λ x. x.0) e, new_tree_mmap, ap (λ x. x.1) e) refl in
          rw found (Owns-Closes os clean target s (os.view w) store w' stored)
      made (err x, w') e stored =
          let found : new_tree_mmap target os p (pos h) dir w ≡ (err x, w') =
            rw (ap (λ x. x.0) e, new_tree_mmap, ap (λ x. x.1) e) refl in
          rw found stored
      made (panic, w') e stored =
          let found : new_tree_mmap target os p (pos h) dir w ≡ (panic, w') =
            rw (ap (λ x. x.0) e, new_tree_mmap, ap (λ x. x.1) e) refl in
          rw found stored

  pub new_tree_by_leaf_count_mmap-Settled :
      (max_leaves : ℤ) (dir : Bytes) (w : os.World)
      → Settled os target (os.view w) (new_tree_by_leaf_count_mmap target os p max_leaves dir w)
  unfolding new_tree_by_leaf_count_mmap
  new_tree_by_leaf_count_mmap-Settled max_leaves dir w =
      elim (Bool-cases (is_power_of_two max_leaves)) [
        | inl y ↦
            let found : new_tree_by_leaf_count_mmap target os p max_leaves dir w
                ≡ new_tree_mmap target os p (log2_height p max_leaves) dir w =
              rw y refl in
            rw found (new_tree_mmap-Settled (log2_height p max_leaves) dir w)
        | inr n ↦
            let found : new_tree_by_leaf_count_mmap target os p max_leaves dir w
                ≡ (err not_power_of_two, w) =
              rw n refl in
            rw found refl
      ]

  -- However `NewSubtreeFromReaderMmap` ends, where no removal of a file or of a mapping fails: a subtree
  -- that it returns has one file and one mapping, and `Close` gives both back, without an error, and
  -- does nothing the second time; if it returns an error, there is nothing that was not there before;
  -- if it panics, there are one file and one mapping more.
  pub new_subtree_from_reader_mmap-Settled :
      (input dir : Bytes) (w : os.World)
      → Settled os target (os.view w) (new_subtree_from_reader_mmap target os p input dir w)
  unfolding new_subtree_from_reader_mmap deserialize_from_reader_mmap
  new_subtree_from_reader_mmap-Settled input dir w =
      let header = read_header zero_subtree input in
      elim (Result-cases header.0) [
        | inr (inl (x, e)) ↦
            let found : new_subtree_from_reader_mmap target os p input dir w ≡ (err x, w) =
              rw (e, deserialize_from_reader_mmap) refl in
            rw found refl
        | inr (inr e) ↦ absurd (read_header-ne-panic zero_subtree input e)
        | inl (rest, e) ↦ elim (Result-cases (read_full Stage.num_leaves 8 rest)) [
          | inl ((word, more), f) ↦
              let found : new_subtree_from_reader_mmap target os p input dir w
                  ≡ map_leaves target os p header.1 (from_le word) more dir w =
                rw (e, deserialize_from_reader_mmap, f) refl in
              rw found (map_leaves-Settled header.1 (from_le word) more dir w)
          | inr (inl (x, f)) ↦
              let found : new_subtree_from_reader_mmap target os p input dir w ≡ (err x, w) =
                rw (e, deserialize_from_reader_mmap, f) refl in
              rw found refl
          | inr (inr f) ↦ absurd (read_full-ne-panic Stage.num_leaves 8 rest f)
        ]
      ]
