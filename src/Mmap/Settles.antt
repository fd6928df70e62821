-- ===== src/Mmap/Settles.antt =====
-- What the calls that map files leave of files, descriptors and mappings.
use go_subtree.Prelude.{
  ℕ, zero, suc, ◌*◌, ◌%◌, ◌≡◌, refl, ap, ◌∙◌, arith, true, false, Bool-cases, Option-cases, inl,
  inr, none, some, ◌∷◌, ℤ, pos, negsuc, ◌==◌, int_of_u64,
}
use go_subtree.Errors.{Result, ok, err, panic, create_temp_failed}
use go_subtree.Hash.{Bytes, hash_eq, hash_eq_iff}
use go_subtree.Node.{u64}
use go_subtree.Os.{View, Os, IsClean, without_file, without_opened, without_mapped}
use go_subtree.Subtree.{Subtree, node_size}
use go_subtree.Mmap.{
  Target, unix, windows, MmapNodeStore, MmapSubtree, mmap_file, munmap_region, unmap, remove_path,
  close_store, discard_file, view_nodes, map_nodes, new_file_backed_mmap_nodes, close_subtree,
  is_mmap_backed,
}

abbrev pub with_file : Bytes → View → View
with_file path v = record v { files = path ∷ v.files }

abbrev pub with_opened : ℕ → View → View
with_opened fd v = record v { opened = fd ∷ v.opened }

abbrev pub with_mapped : ℕ → View → View
with_mapped addr v = record v { mapped = addr ∷ v.mapped }

same_number : (n : ℕ) → (n == n) ≡ true
same_number n = ground arith

same_path : (path : Bytes) → hash_eq path path ≡ true
same_path path = (hash_eq_iff path path).1 refl

without_file-with_file : (path : Bytes) (v : View) → without_file path (with_file path v) ≡ v
without_file-with_file path v = rw (same_path path) refl

without_opened-with_opened : (fd : ℕ) (v : View) → without_opened fd (with_opened fd v) ≡ v
without_opened-with_opened fd v = rw (same_number fd) refl

without_mapped-with_mapped : (addr : ℕ) (v : View) → without_mapped addr (with_mapped addr v) ≡ v
without_mapped-with_mapped addr v = rw (same_number addr) refl

module _ (os : Os) where
  -- A file and a mapping more.
  abbrev pub Adds : View → os.World → Type 0
  Adds v w = (addr : ℕ) × (path : Bytes) × (os.view w ≡ with_mapped addr (with_file path v))

  -- The store is that of the one file and the one mapping that there are more.
  abbrev pub Owns : Target → View → MmapNodeStore → os.World → Type 0
  Owns target v store w =
      (addr b : ℕ) × (bs : Bytes) × (target ≡ unix)
      × (store ≡ record { region = some addr; file_path = b ∷ bs; is_done = false })
      × (os.view w ≡ with_mapped addr (with_file (b ∷ bs) v))

  abbrev pub Stored : Target → View → Result (ℕ × MmapNodeStore) × os.World → Type 0
  Stored target v (ok (cap, store), w) = Owns target v store w
  Stored target v (err e, w) = os.view w ≡ v
  Stored target v (panic, w) = Adds v w

  module _ (clean : IsClean os) where
    discard_file_lem :
        (fd : ℕ) (path : Bytes) (v : View) (w : os.World)
        → os.view w ≡ with_opened fd (with_file path v)
        → os.view (discard_file os fd path w) ≡ v
    unfolding discard_file
    discard_file_lem fd path v w e =
        os.view-remove path (os.close fd w) (clean.remove path (os.close fd w))
        ∙ ap (without_file path) (
            os.view-close fd w
            ∙ ap (without_opened fd) e
            ∙ without_opened-with_opened fd (with_file path v))
        ∙ without_file-with_file path v

    map_nodes_lem :
        (target : Target) (capacity : ℕ) (size : ℤ) (fd b : ℕ) (bs : Bytes) (v : View)
        (w : os.World)
        → os.view w ≡ with_opened fd (with_file (b ∷ bs) v)
        → Stored target v (map_nodes target os capacity size fd (b ∷ bs) w)
    unfolding map_nodes mmap_file
    map_nodes_lem target capacity size fd b bs v w e = elim (Bool-cases (os.truncate fd size w).0) [
      | inr n ↦ rw n (discard_file_lem fd (b ∷ bs) v (os.truncate fd size w).1 e1)
      | inl y ↦ mapped target y
    ]
      where
        e1 : os.view (os.truncate fd size w).1 ≡ with_opened fd (with_file (b ∷ bs) v)
        e1 = os.view-truncate fd size w ∙ e

        w1 : os.World
        w1 = (os.truncate fd size w).1

        mapped :
            (t : Target)
            → (os.truncate fd size w).0 ≡ true
            → Stored t v (map_nodes t os capacity size fd (b ∷ bs) w)
        mapped windows y = rw y (discard_file_lem fd (b ∷ bs) v w1 e1)
        mapped unix y = elim (Option-cases (os.mmap fd size w1).0) [
          | inl n ↦
              rw (y, n)
                (discard_file_lem fd (b ∷ bs) v (os.mmap fd size w1).1
                  (os.mmap_none fd size w1 n ∙ e1))
          | inr (addr, s) ↦
              let after : os.view (os.close fd (os.mmap fd size w1).1)
                  ≡ with_mapped addr (with_file (b ∷ bs) v) =
                os.view-close fd (os.mmap fd size w1).1
                ∙ ap (without_opened fd) (os.mmap_some fd size w1 addr s ∙ ap (with_mapped addr) e1)
                ∙ without_opened-with_opened fd (with_mapped addr (with_file (b ∷ bs) v)) in
              elim (Option-cases (view_nodes capacity size)) [
                | inl n ↦ rw (y, s, n) (addr, b ∷ bs, after)
                | inr (cap, c) ↦ rw (y, s, c) (addr, b, bs, refl, refl, after)
              ]
        ]

    pub new_file_backed_mmap_nodes-Stored :
        (target : Target) (capacity : ℤ) (dir : Bytes) (w : os.World)
        → Stored target (os.view w) (new_file_backed_mmap_nodes target os capacity dir w)
    unfolding new_file_backed_mmap_nodes
    new_file_backed_mmap_nodes-Stored target (negsuc c) dir w = refl
    new_file_backed_mmap_nodes-Stored target (pos zero) dir w = refl
    new_file_backed_mmap_nodes-Stored target (pos (suc c)) dir w =
        elim (Option-cases (os.create_temp dir w).0) [
          | inl n ↦
              let failed : new_file_backed_mmap_nodes target os (pos (suc c)) dir w
                  ≡ (err create_temp_failed, (os.create_temp dir w).1) =
                rw (n, new_file_backed_mmap_nodes) refl in
              rw failed (os.create_temp_none dir w n)
          | inr ((fd, path), s) ↦
              let (b, bs, name) = os.create_temp_name dir w fd path s in
              let size = int_of_u64 (suc c * node_size % u64) in
              let created : new_file_backed_mmap_nodes target os (pos (suc c)) dir w
                  ≡ map_nodes target os (suc c) size fd path (os.create_temp dir w).1 =
                rw (s, new_file_backed_mmap_nodes) refl in
              rw (created, name)
                (map_nodes_lem target (suc c) size fd b bs (os.view w) (os.create_temp dir w).1 (
                  os.create_temp_some dir w fd path s
                  ∙ ap (λ x. with_opened fd (with_file x (os.view w))) name))
        ]

  -- There are a file and a mapping more, and `Close` gives both back, without an error; a second
  -- `Close` does nothing.
  abbrev pub Closes : Target → View → MmapSubtree → os.World → Type 0
  Closes target v st w =
      let (e, st', w') = close_subtree target os st w in
      Adds v w
      × (is_mmap_backed st ≡ true)
      × (e ≡ none)
      × (os.view w' ≡ v)
      × (close_subtree target os st' w' ≡ (none, st', w'))

  -- How a call ends, and what is there then.
  abbrev pub Settled : Target → View → Result MmapSubtree × os.World → Type 0
  Settled target v (ok st, w) = Closes target v st w
  Settled target v (err e, w) = os.view w ≡ v
  Settled target v (panic, w) = Adds v w

  module _ (clean : IsClean os) where
    close_own :
        (s : Subtree) (v : View) (addr b : ℕ) (bs : Bytes) (w : os.World)
        → os.view w ≡ with_mapped addr (with_file (b ∷ bs) v)
        → Closes unix v
            (record {
              subtree = s;
              closer = some (record { region = some addr; file_path = b ∷ bs; is_done = false });
            })
            w
    unfolding close_subtree close_store unmap munmap_region remove_path is_mmap_backed
    close_own s v addr b bs w e =
        let unmapped = clean.munmap addr w in
        rw unmapped (
          (addr, b ∷ bs, e),
          refl,
          refl,
          os.view-remove (b ∷ bs) (os.munmap addr w).1 (clean.remove (b ∷ bs) (os.munmap addr w).1)
              ∙ ap (without_file (b ∷ bs)) (
                  os.view-munmap addr w unmapped
                  ∙ ap (without_mapped addr) e
                  ∙ without_mapped-with_mapped addr (with_file (b ∷ bs) v))
              ∙ without_file-with_file (b ∷ bs) v,
          refl,
        )

    pub Owns-Closes :
        (target : Target) (s : Subtree) (v : View) (store : MmapNodeStore) (w : os.World)
        → Owns target v store w
        → Closes target v (record { subtree = s; closer = some store }) w
    Owns-Closes target s v store w (addr, b, bs, t, same, e) =
        rw (t, same) (close_own s v addr b bs w e)
