-- ===== src/Mmap.antt =====
-- mmap_store.go, mmap_unix.go and mmap_windows.go, and the constructors and the reader of subtree.go
-- that keep the nodes in a mapped file. `os` does the system calls; each function takes its world and
-- returns the new one. What the mapped memory holds is the list of nodes.
pub mod Settles
pub mod Header
pub mod Balance
pub mod Heap
pub mod Same
pub mod Leaks
mod Tests
use go_subtree.Prelude.{
  ℕ, zero, suc, ◌+◌, ◌*◌, ◌%◌, ◌^◌, Bool, true, false, not, Option, none, some, List, [], ◌∷◌, ◌++◌,
  ℤ, pos, negsuc, ltz, ltb, if◌then◌else◌, int_of_u64,
}
use go_subtree.Errors.{
  Result, ok, err, panic, Error, height_negative, not_power_of_two, capacity_not_positive,
  create_temp_failed, truncate_failed, mmap_failed, munmap_failed, Stage,
}
use go_subtree.Hash.{Bytes, zero_hash, Platform}
use go_subtree.Node.{Node, u64}
use go_subtree.Os.{Os}
use go_subtree.Powers.{is_power_of_two}
use go_subtree.Subtree.{Subtree, node_size, log2_height}
use go_subtree.Reader.{read_full, from_le, Progress, and_then}
use go_subtree.Codec.{
  read_root, read_fees, read_size, node_of, deserialize_conflicting_nodes, zero_subtree,
}

-- The two builds of the package.
pub data Target : Type 0 where
  unix windows : Target

-- `mmapNodeStore`: `region` is the address of its field `data`, `none` for nil, and `is_done` says
-- whether `once` has run.
pub record MmapNodeStore : Type 0 where
  pub region : Option ℕ
  pub file_path : Bytes
  pub is_done : Bool

-- A subtree with its field `closer`.
pub record MmapSubtree : Type 0 where
  pub subtree : Subtree
  pub closer : Option MmapNodeStore

pub is_mmap_backed : MmapSubtree → Bool
is_mmap_backed st = elim st.closer [ none ↦ false | some store ↦ true ]

-- The loop that reads the nodes, as many as is said.
pub append_nodes : ℕ → Bytes → List Node → Result (List Node × Bytes)
append_nodes zero input nodes = ok (nodes, input)
append_nodes (suc k) input nodes = elim (read_full Stage.node 48 input) [
  | ok (x, rest) ↦ append_nodes k rest (nodes ++ node_of x ∷ [])
  | err e ↦ err e
  | panic ↦ panic
]

pub read_header : Subtree → Bytes → Progress Subtree
read_header s input = and_then (and_then (read_root s input) read_fees) read_size

-- `int(math.Pow(2, float64(height)))` of a height that is not negative.
pub tree_size_of : Platform → ℕ → ℤ
tree_size_of p height = if ltb height 63 then pos (2 ^ height) else p.int_of_large

-- `unsafe.Slice` over the mapping, which panics where the bytes of so many nodes exceed the address
-- space; `&data[0]` panics on a mapping of no bytes. The capacity of the slice, `none` for a panic.
-- The address at which the mapping begins is left out of the bound: a mapping that was made stands
-- in the address space as a whole.
pub view_nodes : ℕ → ℤ → Option ℕ
view_nodes capacity size =
    if not (ltz (pos 0) size)
    then none
    else if ltb (capacity * node_size) u64
    then some capacity
    else none

module _ (os : Os) where
  pub remove_path : Bytes → os.World → os.World
  remove_path [] w = w
  remove_path (b ∷ bs) w = (os.remove (b ∷ bs) w).1

  -- `f.Close` and `os.Remove`, whose errors are dropped.
  pub discard_file : ℕ → Bytes → os.World → os.World
  discard_file fd path w = (os.remove path (os.close fd w)).1

module _ (target : Target) (os : Os) where
  pub mmap_file : ℕ → ℤ → os.World → Option ℕ × os.World
  mmap_file fd size w = elim target [ unix ↦ os.mmap fd size w | windows ↦ (none, w) ]

  pub munmap_region : ℕ → os.World → Bool × os.World
  munmap_region addr w = elim target [ unix ↦ os.munmap addr w | windows ↦ (true, w) ]

  -- The error that the calls leave, `none` for nil.
  pub unmap : Option ℕ → os.World → Option Error × os.World
  unmap none w = (none, w)
  unmap (some addr) w =
      let (done, w') = munmap_region addr w in ((if done then none else some munmap_failed), w')

  -- `Close` of the store.
  pub close_store : MmapNodeStore → os.World → Option Error × MmapNodeStore × os.World
  close_store store w =
      if store.is_done
      then (none, store, w)
      else let (e, w') = unmap store.region w in
        (e, record store { region = none; is_done = true }, remove_path os store.file_path w')

  -- `newFileBackedMmapNodes` once the file is there.
  pub map_nodes : ℕ → ℤ → ℕ → Bytes → os.World → Result (ℕ × MmapNodeStore) × os.World
  map_nodes capacity size fd path w =
      let (done, w1) = os.truncate fd size w in
      if not done
      then (err truncate_failed, discard_file os fd path w1)
      else let (r, w2) = mmap_file fd size w1 in
        elim r [
          | none ↦ (err mmap_failed, discard_file os fd path w2)
          | some addr ↦
              let w3 = os.close fd w2 in
              elim (view_nodes capacity size) [
                | some cap ↦
                    (ok (cap, record { region = some addr; file_path = path; is_done = false }), w3)
                | none ↦ (panic, w3)
              ]
        ]

  -- `capacity * nodeSize` wraps.
  pub new_file_backed_mmap_nodes : ℤ → Bytes → os.World → Result (ℕ × MmapNodeStore) × os.World
  new_file_backed_mmap_nodes (negsuc c) dir w = (err capacity_not_positive, w)
  new_file_backed_mmap_nodes (pos zero) dir w = (err capacity_not_positive, w)
  new_file_backed_mmap_nodes (pos (suc c)) dir w =
      let (file, w1) = os.create_temp dir w in
      elim file [
        | none ↦ (err create_temp_failed, w1)
        | some (fd, path) ↦ map_nodes (suc c) (int_of_u64 (suc c * node_size % u64)) fd path w1
      ]

  -- `Close` of a subtree that is not nil.
  pub close_subtree : MmapSubtree → os.World → Option Error × MmapSubtree × os.World
  close_subtree st w = elim st.closer [
    | none ↦ (none, st, w)
    | some store ↦
        let (e, store', w') = close_store store w in (e, record st { closer = some store' }, w')
  ]

  module _ (p : Platform) where
    pub new_tree_mmap : ℤ → Bytes → os.World → Result MmapSubtree × os.World
    new_tree_mmap (negsuc h) dir w = (err height_negative, w)
    new_tree_mmap (pos h) dir w =
        let (r, w') = new_file_backed_mmap_nodes (tree_size_of p h) dir w in
        (
          elim r [
            | ok (cap, store) ↦ ok (record {
              subtree = record zero_subtree {
                height = pos h;
                nodes_cap = cap;
                tree_size = tree_size_of p h;
              };
              closer = some store;
            })
            | err e ↦ err e
            | panic ↦ panic
          ],
          w',
        )

    pub new_tree_by_leaf_count_mmap : ℤ → Bytes → os.World → Result MmapSubtree × os.World
    new_tree_by_leaf_count_mmap max_leaves dir w =
        if not (is_power_of_two max_leaves)
        then (err not_power_of_two, w)
        else new_tree_mmap (log2_height p max_leaves) dir w

    -- The reads of `deserializeFromReaderMmap` after the nodes are mapped; `st` has the closer.
    pub read_conflicting_mapped : MmapSubtree → Bytes → os.World → Result MmapSubtree × os.World
    read_conflicting_mapped st input w =
        let (r, s) = deserialize_conflicting_nodes p st.subtree input in
        elim r [
          | ok rest ↦ (ok (record st { subtree = s }), w)
          | err e ↦ (err e, (close_subtree st w).2)
          | panic ↦ (panic, w)
        ]

    pub read_mapped : MmapSubtree → ℕ → ℕ → Bytes → os.World → Result MmapSubtree × os.World
    read_mapped st cap n input w = elim (append_nodes n input []) [
      | ok (nodes, rest) ↦
          read_conflicting_mapped
            (record st { subtree = record st.subtree { nodes = nodes; nodes_cap = cap } }) rest w
      | err e ↦ (err e, (close_subtree st w).2)
      | panic ↦ (panic, w)
    ]

    -- With the number of leaves.
    pub map_leaves : Subtree → ℕ → Bytes → Bytes → os.World → Result MmapSubtree × os.World
    map_leaves s n input dir w =
        let sized = record s { tree_size = int_of_u64 n; height = log2_height p (pos n) } in
        let (r, w') = new_file_backed_mmap_nodes (int_of_u64 n) dir w in
        elim r [
          | ok (cap, store) ↦
              read_mapped (record { subtree = sized; closer = some store }) cap n input w'
          | err e ↦ (err e, w')
          | panic ↦ (panic, w')
        ]

    -- `deserializeFromReaderMmap`. On an error its caller drops the receiver.
    pub deserialize_from_reader_mmap :
        Subtree → Bytes → Bytes → os.World → Result MmapSubtree × os.World
    deserialize_from_reader_mmap s input dir w =
        let (r, s') = read_header s input in
        elim r [
          | ok rest ↦ elim (read_full Stage.num_leaves 8 rest) [
            | ok (word, more) ↦ map_leaves s' (from_le word) more dir w
            | err e ↦ (err e, w)
            | panic ↦ (panic, w)
          ]
          | err e ↦ (err e, w)
          | panic ↦ (panic, w)
        ]

    pub new_subtree_from_reader_mmap : Bytes → Bytes → os.World → Result MmapSubtree × os.World
    new_subtree_from_reader_mmap input dir w = deserialize_from_reader_mmap zero_subtree input dir w
