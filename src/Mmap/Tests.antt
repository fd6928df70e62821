-- ===== src/Mmap/Tests.antt =====
-- Runs over mapped nodes: one node, and behind it no conflicting hashes or far too many.
use go_subtree.Prelude.{◌^◌, ◌≡◌, refl, arith, none, some, [], ◌∷◌, ◌++◌, pos, replicate}
use go_subtree.Errors.{ok, panic, recovered}
use go_subtree.Hash.{Bytes}
use go_subtree.Hash.Sample.{sample}
use go_subtree.Os.{View}
use go_subtree.Os.Sample.{nothing, system, system-IsClean, system-IsRoomy}
use go_subtree.Powers.{is_power_of_two, ceil_log2, bit_len}
use go_subtree.Subtree.{log2_height, new_tree, new_tree_by_leaf_count}
use go_subtree.Subtree.Sample.{node_a, tree_of}
use go_subtree.Reader.{put_u64, le_bytes, from_le, read_full, read_uint, fill, and_then}
use go_subtree.Codec.{
  read_all, read_root, read_fees, read_size, read_nodes, node_of, make_nodes, node_space,
  fill_nodes, deserialize_nodes_with_allocator, fill_conflicting, deserialize_conflicting_nodes,
  deserialize, zero_subtree,
}
use go_subtree.Mmap.{unix, MmapNodeStore, new_subtree_from_reader_mmap, new_tree_by_leaf_count_mmap}
use go_subtree.Mmap.Settles.{Adds, Closes, Settled}
use go_subtree.Mmap.Balance.{new_subtree_from_reader_mmap-Settled}
use go_subtree.Mmap.Heap.{with_store, header_bytes}
use go_subtree.Mmap.Same.{new_subtree_from_reader_mmap-read_all, new_tree_by_leaf_count_mmap-Closes}
use go_subtree.Mmap.Leaks.{new_subtree_from_reader_mmap_leaks}

abbrev temp_dir : Bytes
temp_dir = 116 ∷ []

abbrev one_node : Bytes
one_node = node_a.hash ++ (put_u64 5 ++ put_u64 200)

abbrev none_conflicting : Bytes
none_conflicting = one_node ++ put_u64 0

abbrev too_many : Bytes
too_many = one_node ++ put_u64 (2 ^ 44)

abbrev root : Bytes
root = replicate 32 9

new_subtree_from_reader_mmap-Settled_example : Settled system unix nothing (
    new_subtree_from_reader_mmap unix system sample
      (header_bytes root 5 200 1 none_conflicting)
      temp_dir
      nothing)
new_subtree_from_reader_mmap-Settled_example =
    new_subtree_from_reader_mmap-Settled unix system system-IsClean sample
      (header_bytes root 5 200 1 none_conflicting) temp_dir nothing

new_subtree_from_reader_mmap-read_all_example :
    (store : MmapNodeStore) × ((new_subtree_from_reader_mmap unix system sample
        (header_bytes root 5 200 1 none_conflicting)
        temp_dir
        nothing).0
      ≡ with_store store
          (read_all sample none zero_subtree (header_bytes root 5 200 1 none_conflicting)))
new_subtree_from_reader_mmap-read_all_example =
    new_subtree_from_reader_mmap-read_all system system-IsRoomy sample root 5 200 1 none_conflicting
      temp_dir nothing refl (omega arith) (omega arith) (omega arith) (omega arith)

too_many_panics : (read_all sample none zero_subtree (header_bytes root 5 200 1 too_many)).0 ≡ panic
unfolding read_all read_root read_fees read_size read_full read_uint fill and_then le_bytes from_le
    read_nodes node_of make_nodes node_space fill_nodes deserialize_nodes_with_allocator
    fill_conflicting deserialize_conflicting_nodes
too_many_panics = refl

new_subtree_from_reader_mmap_leaks_example :
    ((deserialize sample zero_subtree (header_bytes root 5 200 1 too_many)).0 ≡ some recovered)
    × ((new_subtree_from_reader_mmap unix system sample
          (header_bytes root 5 200 1 too_many)
          temp_dir
          nothing).0
        ≡ panic)
    × Adds system nothing
        (new_subtree_from_reader_mmap unix system sample
          (header_bytes root 5 200 1 too_many)
          temp_dir
          nothing).1
new_subtree_from_reader_mmap_leaks_example =
    new_subtree_from_reader_mmap_leaks system system-IsRoomy system-IsClean sample root 5 200 1
      too_many temp_dir nothing refl (omega arith) (omega arith) (omega arith) (omega arith)
      too_many_panics

four_leaves : new_tree_by_leaf_count sample (pos 4) ≡ ok (tree_of [] 0 0)
unfolding new_tree_by_leaf_count new_tree is_power_of_two log2_height ceil_log2 bit_len
four_leaves = refl

new_tree_by_leaf_count_mmap-Closes_example :
    (store : MmapNodeStore) × (w' : View) × (new_tree_by_leaf_count_mmap unix system sample
        (pos 4)
        temp_dir
        nothing
      ≡ (ok (record { subtree = tree_of [] 0 0; closer = some store }), w'))
    × Closes system unix nothing (record { subtree = tree_of [] 0 0; closer = some store }) w'
new_tree_by_leaf_count_mmap-Closes_example =
    new_tree_by_leaf_count_mmap-Closes system system-IsRoomy sample (pos 4) (tree_of [] 0 0)
      temp_dir nothing system-IsClean four_leaves
