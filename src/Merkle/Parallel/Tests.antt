-- ===== src/Merkle/Parallel/Tests.antt =====
-- Two goroutines over the lowest level of three leaves, the second of which moves first.
use go_subtree.Prelude.{◌-◌, ◌≤◌, ◌≡◌, ◌↔◌, refl, arith, List, [], ◌∷◌, replicate, All, false}
use go_subtree.Hash.{zero_hash}
use go_subtree.Hash.Sample.{sample}
use go_subtree.Node.{Node}
use go_subtree.Merkle.{get_merkle_pair, build_merkle_tree_store}
use go_subtree.Merkle.Parallel.{
  at_loop, left_read, Level, IsDone, read_left, Step, pick, Steps, here, next,
}
use go_subtree.Powers.{min_of}
use go_subtree.Hash.{Hash}
use go_subtree.Merkle.Parallel.{Thread, spawn, level_threads}
use go_subtree.Merkle.Parallel.Races.{races, races_none}
use go_subtree.Merkle.Parallel.Ends.{work, level_ends}
use go_subtree.Merkle.Parallel.Store.{StoreBuilds, StoreBuilds-build_merkle_tree_store}
use go_subtree.Subtree.Sample.{node_a, node_b, node_c}

abbrev three : List Node
three = node_a ∷ node_b ∷ node_c ∷ []

abbrev two_goroutines : Level
two_goroutines = record {
  threads = at_loop 0 2 ∷ at_loop 2 3 ∷ [];
  merkles = replicate 3 zero_hash;
}

abbrev second_moved : Level
second_moved = record {
  threads =
      at_loop 0 2 ∷ left_read 2 3 (get_merkle_pair three (replicate 3 zero_hash) 2 4 3).0 ∷ [];
  merkles = replicate 3 zero_hash;
}

second_moves : Step sample three 4 3 two_goroutines second_moved
second_moves = pick (at_loop 0 2 ∷ []) [] (read_left 2 3 (replicate 3 zero_hash) (omega arith))

level_ends_example :
    (1 ≤ work two_goroutines.threads)
    × (u : Level) × Steps sample three 4 3 (work two_goroutines.threads - 1) second_moved u
    × All IsDone u.threads
level_ends_example = level_ends sample three 4 3 (next second_moves here)

StoreBuilds-build_merkle_tree_store_example :
    StoreBuilds sample three (build_merkle_tree_store sample three)
    ↔ build_merkle_tree_store sample three ≡ build_merkle_tree_store sample three
StoreBuilds-build_merkle_tree_store_example =
    StoreBuilds-build_merkle_tree_store sample three (build_merkle_tree_store sample three)
      (omega arith)

abbrev cells : List Hash
cells = replicate 2047 zero_hash

abbrev first_goroutine : Thread
first_goroutine = left_read 0 1024 (get_merkle_pair three cells 0 2048 3).0

-- Two goroutines share the lowest level of an array for 2048 leaves.
large_level :
    Steps sample three 2048 3 1
      (record { threads = level_threads 0 2047; merkles = cells })
      (record { threads = first_goroutine ∷ at_loop 1024 2047 ∷ []; merkles = cells })
unfolding level_threads spawn min_of
large_level = next (pick [] (at_loop 1024 2047 ∷ []) (read_left 0 1024 cells (omega arith))) here

races_none_example : races 2048 first_goroutine (at_loop 1024 2047) ≡ false
races_none_example =
    races_none sample three 2048 3 0 2047 cells refl (omega arith) [] [] [] first_goroutine
      (at_loop 1024 2047) cells large_level
