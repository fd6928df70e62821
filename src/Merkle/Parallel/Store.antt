-- ===== src/Merkle/Parallel/Store.antt =====
-- The whole of `BuildMerkleTreeStoreFromBytes` under any schedule of the goroutines of its levels.
use go_subtree.Prelude.{
  ℕ, zero, suc, ◌+◌, ◌-◌, ◌*◌, ◌^◌, ◌<◌, ◌≡◌, ◌↔◌, refl, sym, ap, ◌∙◌, arith, List, [], ◌∷◌, length,
  replicate, false, ◌==◌, ne→==-false,
}
use go_subtree.Hash.{Hash, zero_hash, Platform}
use go_subtree.Node.{Node}
use go_subtree.Powers.{ceil_log2, next_power_of_two}
use go_subtree.Powers.Log.{pow_step, pow_pos, le-ceil_log2}
use go_subtree.Powers.Laws.{next_power_of_two-pow}
use go_subtree.Merkle.{build_levels, build_merkle_tree_store}
use go_subtree.Merkle.Parallel.{level_threads, Builds, built, level, here}
use go_subtree.Merkle.Parallel.Kept.{level_done}
use go_subtree.Merkle.Parallel.Ends.{level_ends}

module _ (p : Platform) (nodes : List Node) (next_pot len : ℕ) where
  -- `k` levels that end at the root.
  Builds-build_levels :
      {k merkle_from : ℕ} {m r : List Hash}
      → merkle_from + 2 ^ k ≡ 2 * next_pot
      → Builds p nodes next_pot len k merkle_from m r
      → r ≡ build_levels p k nodes merkle_from next_pot len m
  unfolding build_levels
  Builds-build_levels e built = refl
  Builds-build_levels {merkle_from = i} {m = m} e (level {k = k} steps d rest) =
      let double = pow_step k in
      let positive = pow_pos k in
      let lower =
        level_done p nodes next_pot len i (i + 2 ^ k - 1) m (omega arith) (omega arith) steps d in
      Builds-build_levels (omega arith) rest
      ∙ ap (build_levels p k nodes (i + 2 ^ k - 1 + 1) next_pot len) lower

  some_Builds :
      (k merkle_from : ℕ) (m : List Hash)
      → (r : List Hash) × Builds p nodes next_pot len k merkle_from m r
  some_Builds zero i m = (m, built)
  some_Builds (suc k) i m =
      let (_, s, steps, d) =
        level_ends p nodes next_pot len
          (here {s = record { threads = level_threads i (i + 2 ^ k - 1); merkles = m }}) in
      let (r, rest) = some_Builds k (i + 2 ^ k - 1 + 1) s.merkles in (r, level steps d rest)

module _ (p : Platform) (nodes : List Node) where
  -- A schedule of the goroutines of all the levels, over the array of the store.
  abbrev pub StoreBuilds : List Hash → Type 0
  StoreBuilds =
      let next_pot = next_power_of_two (length nodes) in
      Builds p nodes next_pot (length nodes) (suc (ceil_log2 (length nodes))) 0
        (replicate (next_pot - 1) zero_hash)

module _ (p : Platform) where
  build_merkle_tree_store_levels :
      (nodes : List Node)
      → 1 < length nodes
      → build_merkle_tree_store p nodes
        ≡ build_levels p
            (suc (ceil_log2 (length nodes)))
            nodes
            0
            (next_power_of_two (length nodes))
            (length nodes)
            (replicate (next_power_of_two (length nodes) - 1) zero_hash)
  unfolding build_merkle_tree_store
  build_merkle_tree_store_levels [] h = absurd (omega arith)
  build_merkle_tree_store_levels (n ∷ ns) h =
      let above = le-ceil_log2 (suc (length ns)) in
      let power = next_power_of_two-pow (suc (length ns)) (omega arith) in
      let large : (next_power_of_two (suc (length ns)) * 2 - 1 == 1) ≡ false =
        ne→==-false _ _ (λ e. omega arith) in
      rw large refl

  StoreBuilds-alone :
      (nodes : List Node) {r : List Hash}
      → 1 < length nodes
      → StoreBuilds p nodes r
      → r ≡ build_merkle_tree_store p nodes
  StoreBuilds-alone nodes h builds =
      let len = length nodes in
      let double = pow_step (ceil_log2 len) in
      let power = next_power_of_two-pow len (omega arith) in
      Builds-build_levels p nodes (next_power_of_two len) len (omega arith) builds
      ∙ sym (build_merkle_tree_store_levels nodes h)

  -- Over two leaves or more, a schedule of the goroutines of all the levels, each level begun when
  -- the one below it is done, can leave a store if and only if it is the one that the goroutines leave
  -- when they run one after another.
  pub StoreBuilds-build_merkle_tree_store :
      (nodes : List Node) (r : List Hash)
      → 1 < length nodes
      → StoreBuilds p nodes r ↔ r ≡ build_merkle_tree_store p nodes
  StoreBuilds-build_merkle_tree_store nodes r h =
      let next_pot = next_power_of_two (length nodes) in
      let (s, builds) =
        some_Builds p nodes next_pot (length nodes) (suc (ceil_log2 (length nodes))) 0
          (replicate (next_pot - 1) zero_hash) in
      (StoreBuilds-alone nodes h, λ e. rw (e ∙ sym (StoreBuilds-alone nodes h builds)) builds)
