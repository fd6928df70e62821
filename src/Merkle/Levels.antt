-- ===== src/Merkle/Levels.antt =====
-- The in-place loops of `Merkle` build the levels of the tree one behind the other.
use mathlib.Core.Path.{subst}
use go_subtree.Prelude.{
  ℕ, zero, suc, ◌+◌, ◌-◌, ◌*◌, ◌/◌, ◌^◌, ◌≤◌, ◌<◌, ◌≡◌, refl, ap, ◌∙◌, arith, Bool-cases, inl, inr,
  List, [], ◌∷◌, ◌++◌, append-nil, set-append, lt→ltb, le→ltb-false, ltb→lt, ltb-false→le,
  append_assoc, false, ne→==-false, get_or-append_left, length, get_or, replicate, ltb, ◌==◌,
  if◌then◌else◌, length-append, get_or-append,
}
use go_subtree.Hash.{Hash, zero_hash, Platform}
use go_subtree.Node.{Node}
use go_subtree.Powers.{ceil_log2}
use go_subtree.Powers.Log.{pow_step, pow_pos, ceil_log2_half}
use go_subtree.Powers.Laws.{next_power_of_two-pow}
use go_subtree.Merkle.Loops.{calc_level_lem}
use go_subtree.Merkle.Leaves.{leaves, get_node_hash_at-leaves, length-leaves}
use go_subtree.Merkle.{
  hash_at, get_node_hash_at, get_merkle_pair, calc_merkle, write_merkle, calc_rounds, calc_merkles,
  build_levels, build_merkle_tree_store,
}

module _ (p : Platform) where
  -- The next level over a level of even length.
  unfoldable pub pair_up : List Hash → List Hash
  pair_up (a ∷ b ∷ rest) = calc_merkle p a b ∷ pair_up rest
  pair_up _ = []

  -- The `k` levels above a level of `2 ^ k` hashes, the lowest first.
  unfoldable pub levels : ℕ → List Hash → List Hash
  levels zero xs = []
  levels (suc k) xs = pair_up xs ++ levels k (pair_up xs)

  pub length-pair_up : (n : ℕ) (xs : List Hash) → length xs ≡ 2 * n → length (pair_up xs) ≡ n
  unfolding pair_up
  length-pair_up zero [] e = refl
  length-pair_up zero (x ∷ xs) e = absurd (omega arith)
  length-pair_up (suc n) [] e = absurd (omega arith)
  length-pair_up (suc n) (a ∷ []) e = absurd (omega arith)
  length-pair_up (suc n) (a ∷ b ∷ rest) e = ap suc (length-pair_up n rest (omega arith))

  module _ (nodes : List Node) (next_pot len : ℕ) where
    -- The cell `i` of the leaves and the merkles behind one another.
    abbrev cell : List Hash → ℕ → Hash
    cell merkles i =
        if ltb i next_pot then get_node_hash_at nodes i len else hash_at merkles (i - next_pot)

    -- From cell `i` on, the cells that any later state reads are those of `xs`.
    abbrev Reads : ℕ → List Hash → List Hash → Type 0
    Reads i done xs =
        (j : ℕ) (tail : List Hash)
        → j < length xs
        → cell (done ++ tail) (i + j) ≡ get_or xs j zero_hash

    Reads-leaves :
        (xs : List Hash)
        → length xs ≡ next_pot
        → ((i : ℕ) → get_node_hash_at nodes i len ≡ get_or xs i zero_hash)
        → Reads 0 [] xs
    Reads-leaves xs e leaf j tail h =
        let index : 0 + j ≡ j = omega arith in rw (index, lt→ltb j next_pot (omega arith)) (leaf j)

    module _ (half : ℕ) (even : next_pot ≡ 2 * half) where
      -- A pair is two cells, since it starts at an even one.
      get_merkle_pair-cell :
          (i : ℕ) (m : List Hash)
          → get_merkle_pair nodes m (2 * i) next_pot len ≡ (cell m (2 * i), cell m (2 * i + 1))
      unfolding get_merkle_pair
      get_merkle_pair-cell i m = elim (Bool-cases (ltb (2 * i) next_pot)) [
        | inl y ↦ let low = ltb→lt _ _ y in rw (y, lt→ltb (2 * i + 1) next_pot (omega arith))
        | inr n ↦
            let high = ltb-false→le _ _ n in
            let next : 2 * i - next_pot + 1 ≡ 2 * i + 1 - next_pot = omega arith in
            rw (n, le→ltb-false (2 * i + 1) next_pot (omega arith), next)
      ]

      write_merkle_lem :
          (i : ℕ) (a b : Hash) (done rest t : List Hash)
          → i ≡ 2 * length done
          → Reads i done (a ∷ b ∷ rest)
          → write_merkle p nodes next_pot len i (done ++ zero_hash ∷ t)
            ≡ (done ++ calc_merkle p a b ∷ []) ++ t
      unfolding write_merkle
      write_merkle_lem i a b done rest t e reads =
          let m = done ++ zero_hash ∷ t in
          let start : i ≡ 2 * length done = e in
          let first : cell m (2 * length done) ≡ a =
            subst (λ k. cell m k ≡ a) (omega arith) (reads 0 (zero_hash ∷ t) (omega arith)) in
          let second : cell m (2 * length done + 1) ≡ b =
            subst (λ k. cell m k ≡ b) (omega arith) (reads 1 (zero_hash ∷ t) (omega arith)) in
          let offset : 2 * length done / 2 ≡ length done = omega arith in
          rw (e, get_merkle_pair-cell (length done) m, first, second, offset)
            (set-append done t zero_hash (calc_merkle p a b))

      -- The rounds over a level write the next level behind what is done.
      rounds_pair_up :
          (n i r r' : ℕ) (done xs : List Hash)
          → length xs ≡ 2 * n
          → i ≡ 2 * length done
          → r' ≡ n + r
          → Reads i done xs
          → calc_rounds p n nodes next_pot len i (done ++ replicate r' zero_hash)
            ≡ (done ++ pair_up xs) ++ replicate r zero_hash
      unfolding calc_rounds pair_up
      rounds_pair_up zero i r r' done [] e f g reads =
          let same : r' ≡ r = omega arith in rw (same, append-nil)
      rounds_pair_up zero i r r' done (x ∷ xs) e f g reads = absurd (omega arith)
      rounds_pair_up (suc n) i r zero done xs e f g reads = absurd (omega arith)
      rounds_pair_up (suc n) i r (suc r') done [] e f g reads = absurd (omega arith)
      rounds_pair_up (suc n) i r (suc r') done (a ∷ []) e f g reads = absurd (omega arith)
      rounds_pair_up (suc n) i r (suc r') done (a ∷ b ∷ rest) e f g reads =
          let done' = done ++ calc_merkle p a b ∷ [] in
          let later : Reads (i + 2) done' rest = λ j tail h. rw append_assoc (
            subst (λ k. cell (done ++ calc_merkle p a b ∷ tail) k ≡ get_or rest j zero_hash)
              (omega arith) (reads (suc (suc j)) (calc_merkle p a b ∷ tail) (omega arith))) in
          rw (write_merkle_lem i a b done rest (replicate r' zero_hash) f reads) (
            rounds_pair_up n (i + 2) r r' done' rest (omega arith)
              (omega (arith, length-append done (calc_merkle p a b ∷ []))) (omega arith) later
            ∙ ap (λ l. l ++ replicate r zero_hash) (append_assoc done _ (pair_up rest)))

      -- A level read from the merkles, once it stands there behind the lower ones.
      Reads-above :
          (i : ℕ) (lower xs : List Hash) → i ≡ next_pot + length lower → Reads i (lower ++ xs) xs
      Reads-above i lower xs e j tail h =
          let high : next_pot ≤ i + j = omega arith in
          let place : i + j - next_pot ≡ length lower + j = omega arith in
          rw (le→ltb-false (i + j) next_pot high, place, append_assoc, get_or-append)
            (get_or-append_left xs tail j zero_hash h)

      build_levels_step :
          (k i : ℕ) (m : List Hash)
          → build_levels p (suc k) nodes i next_pot len m
            ≡ build_levels p k nodes
                (i + 2 ^ k)
                next_pot
                len
                (calc_rounds p (2 ^ k / 2) nodes next_pot len i m)
      unfolding build_levels
      build_levels_step k i m =
          let positive = pow_pos k in
          let next : i + 2 ^ k - 1 + 1 ≡ i + 2 ^ k = omega arith in
          let rounds : (i + 2 ^ k - 1 - i + 1) / 2 ≡ 2 ^ k / 2 = omega arith in
          rw (next, calc_level_lem p nodes next_pot len i (i + 2 ^ k - 1) m)
            (unfold calc_merkles in rw rounds)

      -- The rest of the loop over `h`, at the level `xs` of `2 ^ k` hashes in the cells from `i` on.
      build_levels_lem :
          (k i r : ℕ) (lower xs : List Hash)
          → length xs ≡ 2 ^ k
          → i ≡ 2 * length lower
          → r + 1 ≡ 2 ^ k
          → Reads i lower xs
          → next_pot + length lower ≡ i + 2 ^ k
          → build_levels p (suc k) nodes i next_pot len (lower ++ replicate r zero_hash)
            ≡ lower ++ levels k xs
      unfolding levels
      build_levels_lem zero i zero lower xs e f g reads h =
          build_levels_step 0 i _ ∙ (unfold build_levels calc_rounds in refl)
      build_levels_lem zero i (suc r) lower xs e f g reads h = absurd (omega arith)
      build_levels_lem (suc k) i r lower xs e f g reads h =
          let step = pow_step k in
          let positive = pow_pos k in
          let half_rounds : 2 ^ suc k / 2 ≡ 2 ^ k = omega arith in
          let size = length-pair_up (2 ^ k) xs (omega arith) in
          let lower' = lower ++ pair_up xs in
          let size' : length lower' ≡ length lower + 2 ^ k =
            omega (arith, length-append lower (pair_up xs)) in
          build_levels_step (suc k) i _
          ∙ rw
              (
                half_rounds,
                rounds_pair_up (2 ^ k) i (r - 2 ^ k) r lower xs (omega arith) f (omega arith) reads,
              )
              (build_levels_lem k (i + 2 ^ suc k) (r - 2 ^ k) lower' (pair_up xs) size (omega arith)
                (omega arith) (Reads-above (i + 2 ^ suc k) lower (pair_up xs) (omega arith))
                (omega arith))
          ∙ append_assoc lower (pair_up xs) (levels k (pair_up xs))

  -- For two leaves or more the array that `BuildMerkleTreeStoreFromBytes` returns holds the levels
  -- above the padded leaves, the lowest first.
  pub build_merkle_tree_store-levels :
      (nodes : List Node)
      → 1 < length nodes
      → build_merkle_tree_store p nodes ≡ levels (ceil_log2 (length nodes)) (leaves nodes)
  unfolding build_merkle_tree_store
  build_merkle_tree_store-levels [] h = absurd (omega arith)
  build_merkle_tree_store-levels (n ∷ ns) h =
      let len = length (n ∷ ns) in
      let height = ceil_log2 len in
      let half = ceil_log2 ((len + 1) / 2) in
      let pot = next_power_of_two-pow len (omega arith) in
      let tall = ceil_log2_half len h in
      let even : 2 ^ height ≡ 2 * 2 ^ half = rw tall (pow_step half) in
      let positive = pow_pos half in
      let many : (2 ^ height * 2 - 1 == 1) ≡ false = ne→==-false _ _ (λ e. omega arith) in
      rw (pot, many)
        (build_levels_lem (n ∷ ns) (2 ^ height) len (2 ^ half) even height 0 (2 ^ height - 1) []
          (leaves (n ∷ ns)) (length-leaves (n ∷ ns)) refl (omega arith)
          (Reads-leaves (n ∷ ns) (2 ^ height) len (leaves (n ∷ ns)) (length-leaves (n ∷ ns))
            (get_node_hash_at-leaves (n ∷ ns)))
          (omega arith))
