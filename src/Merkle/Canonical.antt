-- ===== src/Merkle/Canonical.antt =====
-- The root in the store is the merkle root that Bitcoin defines over the leaves.
use go_subtree.Prelude.{
  ℕ, zero, suc, ◌+◌, ◌-◌, ◌*◌, ◌/◌, ◌^◌, ◌≤◌, ◌<◌, ◌≡◌, ◌≢◌, refl, sym, ap, ◌∙◌, arith, false,
  Bool-cases, inl, inr, List, [], ◌∷◌, ◌++◌, append-nil, ltb→lt, ltb-false→le, length, get_or,
  replicate, ltb, All, length-map, length-append, get_or-append,
}
use go_subtree.Hash.{Hash, zero_hash, Platform}
use go_subtree.Node.{Node}
use go_subtree.Powers.{ceil_log2}
use go_subtree.Powers.Log.{
  pow_step, pow_pos, le-ceil_log2, ceil_log2_half, ceil_log2_pow, ceil_log2-le,
}
use go_subtree.Powers.Laws.{next_power_of_two-pow}
use go_subtree.Merkle.{double_sha, calc_merkle, build_merkle_tree_store, hash_at}
use go_subtree.Merkle.Leaves.{leaves, length-leaves}
use go_subtree.Merkle.Reference.{
  hashes, IsNonzero, NeverZero, parents, root_fuel, merkle_root, length-parents, parents-IsNonzero,
  root_fuel_one, root_fuel_step,
}
use go_subtree.Merkle.Levels.{pair_up, levels, length-pair_up, build_merkle_tree_store-levels}

module _ (p : Platform) where
  abbrev zeros : ℕ → List Hash
  zeros r = replicate r zero_hash

  calc_merkle_zero : (b : Hash) → calc_merkle p zero_hash b ≡ zero_hash
  unfolding calc_merkle
  calc_merkle_zero b = rw ((p.equal_iff zero_hash zero_hash).1 refl)

  pub equal-false : (a b : Hash) → a ≢ b → p.equal a b ≡ false
  equal-false a b h = elim (Bool-cases (p.equal a b)) [
    | inl y ↦ absurd (h ((p.equal_iff a b).0 y))
    | inr n ↦ n
  ]

  calc_merkle_alone : (a : Hash) → IsNonzero a → calc_merkle p a zero_hash ≡ double_sha p a a
  unfolding calc_merkle
  calc_merkle_alone a h = rw (equal-false a zero_hash h, (p.equal_iff zero_hash zero_hash).1 refl)

  calc_merkle_pair : (a b : Hash) → IsNonzero a → IsNonzero b → calc_merkle p a b ≡ double_sha p a b
  unfolding calc_merkle
  calc_merkle_pair a b h g = rw (equal-false a zero_hash h, equal-false b zero_hash g)

  pair_up-zeros : (n r : ℕ) → r ≡ 2 * n → pair_up p (zeros r) ≡ zeros n
  unfolding pair_up
  pair_up-zeros zero zero e = refl
  pair_up-zeros zero (suc r) e = absurd (omega arith)
  pair_up-zeros (suc n) zero e = absurd (omega arith)
  pair_up-zeros (suc n) (suc zero) e = absurd (omega arith)
  pair_up-zeros (suc n) (suc (suc r)) e =
      rw (calc_merkle_zero zero_hash, pair_up-zeros n r (omega arith))

  -- On hashes that are not zero, padding with zero hashes is pairing an odd last one with itself.
  pub pair_up-parents :
      (xs : List Hash) (r n m : ℕ)
      → All IsNonzero xs
      → length xs + r ≡ 2 * n
      → n ≡ length (parents p xs) + m
      → pair_up p (xs ++ zeros r) ≡ parents p xs ++ zeros m
  unfolding parents pair_up
  pair_up-parents [] r n m nz e f = pair_up-zeros m r (omega arith)
  pair_up-parents (a ∷ []) zero n m nz e f = absurd (omega arith)
  pair_up-parents (a ∷ []) (suc r) n m nz e f =
      rw (calc_merkle_alone a nz.0, pair_up-zeros m r (omega arith))
  pair_up-parents (a ∷ b ∷ rest) r zero m nz e f = absurd (omega arith)
  pair_up-parents (a ∷ b ∷ rest) r (suc n) m nz e f = rw (
    calc_merkle_pair a b nz.0 nz.1.0,
    pair_up-parents rest r n m nz.1.1 (omega arith) (omega arith),
  )

  -- The hash on top of a level of `2 ^ k`.
  top : ℕ → List Hash → Hash
  top zero xs = get_or xs 0 zero_hash
  top (suc k) xs = top k (pair_up p xs)

  small_log : (n : ℕ) → 0 < n → n ≤ 1 → ceil_log2 n ≡ 0
  small_log n lo hi = let one : n ≡ 1 = omega arith in rw one (ceil_log2_pow 0)

  pub large_log : (n k : ℕ) → ceil_log2 n ≡ suc k → 0 < n → 1 < n
  large_log n k e lo = elim (Bool-cases (ltb 1 n)) [
    | inl y ↦ ltb→lt _ _ y
    | inr m ↦ absurd (omega (arith, small_log n lo (ltb-false→le _ _ m)))
  ]

  -- Halving the padded level and halving the plain one come to the same hash.
  top-root_fuel :
      NeverZero p
      → (k f r : ℕ) (xs : List Hash) → All IsNonzero xs
      → 0 < length xs
      → ceil_log2 (length xs) ≡ k
      → length xs + r ≡ 2 ^ k
      → k ≤ f
      → top k (xs ++ zeros r) ≡ root_fuel p f xs
  unfolding top
  top-root_fuel never k f r [] nz pos e g h = absurd (omega arith)
  top-root_fuel never zero f r (a ∷ []) nz pos e g h = sym (root_fuel_one p f a)
  top-root_fuel never zero f r (a ∷ b ∷ xs) nz pos e g h = absurd (omega arith)
  top-root_fuel never (suc k) zero r (a ∷ xs) nz pos e g h = absurd (omega arith)
  top-root_fuel never (suc k) (suc f) r (a ∷ xs) nz pos e g h =
      let len : ℕ = length (a ∷ xs) in
      let many = large_log len k e pos in
      let halved = ceil_log2_half len many in
      let enough = le-ceil_log2 ((len + 1) / 2) in
      let double = pow_step k in
      let same : ceil_log2 ((len + 1) / 2) ≡ k = omega arith in
      let enough' : (len + 1) / 2 ≤ 2 ^ k = rw same at enough in
      let above = parents p (a ∷ xs) in
      let size : length above ≡ (len + 1) / 2 = length-parents p (a ∷ xs) in
      let m = 2 ^ k - (len + 1) / 2 in
      rw
        (
          pair_up-parents (a ∷ xs) r (2 ^ k) m nz (omega arith) (omega arith),
          root_fuel_step p f (a ∷ xs) many,
        )
        (top-root_fuel never k f m above (parents-IsNonzero p never (a ∷ xs)) (omega arith)
          (rw size same) (omega arith) (omega arith))

  length-levels : (k : ℕ) (xs : List Hash) → length xs ≡ 2 ^ k → length (levels p k xs) + 1 ≡ 2 ^ k
  unfolding levels
  length-levels zero xs e = omega arith
  length-levels (suc k) xs e =
      let step = pow_step k in
      let half = length-pair_up p (2 ^ k) xs (omega arith) in
      omega (
        arith,
        length-append (pair_up p xs) (levels p k (pair_up p xs)),
        length-levels k (pair_up p xs) half,
      )

  levels_above :
      (k i : ℕ) (xs : List Hash)
      → hash_at (levels p (suc k) xs) (length (pair_up p xs) + i)
        ≡ hash_at (levels p k (pair_up p xs)) i
  unfolding levels
  levels_above k i xs = get_or-append (pair_up p xs) (levels p k (pair_up p xs)) i zero_hash

  -- The last hash of the levels is the one on top.
  last-levels :
      (k : ℕ) (xs : List Hash)
      → length xs ≡ 2 ^ suc k
      → hash_at (levels p (suc k) xs) (2 ^ suc k - 2) ≡ top (suc k) xs
  unfolding top
  last-levels zero xs e = unfold levels in rw append-nil
  last-levels (suc k) xs e =
      let step = pow_step (suc k) in
      let half = length-pair_up p (2 ^ suc k) xs (omega arith) in
      let positive = pow_pos k in
      let step' = pow_step k in
      let place : 2 ^ suc (suc k) - 2 ≡ length (pair_up p xs) + (2 ^ suc k - 2) = omega arith in
      ap (hash_at (levels p (suc (suc k)) xs)) place
      ∙ levels_above (suc k) (2 ^ suc k - 2) xs
      ∙ last-levels k (pair_up p xs) half

  one_node : (n : Node) → build_merkle_tree_store p (n ∷ []) ≡ n.hash ∷ []
  unfolding build_merkle_tree_store
  one_node n = rw (next_power_of_two-pow 1 (omega arith), ceil_log2_pow 0)

  root-top :
      (nodes : List Node)
      → 1 < length nodes
      → hash_at (build_merkle_tree_store p nodes) (length (build_merkle_tree_store p nodes) - 1)
        ≡ top (ceil_log2 (length nodes)) (leaves nodes)
  root-top nodes h =
      let k = ceil_log2 ((length nodes + 1) / 2) in
      let tall = ceil_log2_half (length nodes) h in
      let size : length (leaves nodes) ≡ 2 ^ suc k = rw (← tall) (length-leaves nodes) in
      let place : length (levels p (suc k) (leaves nodes)) - 1 ≡ 2 ^ suc k - 2 =
        omega (arith, length-levels (suc k) (leaves nodes) size) in
      rw (build_merkle_tree_store-levels p nodes h, tall, place) (last-levels k (leaves nodes) size)

  -- Where no leaf and no double SHA-256 of two hashes is the zero hash, the last entry of the store
  -- is the Bitcoin merkle root of the leaves, for any positive number of leaves.
  pub build_merkle_tree_store-merkle_root :
      (nodes : List Node)
      → 0 < length nodes
      → NeverZero p
      → All IsNonzero (hashes nodes)
      → hash_at (build_merkle_tree_store p nodes) (length (build_merkle_tree_store p nodes) - 1)
        ≡ merkle_root p (hashes nodes)
  unfolding merkle_root
  build_merkle_tree_store-merkle_root [] pos never nz = absurd (omega arith)
  build_merkle_tree_store-merkle_root (n ∷ []) pos never nz = rw one_node
  build_merkle_tree_store-merkle_root (n ∷ m ∷ ns) pos never nz =
      let nodes = n ∷ m ∷ ns in
      let len = length nodes in
      let same = length-map nodes (λ (x : Node). x.hash) in
      let enough = le-ceil_log2 len in
      root-top nodes (omega arith)
      ∙ (unfold leaves in
          top-root_fuel never (ceil_log2 len) (length (hashes nodes)) (2 ^ ceil_log2 len - len)
            (hashes nodes) nz (omega arith) (ap ceil_log2 same) (omega arith)
            (omega (arith, ceil_log2-le len)))
