-- ===== src/Subtree/Proof/Folds.antt =====
-- A merkle proof leads from its leaf to the root.
use go_subtree.Prelude.{
  ℕ, zero, suc, ◌+◌, ◌-◌, ◌*◌, ◌/◌, ◌%◌, ◌^◌, ◌≤◌, ◌<◌, ◌≡◌, refl, ap, ◌∙◌, arith, Bool-cases, inl,
  inr, List, [], ◌∷◌, ◌++◌, append_assoc, All, pos, length, length-append, length-replicate,
  length-map, get_elem?-append, get_elem?-append_left, get_elem?-get_or, get_or, replicate, ltb,
  ◌==◌, lt→ltb, ltb→lt, ltb-false→le, lt→leb-false, le→leb, ==→eq, ==-false→ne,
}
use go_subtree.Errors.{ok}
use go_subtree.Hash.{Hash, zero_hash, Platform}
use go_subtree.Node.{Node}
use go_subtree.Powers.{ceil_log2}
use go_subtree.Powers.Log.{pow_step, le-ceil_log2}
use go_subtree.Merkle.{build_merkle_tree_store}
use go_subtree.Merkle.Leaves.{leaves}
use go_subtree.Merkle.Levels.{pair_up, levels, build_merkle_tree_store-levels}
use go_subtree.Merkle.Reference.{
  hashes, IsNonzero, NeverZero, parents, merkle_root, length-parents, parents-IsNonzero,
}
use go_subtree.Merkle.Canonical.{equal-false, pair_up-parents, large_log}
use go_subtree.Merkle.Branch.{sibling, branch, fold_branch, fold_branch-branch}
use go_subtree.Subtree.{Subtree}
use go_subtree.Subtree.Proof.{
  leaf_at, get_leaf_sibling_hash, cell_at, beside, calculate_tree_position, sibling_above,
  proof_above, proof_from, get_merkle_proof,
}

IsNonzero-get_or :
    (ys : List Hash) (i : ℕ) → All IsNonzero ys → i < length ys → IsNonzero (get_or ys i zero_hash)
IsNonzero-get_or [] i nz h = absurd (omega arith)
IsNonzero-get_or (y ∷ ys) zero nz h = nz.0
IsNonzero-get_or (y ∷ ys) (suc i) nz h = IsNonzero-get_or ys i nz.1 (omega arith)

-- A cell of a level that stands behind the lower ones.
cell_at-level :
    (lower ys tail : List Hash) (i j : ℕ)
    → i < length ys
    → j ≡ length lower + i
    → cell_at (lower ++ (ys ++ tail)) j ≡ ok (get_or ys i zero_hash)
unfolding cell_at
cell_at-level lower ys tail i j h e =
    rw
      (
        e,
        get_elem?-append lower (ys ++ tail) i,
        get_elem?-append_left ys tail i (get_elem?-get_or ys i zero_hash h),
        cell_at,
      )
      refl

-- The first cell of the padding behind a level.
cell_at-padding :
    (lower ys tail : List Hash) (j : ℕ)
    → j ≡ length lower + (length ys + 0)
    → cell_at (lower ++ (ys ++ zero_hash ∷ tail)) j ≡ ok zero_hash
unfolding cell_at
cell_at-padding lower ys tail j e =
    rw
      (
        e,
        get_elem?-append lower (ys ++ zero_hash ∷ tail) (length ys + 0),
        get_elem?-append ys (zero_hash ∷ tail) 0,
        cell_at,
      )
      refl

module _ (p : Platform) where
  beside_nonzero : (t place : ℕ) (h : Hash) → IsNonzero h → beside p t place (ok h) ≡ ok place
  unfolding beside
  beside_nonzero t place h nz = rw (equal-false p h zero_hash nz) refl

  beside_zero : (t place : ℕ) → beside p t place (ok zero_hash) ≡ ok t
  unfolding beside
  beside_zero t place = rw ((p.equal_iff zero_hash zero_hash).1 refl) refl

  even_next :
      (tree : List Hash) (start i total : ℕ) (h : Hash)
      → (start + i) % 2 ≡ 0
      → start + i + 1 < total
      → cell_at tree (start + i + 1) ≡ ok h
      → IsNonzero h
      → sibling_above p tree start i total ≡ ok h
  unfolding sibling_above calculate_tree_position
  even_next tree start i total h even room e nz =
      rw
        (
          even,
          lt→ltb (start + i + 1) total room,
          e,
          beside_nonzero (start + i) (start + i + 1) h nz,
        )
        e

  even_alone :
      (tree : List Hash) (start i total : ℕ) (h : Hash)
      → (start + i) % 2 ≡ 0
      → start + i + 1 < total
      → cell_at tree (start + i + 1) ≡ ok zero_hash
      → cell_at tree (start + i) ≡ ok h
      → sibling_above p tree start i total ≡ ok h
  unfolding sibling_above calculate_tree_position
  even_alone tree start i total h even room e f =
      rw (even, lt→ltb (start + i + 1) total room, e, beside_zero (start + i) (start + i + 1)) f

  odd_before :
      (tree : List Hash) (start i total : ℕ) (h : Hash)
      → (start + i) % 2 ≡ 1
      → cell_at tree (start + i - 1) ≡ ok h
      → IsNonzero h
      → sibling_above p tree start i total ≡ ok h
  unfolding sibling_above calculate_tree_position
  odd_before tree start i total h odd e nz =
      rw (odd, e, beside_nonzero (start + i) (start + i - 1) h nz) e

  -- On a padded level, the hash that the code takes is the sibling.
  sibling_above-sibling :
      (lower ys rest : List Hash) (r i total n : ℕ)
      → length lower % 2 ≡ 0
      → i < length ys
      → length ys + r ≡ 2 * n
      → All IsNonzero ys
      → length lower + 2 * n ≤ total
      → sibling_above p (lower ++ (ys ++ (replicate r zero_hash ++ rest))) (length lower) i total
        ≡ ok (sibling ys i)
  sibling_above-sibling lower ys rest r i total n even h e nz room =
      elim (Bool-cases (i % 2 == 0)) [
        | inr odd ↦
            let tail : List Hash = replicate r zero_hash ++ rest in
            let positive = ==-false→ne _ _ odd in
            rw odd (
              odd_before (lower ++ (ys ++ tail)) (length lower) i total
                (get_or ys (i - 1) zero_hash) (omega arith)
                (cell_at-level lower ys tail (i - 1) (length lower + i - 1) (omega arith)
                  (omega arith))
                (IsNonzero-get_or ys (i - 1) nz (omega arith)))
        | inl y ↦
            let tail : List Hash = replicate r zero_hash ++ rest in
            let low = ==→eq _ _ y in
            rw y (elim (Bool-cases (ltb (i + 1) (length ys))) [
              | inl next ↦ rw next (
                  even_next (lower ++ (ys ++ tail)) (length lower) i total
                    (get_or ys (i + 1) zero_hash) (omega arith) (omega arith)
                    (cell_at-level lower ys tail (i + 1) (length lower + i + 1) (ltb→lt _ _ next)
                      (omega arith))
                    (IsNonzero-get_or ys (i + 1) nz (ltb→lt _ _ next)))
              | inr last ↦
                  rw last
                    (alone lower ys rest r i total n even h e room low (ltb-false→le _ _ last))
            ])
      ]
    where
      alone :
          (lower ys rest : List Hash) (r i total n : ℕ)
          → length lower % 2 ≡ 0
          → i < length ys
          → length ys + r ≡ 2 * n
          → length lower + 2 * n ≤ total
          → i % 2 ≡ 0
          → length ys ≤ i + 1
          → sibling_above p
              (lower ++ (ys ++ (replicate r zero_hash ++ rest)))
              (length lower)
              i
              total
            ≡ ok (get_or ys i zero_hash)
      alone lower ys rest zero i total n even h e room low last = absurd (omega arith)
      alone lower ys rest (suc r) i total n even h e room low last =
          let tail : List Hash = replicate r zero_hash ++ rest in
          even_alone (lower ++ (ys ++ zero_hash ∷ tail)) (length lower) i total
            (get_or ys i zero_hash) (omega arith) (omega arith)
            (cell_at-padding lower ys tail (length lower + i + 1) (omega arith))
            (cell_at-level lower ys (zero_hash ∷ tail) i (length lower + i) h refl)

  -- The rounds above a padded level, which stands behind the lower ones, give the branch.
  proof_above-branch :
      (k r : ℕ) (lower ys : List Hash) (i total : ℕ)
      → NeverZero p
      → length lower % 2 ≡ 0
      → i < length ys
      → length ys + r ≡ 2 ^ k
      → All IsNonzero ys
      → length lower + 2 ^ suc k ≤ total
      → proof_above p k
          (lower ++ ((ys ++ replicate r zero_hash) ++ levels p k (ys ++ replicate r zero_hash)))
          (length lower)
          i
          total
        ≡ ok (branch p k ys i)
  unfolding proof_above branch levels
  proof_above-branch zero r lower ys i total never even h e nz room = refl
  proof_above-branch (suc k) r lower ys i total never even h e nz room =
      let xs : List Hash = ys ++ replicate r zero_hash in
      let above : List Hash = parents p ys in
      let m = 2 ^ k - length above in
      let size = length-parents p ys in
      let step = pow_step k in
      let step' = pow_step (suc k) in
      let padded : pair_up p xs ≡ above ++ replicate m zero_hash =
        pair_up-parents p ys r (2 ^ k) m nz (omega arith) (omega arith) in
      let level : List Hash = above ++ replicate m zero_hash in
      let rest : List Hash = level ++ levels p k level in
      let wide : length (lower ++ xs) ≡ length lower + 2 ^ suc k = omega (
        arith,
        length-append lower xs,
        length-append ys (replicate r zero_hash),
        length-replicate r zero_hash,
      ) in
      let here : sibling_above p (lower ++ (xs ++ rest)) (length lower) i total
          ≡ ok (sibling ys i) =
        rw (append_assoc ys (replicate r zero_hash) rest) (
          sibling_above-sibling lower ys rest r i total (2 ^ k) even h (omega arith) nz
            (omega arith)) in
      let later : proof_above p k (lower ++ (xs ++ rest)) (length lower + 2 ^ suc k) (i / 2) total
          ≡ ok (branch p k above (i / 2)) =
        rw (← append_assoc lower xs rest, ← wide)
          (proof_above-branch k m (lower ++ xs) above (i / 2) total never (omega arith)
            (omega arith) (omega arith) (parents-IsNonzero p never ys) (omega arith)) in
      rw (padded, here, later) refl

  leaf_at-hashes :
      (nodes : List Node) (i : ℕ)
      → i < length nodes
      → leaf_at nodes i ≡ ok (get_or (hashes nodes) i zero_hash)
  unfolding leaf_at
  leaf_at-hashes [] i h = absurd (omega arith)
  leaf_at-hashes (n ∷ ns) zero h = refl
  leaf_at-hashes (n ∷ ns) (suc i) h = leaf_at-hashes ns i (omega arith)

  get_leaf_sibling_hash-sibling :
      (nodes : List Node) (i : ℕ)
      → i < length nodes
      → get_leaf_sibling_hash nodes i ≡ ok (sibling (hashes nodes) i)
  unfolding get_leaf_sibling_hash
  get_leaf_sibling_hash-sibling nodes i h =
      let size = length-map nodes (λ (n : Node). n.hash) in
      elim (Bool-cases (i % 2 == 0)) [
        | inr odd ↦ rw odd (leaf_at-hashes nodes (i - 1) (omega arith))
        | inl even ↦ elim (Bool-cases (ltb (i + 1) (length nodes))) [
          | inl next ↦
              let inside = ltb→lt _ _ next in
              rw (even, lt→leb-false (i + 1) (length nodes) inside, size, next)
                (leaf_at-hashes nodes (i + 1) inside)
          | inr last ↦
              rw (even, le→leb (length nodes) (i + 1) (ltb-false→le _ _ last), size, last)
                (leaf_at-hashes nodes i h)
        ]
      ]

  length-branch : (k : ℕ) (xs : List Hash) (i : ℕ) → length (branch p k xs i) ≡ k
  unfolding branch
  length-branch zero xs i = refl
  length-branch (suc k) xs i = ap suc (length-branch k (parents p xs) (i / 2))

  proof_from-branch :
      (nodes : List Node) (i k : ℕ)
      → NeverZero p
      → All IsNonzero (hashes nodes)
      → i < length nodes
      → ceil_log2 (length nodes) ≡ k
      → proof_from p k nodes i ≡ ok (branch p k (hashes nodes) i)
  unfolding proof_from branch
  proof_from-branch nodes i zero never nz h e = refl
  proof_from-branch nodes i (suc k) never nz h e =
      let hs : List Hash = hashes nodes in
      let above : List Hash = parents p hs in
      let m = 2 ^ k - length above in
      let level : List Hash = above ++ replicate m zero_hash in
      let many = large_log p (length nodes) k e (omega arith) in
      let same = length-map nodes (λ (n : Node). n.hash) in
      let size = length-parents p hs in
      let step = pow_step k in
      let enough : length nodes ≤ 2 ^ suc k = rw e at (le-ceil_log2 (length nodes)) in
      let padded : pair_up p (hs ++ replicate (2 ^ suc k - length nodes) zero_hash) ≡ level =
        pair_up-parents p hs (2 ^ suc k - length nodes) (2 ^ k) m nz (omega arith) (omega arith) in
      let store : build_merkle_tree_store p nodes ≡ level ++ levels p k level =
        build_merkle_tree_store-levels p nodes many
        ∙ (unfold leaves levels in rw (e, padded) refl) in
      let rest : proof_above p k (level ++ levels p k level) 0 (i / 2)
            (2 ^ suc k + length (level ++ levels p k level))
          ≡ ok (branch p k above (i / 2)) =
        proof_above-branch k m [] above (i / 2) (2 ^ suc k + length (level ++ levels p k level))
          never refl (omega arith) (omega arith) (parents-IsNonzero p never hs) (omega arith) in
      rw (get_leaf_sibling_hash-sibling nodes i h, store, rest) refl

  -- For a subtree with nodes, none of them with the zero hash, and where no double SHA-256 is the zero
  -- hash: at the index of a node `GetMerkleProof` returns as many hashes as the tree is high, and from
  -- the hash of the node they lead to the Bitcoin merkle root of all hashes.
  pub get_merkle_proof-merkle_root :
      (s : Subtree) (i : ℕ)
      → NeverZero p
      → All IsNonzero (hashes s.nodes)
      → i < length s.nodes
      → (proof : List Hash) × (get_merkle_proof p s (pos i) ≡ ok proof)
        × (length proof ≡ ceil_log2 (length s.nodes))
        × (fold_branch p (get_or (hashes s.nodes) i zero_hash) i proof
            ≡ merkle_root p (hashes s.nodes))
  unfolding get_merkle_proof
  get_merkle_proof-merkle_root s i never nz h =
      let k = ceil_log2 (length s.nodes) in
      let size = length-map s.nodes (λ (n : Node). n.hash) in
      (
        branch p k (hashes s.nodes) i,
        rw (lt→leb-false i (length s.nodes) h) (proof_from-branch s.nodes i k never nz h refl),
        length-branch k (hashes s.nodes) i,
        fold_branch-branch p k (hashes s.nodes) i (omega arith) (ap ceil_log2 size),
      )
