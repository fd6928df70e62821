-- ===== src/Merkle/Branch.antt =====
-- The branch of a leaf in Bitcoin's merkle tree: the hashes that lead from the leaf to the root.
use go_subtree.Prelude.{
  ℕ, zero, suc, ◌+◌, ◌-◌, ◌/◌, ◌%◌, ◌<◌, ◌≡◌, refl, sym, ap, ◌∙◌, arith, Bool-cases, inl, inr, List,
  [], ◌∷◌, length, get_or, ltb, ◌==◌, if◌then◌else◌, lt→ltb, le→ltb-false, ltb→lt, ltb-false→le,
  ==-false→ne,
}
use go_subtree.Hash.{Hash, zero_hash, Platform}
use go_subtree.Powers.{ceil_log2}
use go_subtree.Powers.Log.{ceil_log2_half}
use go_subtree.Merkle.{double_sha}
use go_subtree.Merkle.Reference.{
  parents, merkle_root, length-parents, merkle_root_one, merkle_root_step,
}
use go_subtree.Merkle.Canonical.{large_log}

-- The hash that stands beside the one at an index; an odd last one stands beside itself.
abbrev pub sibling : List Hash → ℕ → Hash
sibling xs i =
    if i % 2 == 0
    then (if ltb (i + 1) (length xs) then get_or xs (i + 1) zero_hash else get_or xs i zero_hash)
    else get_or xs (i - 1) zero_hash

parity : (i : ℕ) → suc (suc i) % 2 ≡ i % 2
parity i = omega arith

-- Two hashes in front change nothing.
sibling_step :
    (a b : Hash) (rest : List Hash) (i : ℕ)
    → i < length rest
    → sibling (a ∷ b ∷ rest) (suc (suc i)) ≡ sibling rest i
sibling_step a b rest i h = elim (Bool-cases (i % 2 == 0)) [
  | inl even ↦
      let next : suc (suc i) + 1 ≡ suc (suc (i + 1)) = omega arith in
      rw (parity i, even, next)
        (elim (Bool-cases (ltb (i + 1) (length rest))) [
          | inl y ↦
              rw
                (
                  y,
                  lt→ltb (suc (suc (i + 1))) (length (a ∷ b ∷ rest)) (omega (arith, ltb→lt _ _ y)),
                )
                refl
          | inr z ↦
              rw
                (
                  z,
                  le→ltb-false (suc (suc (i + 1))) (length (a ∷ b ∷ rest))
                      (omega (arith, ltb-false→le _ _ z)),
                )
                refl
        ])
  | inr odd ↦
      let before : suc (suc i) - 1 ≡ suc (suc (i - 1)) = omega (arith, ==-false→ne _ _ odd) in
      rw (parity i, odd, before) refl
]

module _ (p : Platform) where
  -- A hash and its sibling, in the order of the tree.
  abbrev pub join : Hash → Hash → ℕ → Hash
  join h s i = if i % 2 == 0 then double_sha p h s else double_sha p s h

  -- The siblings on `k` levels, the lowest first.
  unfoldable pub branch : ℕ → List Hash → ℕ → List Hash
  branch zero xs i = []
  branch (suc k) xs i = sibling xs i ∷ branch k (parents p xs) (i / 2)

  -- What a hash comes to with the siblings above it.
  unfoldable pub fold_branch : Hash → ℕ → List Hash → Hash
  fold_branch h i [] = h
  fold_branch h i (s ∷ ss) = fold_branch (join h s i) (i / 2) ss

  join-sibling :
      (xs : List Hash) (i : ℕ)
      → i < length xs
      → join (get_or xs i zero_hash) (sibling xs i) i ≡ get_or (parents p xs) (i / 2) zero_hash
  unfolding parents
  join-sibling [] i h = absurd (omega arith)
  join-sibling (a ∷ []) zero h = refl
  join-sibling (a ∷ []) (suc i) h = absurd (omega arith)
  join-sibling (a ∷ b ∷ rest) zero h =
      rw (lt→ltb (0 + 1) (length (a ∷ b ∷ rest)) (omega arith)) refl
  join-sibling (a ∷ b ∷ rest) (suc zero) h = refl
  join-sibling (a ∷ b ∷ rest) (suc (suc i)) h =
      let half : suc (suc i) / 2 ≡ suc (i / 2) = omega arith in
      rw (sibling_step a b rest i (omega arith), parity i, half) (join-sibling rest i (omega arith))

  pub fold_branch-branch :
      (k : ℕ) (xs : List Hash) (i : ℕ)
      → i < length xs
      → ceil_log2 (length xs) ≡ k
      → fold_branch (get_or xs i zero_hash) i (branch k xs i) ≡ merkle_root p xs
  unfolding fold_branch branch
  fold_branch-branch k [] i h e = absurd (omega arith)
  fold_branch-branch zero (a ∷ []) zero h e = sym (merkle_root_one p a)
  fold_branch-branch zero (a ∷ []) (suc i) h e = absurd (omega arith)
  fold_branch-branch zero (a ∷ b ∷ rest) i h e =
      absurd (omega (arith, ceil_log2_half (length (a ∷ b ∷ rest)) (omega arith)))
  fold_branch-branch (suc k) (a ∷ xs) i h e =
      let all = a ∷ xs in
      let many = large_log p (length all) k e (omega arith) in
      let size = length-parents p all in
      let tall = ceil_log2_half (length all) many in
      ap (λ (x : Hash). fold_branch x (i / 2) (branch k (parents p all) (i / 2)))
        (join-sibling all i h)
      ∙ rw (merkle_root_step p all many)
          (fold_branch-branch k (parents p all) (i / 2) (omega arith) (rw size (omega arith)))
