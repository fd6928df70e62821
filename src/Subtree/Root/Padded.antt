-- ===== src/Subtree/Root/Padded.antt =====
-- `RootHashPadded`: roots of subtrees compose to the root over all their leaves.
use go_subtree.Prelude.{
  ℕ, zero, suc, ◌-◌, ◌*◌, ◌^◌, ◌≤◌, ◌<◌, ◌≡◌, refl, ap, ◌∙◌, arith, Option, none, some, List, [],
  ◌∷◌, ◌++◌, length, All, pos, lt→ltb, le→ltb-false, ne→==-false, length-append, length-map,
}
use go_subtree.Errors.{ok, err, target_height_too_small}
use go_subtree.Hash.{Hash, Platform}
use go_subtree.Node.{Node}
use go_subtree.Powers.{bit_len, ceil_log2}
use go_subtree.Powers.Log.{ceil_log2_half, ceil_log2_pow, pow_step, pow_pos, le_pow_ceil_log2}
use go_subtree.Merkle.{double_sha}
use go_subtree.Merkle.Reference.{
  hashes, IsNonzero, NeverZero, parents, merkle_root, length-parents, merkle_root_one,
  merkle_root_step,
}
use go_subtree.Subtree.{Subtree}
use go_subtree.Subtree.Root.{root_hash, lift_root, padded_root, root_hash_padded}
use go_subtree.Subtree.Root.Evolved.{Evolved}
use go_subtree.Subtree.Root.Valid.{root_hash-merkle_root}

module _ (p : Platform) where
  -- The root of `ys`, lifted from its own height to `k`.
  abbrev lifted : ℕ → List Hash → Hash
  lifted k ys = lift_root p (k - ceil_log2 (length ys)) (merkle_root p ys)

  lifted_step :
      (k : ℕ) (ys : List Hash) → 0 < length ys → lifted (suc k) ys ≡ lifted k (parents p ys)
  lifted_step k [] h = absurd (omega arith)
  lifted_step k (b ∷ []) h =
      let flat = ceil_log2_pow 0 in
      let more : suc k - ceil_log2 1 ≡ suc k = omega arith in
      let less : k - ceil_log2 1 ≡ k = omega arith in
      rw (more, merkle_root_one p b)
        (unfold parents in rw (less, merkle_root_one) (unfold lift_root in refl))
  lifted_step k (b ∷ c ∷ ys) h =
      let all = b ∷ c ∷ ys in
      let tall = ceil_log2_half (length all) (omega arith) in
      let size = length-parents p all in
      let down : suc k - ceil_log2 (length all) ≡ k - ceil_log2 (length (parents p all)) =
        rw (tall, size) (omega arith) in
      rw (down, merkle_root_step p all (omega arith))

  parents-append :
      (n : ℕ) (xs ys : List Hash)
      → length xs ≡ 2 * n
      → parents p (xs ++ ys) ≡ parents p xs ++ parents p ys
  unfolding parents
  parents-append zero [] ys e = refl
  parents-append zero (x ∷ xs) ys e = absurd (omega arith)
  parents-append (suc n) [] ys e = absurd (omega arith)
  parents-append (suc n) (a ∷ []) ys e = absurd (omega arith)
  parents-append (suc n) (a ∷ b ∷ xs) ys e =
      ap (◌∷◌ (double_sha p a b)) (parents-append n xs ys (omega arith))

  -- A full left half and a lifted right half make the root over both.
  merkle_root-append :
      (k : ℕ) (xs ys : List Hash)
      → length xs ≡ 2 ^ k
      → 0 < length ys
      → length ys ≤ 2 ^ k
      → merkle_root p (xs ++ ys) ≡ double_sha p (merkle_root p xs) (lifted k ys)
  merkle_root-append zero [] ys e h g = absurd (omega arith)
  merkle_root-append zero (a ∷ b ∷ xs) ys e h g = absurd (omega arith)
  merkle_root-append zero (a ∷ []) [] e h g = absurd (omega arith)
  merkle_root-append zero (a ∷ []) (b ∷ c ∷ ys) e h g = absurd (omega arith)
  merkle_root-append zero (a ∷ []) (b ∷ []) e h g =
      let flat : 0 - ceil_log2 1 ≡ 0 = omega arith in
      merkle_root_step p (a ∷ b ∷ []) (omega arith)
      ∙ (unfold parents in
          rw (flat, merkle_root_one p _)
            (unfold lift_root in rw (merkle_root_one p a, merkle_root_one p b)))
  merkle_root-append (suc k) xs ys e h g =
      let step = pow_step k in
      let positive = pow_pos k in
      let both = length-append xs ys in
      let halved = length-parents p xs in
      let halved' = length-parents p ys in
      merkle_root_step p (xs ++ ys) (omega arith)
      ∙ ap (merkle_root p) (parents-append (2 ^ k) xs ys (omega arith))
      ∙ merkle_root-append k (parents p xs) (parents p ys) (omega arith) (omega arith) (omega arith)
      ∙ rw (merkle_root_step p xs (omega arith), lifted_step k ys h)

  padded_root-some :
      (t height : ℕ) (q : Option Hash × Subtree) (r : Hash)
      → q.0 ≡ some r
      → padded_root p t height q ≡ ok (some (lift_root p (t - height) r), q.1)
  unfolding padded_root
  padded_root-some t height (none, s) r e = cc
  padded_root-some t height (some x, s) r e = cc

  root_hash_padded_lem :
      (s : Subtree) (t : ℕ) (r : Hash)
      → 0 < length s.nodes
      → ceil_log2 (length s.nodes) ≤ t
      → (root_hash p s).0 ≡ some r
      → root_hash_padded p (some s) (pos t)
        ≡ ok (some (lift_root p (t - ceil_log2 (length s.nodes)) r), (root_hash p s).1)
  unfolding root_hash_padded ceil_log2
  root_hash_padded_lem s t r h tall e =
      rw
        (
          ne→==-false (length s.nodes) 0 (λ z. omega arith),
          le→ltb-false t (bit_len (length s.nodes - 1)) tall,
        )
        (padded_root-some t (bit_len (length s.nodes - 1)) (root_hash p s) r e)

  -- For a subtree that has nodes, `RootHashPadded` refuses a target that is not negative and below
  -- the height of its leaves.
  pub root_hash_padded_small :
      (s : Subtree) (t : ℕ)
      → 0 < length s.nodes
      → t < ceil_log2 (length s.nodes)
      → root_hash_padded p (some s) (pos t) ≡ err target_height_too_small
  unfolding root_hash_padded ceil_log2
  root_hash_padded_small s t h low = rw (
    ne→==-false (length s.nodes) 0 (λ z. omega arith),
    lt→ltb t (bit_len (length s.nodes - 1)) low,
  )

  -- Let `s` and `t` each come from a tree made by `NewTree` by successful calls of `AddSubtreeNode`,
  -- `AddSubtreeNodeWithoutLock`, `AddNode`, `AddCoinbaseNode`, `AddConflictingNode`,
  -- `RemoveNodeAtIndex`, `RootHash`, `NodeIndex` and `ReplaceRootNode`, in any order, `s` with
  -- `2 ^ k` nodes and `t` with one to `2 ^ k`. Then `RootHashPadded` of `t` to height `k` returns a root, and the double SHA-256 of the root of `s`
  -- with it is the Bitcoin merkle root over the leaves of `s` and `t` together, if no leaf and no
  -- double SHA-256 is the zero hash.
  pub root_hash_padded_compose :
      (k : ℕ) {s t : Subtree}
      → Evolved p s
      → Evolved p t
      → length s.nodes ≡ 2 ^ k
      → 0 < length t.nodes
      → length t.nodes ≤ 2 ^ k
      → NeverZero p
      → All IsNonzero (hashes s.nodes)
      → All IsNonzero (hashes t.nodes)
      → (left right : Hash) × ((root_hash p s).0 ≡ some left)
        × (root_hash_padded p (some t) (pos k) ≡ ok (some right, (root_hash p t).1))
        × (merkle_root p (hashes s.nodes ++ hashes t.nodes) ≡ double_sha p left right)
  root_hash_padded_compose k {s} {t} rs rt full some_nodes few never nzs nzt =
      let sizes = length-map s.nodes (λ (n : Node). n.hash) in
      let sizet = length-map t.nodes (λ (n : Node). n.hash) in
      let positive = pow_pos k in
      let roots = root_hash-merkle_root p rs (omega arith) never nzs in
      let roott = root_hash-merkle_root p rt some_nodes never nzt in
      (
        merkle_root p (hashes s.nodes),
        lifted k (hashes t.nodes),
        roots,
        rw sizet (
            root_hash_padded_lem t k _ some_nodes
              (le_pow_ceil_log2 (length t.nodes) k some_nodes few) roott),
        merkle_root-append k (hashes s.nodes) (hashes t.nodes) (omega arith) (omega arith)
            (omega arith),
      )
