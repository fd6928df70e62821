-- ===== src/Merkle/Loops.antt =====
-- The chunks in which `BuildMerkleTreeStoreFromBytes` writes a large level.
use go_subtree.Prelude.{
  ℕ, zero, suc, ◌+◌, ◌-◌, ◌*◌, ◌/◌, ◌≤◌, ◌≡◌, sym, ◌∙◌, arith, Bool-cases, inl, inr, List, ltb,
  ltb→lt, ltb-false→le,
}
use go_subtree.Hash.{Hash, Platform}
use go_subtree.Node.{Node}
use go_subtree.Powers.{min_of}
use go_subtree.Merkle.{write_merkle, calc_rounds, calc_merkles, chunk_rounds, calc_level}

module _ (p : Platform) (nodes : List Node) (next_pot len : ℕ) where
  -- The first rounds, and then the others.
  rounds_add :
      (a b n i j : ℕ) (m : List Hash)
      → n ≡ a + b
      → j ≡ i + 2 * a
      → calc_rounds p n nodes next_pot len i m
        ≡ calc_rounds p b nodes next_pot len j (calc_rounds p a nodes next_pot len i m)
  unfolding calc_rounds
  rounds_add zero b n i j m e f =
      let e' : n ≡ b = omega arith in let f' : j ≡ i = omega arith in rw (e', f')
  rounds_add (suc a) b zero i j m e f = absurd (omega arith)
  rounds_add (suc a) b (suc n) i j m e f =
      rounds_add a b n (i + 2) j (write_merkle p nodes next_pot len i m) (omega arith) (omega arith)

  no_rounds : (n i : ℕ) (m : List Hash) → n ≡ 0 → calc_rounds p n nodes next_pot len i m ≡ m
  unfolding calc_rounds
  no_rounds n i m e = rw e

  -- Splitting a level into chunks of whole pairs changes nothing.
  chunk_rounds_lem :
      (c i to : ℕ) (m : List Hash)
      → to ≤ i + 1024 * c
      → chunk_rounds p c nodes i to next_pot len m ≡ calc_merkles p nodes i to next_pot len m
  unfolding chunk_rounds calc_merkles
  chunk_rounds_lem zero i to m h = sym (no_rounds ((to - i + 1) / 2) i m (omega arith))
  chunk_rounds_lem (suc c) i to m h = elim (Bool-cases (ltb (i + 1024) to)) [
    | inl more ↦
        let here : min_of (i + 1024) to ≡ i + 1024 = unfold min_of in ground arith in
        let size : (i + 1024 - i + 1) / 2 ≡ 512 = omega arith in
        let left = ltb→lt _ _ more in
        rw (here, size)
          (chunk_rounds_lem c (i + 1024) to _ (omega arith)
            ∙ sym (
                rounds_add 512 ((to - (i + 1024) + 1) / 2) ((to - i + 1) / 2) i (i + 1024) m
                  (omega arith) (omega arith)))
    | inr last ↦
        let here : min_of (i + 1024) to ≡ to = unfold min_of in ground arith in
        let over = ltb-false→le _ _ last in
        rw here (
          chunk_rounds_lem c (i + 1024) to _ (omega arith)
          ∙ no_rounds ((to - (i + 1024) + 1) / 2) (i + 1024) _ (omega arith))
  ]

  -- A level that is written in chunks, one after another, is the level that one loop over all its
  -- pairs writes.
  pub calc_level_lem :
      (i to : ℕ) (m : List Hash)
      → calc_level p nodes i to next_pot len m ≡ calc_merkles p nodes i to next_pot len m
  unfolding calc_level
  calc_level_lem i to m = elim (Bool-cases (ltb 1024 (to - i))) [
    | inl y ↦ rw y (chunk_rounds_lem ((to - i + 1023) / 1024) i to m (omega arith))
    | inr n ↦ rw n
  ]
