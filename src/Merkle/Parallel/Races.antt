-- ===== src/Merkle/Parallel/Races.antt =====
-- The goroutines of a level share no cell of the merkles that one of them writes.
use go_subtree.Prelude.{
  ℕ, ◌+◌, ◌-◌, ◌/◌, ◌%◌, ◌≤◌, ◌<◌, ◌≡◌, refl, ◌∙◌, arith, Bool-cases, inl, inr, Bool, false, not,
  ◌&&◌, ◌||◌, Option, none, some, ◌==◌, if◌then◌else◌, ne→==-false, ltb-false→le, ltb→lt, List, ◌∷◌,
  ◌++◌, append_assoc, ltb, All, All_middle,
}
use go_subtree.Hash.{Hash, Platform}
use go_subtree.Node.{Node}
use go_subtree.Merkle.{calc_level}
use go_subtree.Merkle.Parallel.{Thread, at_loop, left_read, storing, level_threads, Steps}
use go_subtree.Merkle.Parallel.Invariant.{todos, IsRight, Inv-start}
use go_subtree.Merkle.Parallel.Kept.{Inv-Steps}
use go_subtree.Merkle.Parallel.Order.{Above, Above-level_threads, Above-Steps, todos_order}

-- The cell of the merkles that the next move of a goroutine reads, and the one that it writes.
abbrev pub read_cell : ℕ → Thread → Option ℕ
read_cell next_pot (at_loop i stop) =
    if ltb i stop && not (ltb i next_pot) then some (i - next_pot) else none
read_cell next_pot (left_read i stop a) =
    if not (ltb i next_pot) then some (i - next_pot + 1) else none
read_cell next_pot (storing i stop h) = none

abbrev pub write_cell : Thread → Option ℕ
write_cell (at_loop i stop) = none
write_cell (left_read i stop a) = none
write_cell (storing i stop h) = some (i / 2)

abbrev pub is_same_cell : Option ℕ → Option ℕ → Bool
is_same_cell none c = false
is_same_cell (some a) none = false
is_same_cell (some a) (some b) = a == b

is_same_cell_comm : (a b : Option ℕ) → is_same_cell a b ≡ is_same_cell b a
is_same_cell_comm none none = refl
is_same_cell_comm none (some b) = refl
is_same_cell_comm (some a) none = refl
is_same_cell_comm (some a) (some b) = ground arith

-- The next moves of two goroutines meet in a cell that one of them writes.
abbrev pub races : ℕ → Thread → Thread → Bool
races next_pot t u =
    is_same_cell (write_cell t) (write_cell u)
    || is_same_cell (write_cell t) (read_cell next_pot u)
    || is_same_cell (read_cell next_pot t) (write_cell u)

module _ (p : Platform) (nodes : List Node) (next_pot len merkle_from merkle_to : ℕ)
    (m : List Hash) where
  module _ (even : merkle_from % 2 ≡ 0) (bound : merkle_to < next_pot + merkle_from / 2) where
    abbrev Right : Thread → Type 0
    Right = IsRight p nodes next_pot len merkle_from merkle_to m

    read_apart :
        (u : Thread) (j : ℕ)
        → Right u
        → merkle_from ≤ j
        → is_same_cell (some (j / 2)) (read_cell next_pot u) ≡ false
    read_apart (at_loop i stop) j (from, even, top) low = elim (Bool-cases (ltb i stop)) [
      | inr n ↦ rw n refl
      | inl y ↦ elim (Bool-cases (ltb i next_pot)) [
        | inl z ↦ rw (y, z) refl
        | inr z ↦
            let high = ltb-false→le i next_pot z in
            let before = ltb→lt i stop y in
            rw (y, z) (ne→==-false (j / 2) (i - next_pot) (λ e. omega arith))
      ]
    ]
    read_apart (left_read i stop a) j (from, even, top, before, _) low =
        elim (Bool-cases (ltb i next_pot)) [
          | inl z ↦ rw z refl
          | inr z ↦
              let high = ltb-false→le i next_pot z in
              rw z (ne→==-false (j / 2) (i - next_pot + 1) (λ e. omega arith))
        ]
    read_apart (storing i stop h) j r low = refl

    write_read_apart :
        (t u : Thread)
        → Right t
        → Right u
        → is_same_cell (write_cell t) (read_cell next_pot u) ≡ false
    write_read_apart (at_loop i stop) u r q = refl
    write_read_apart (left_read i stop a) u r q = refl
    write_read_apart (storing i stop h) u r q = read_apart u i q r.0

    write_apart :
        (before mid rest : List Thread) (t u : Thread)
        → Right t
        → Right u
        → Above merkle_from (todos (before ++ t ∷ (mid ++ u ∷ rest)))
        → is_same_cell (write_cell t) (write_cell u) ≡ false
    write_apart before mid rest (at_loop i stop) u r q a = refl
    write_apart before mid rest (left_read i stop b) u r q a = refl
    write_apart before mid rest (storing i stop h) (at_loop j end_j) r q a = refl
    write_apart before mid rest (storing i stop h) (left_read j end_j b) r q a = refl
    write_apart before mid rest (storing i stop h) (storing j end_j g) r q a =
        let below = todos_order merkle_from before mid rest i stop h j end_j g a in
        ne→==-false (i / 2) (j / 2) (λ e. omega (arith, r.1, q.1, e))

    -- On a level that begins at an even cell, and above the cells that it reads, at every point of every
    -- schedule of the goroutines that `BuildMerkleTreeStoreFromBytes` starts, no two of them stand before
    -- moves that meet in a cell of the merkles that one of them writes.
    pub races_none :
        {n : ℕ} (before mid rest : List Thread) (t u : Thread) (merkles : List Hash)
        → Steps p nodes next_pot len n
            (record { threads = level_threads merkle_from merkle_to; merkles = m })
            (record { threads = before ++ t ∷ (mid ++ u ∷ rest); merkles = merkles })
        → races next_pot t u ≡ false
    races_none before mid rest t u merkles steps =
        let final = calc_level p nodes merkle_from merkle_to next_pot len m in
        let inv =
          Inv-Steps p nodes next_pot len merkle_from merkle_to m final bound
            (Inv-start p nodes next_pot len merkle_from merkle_to m bound even) steps in
        let r = All_middle Right before t (mid ++ u ∷ rest) inv.right in
        let split : All Right ((before ++ t ∷ mid) ++ u ∷ rest) =
          rw (append_assoc before (t ∷ mid) (u ∷ rest)) inv.right in
        let q = All_middle Right (before ++ t ∷ mid) u rest split in
        let above =
          Above-Steps p nodes next_pot len merkle_from (Above-level_threads merkle_from merkle_to)
            steps in
        rw
          (
            write_apart before mid rest t u r q above,
            write_read_apart t u r q,
            is_same_cell_comm (read_cell next_pot t) (write_cell u) ∙ write_read_apart u t q r,
          )
          refl
