-- ===== src/Merkle/Parallel/Invariant.antt =====
-- What holds of a level between the steps of its goroutines, and what the merkles are at its end.

use go_subtree.Prelude.{
  ℕ, zero, suc, ◌+◌, ◌-◌, ◌/◌, ◌%◌, ◌≤◌, ◌<◌, ◌≡◌, refl, sym, ap, ◌∙◌, arith, Bool-cases, inl, inr,
  List, [], ◌∷◌, ◌++◌, append-nil, append_assoc, ltb, All, All-append,
}
use go_subtree.Hash.{Hash, Platform}
use go_subtree.Node.{Node}
use go_subtree.Powers.{min_of}
use go_subtree.Merkle.{
  get_merkle_pair, calc_merkles, calc_rounds, chunk_rounds, calc_level, split_size,
}
use go_subtree.Merkle.Parallel.{
  Thread, at_loop, left_read, storing, Level, spawn, level_threads, IsDone,
}
use go_subtree.Merkle.Parallel.Rounds.{
  rounds, swap_front, InLevel, InLevel-rounds, target, after, after-Permᴰ, calc_rounds-after,
}

-- The rounds that a goroutine has still to store.
abbrev pub todo : Thread → List ℕ
todo (at_loop i stop) = rounds ((stop - i + 1) / 2) i
todo (left_read i stop a) = i ∷ rounds ((stop - (i + 2) + 1) / 2) (i + 2)
todo (storing i stop h) = i ∷ rounds ((stop - (i + 2) + 1) / 2) (i + 2)

abbrev pub todos : List Thread → List ℕ
todos [] = []
todos (t ∷ ts) = todo t ++ todos ts

pub todos-append : (ts us : List Thread) → todos (ts ++ us) ≡ todos ts ++ todos us
todos-append [] us = refl
todos-append (t ∷ ts) us =
    ap (◌++◌ (todo t)) (todos-append ts us) ∙ sym (append_assoc (todo t) (todos ts) (todos us))

pub todos-IsDone : (ts : List Thread) → All IsDone ts → todos ts ≡ []
todos-IsDone [] d = refl
todos-IsDone (at_loop i stop ∷ ts) d =
    let top = d.0 in
    let e : (stop - i + 1) / 2 ≡ 0 = omega arith in rw (e, todos-IsDone ts d.1) refl
todos-IsDone (left_read i stop a ∷ ts) d = absurd d.0
todos-IsDone (storing i stop h ∷ ts) d = absurd d.0

pub todo_at_loop :
    (i stop : ℕ) → i < stop → todo (at_loop i stop) ≡ i ∷ rounds ((stop - (i + 2) + 1) / 2) (i + 2)
todo_at_loop i stop h =
    let e : (stop - i + 1) / 2 ≡ suc ((stop - (i + 2) + 1) / 2) = omega arith in rw e refl

pub min_of-le : (a b : ℕ) → min_of a b ≤ b
unfolding min_of
min_of-le a b = ground arith

module _ (p : Platform) (nodes : List Node) (next_pot len merkle_from merkle_to : ℕ)
    (m : List Hash) where
  abbrev pub Inside : List ℕ → Type 0
  Inside = All (InLevel p nodes next_pot len merkle_from merkle_to)

  abbrev pub merkles_after : List ℕ → List Hash
  merkles_after = after p nodes next_pot len merkle_from merkle_to m

  abbrev pub written : ℕ → Hash
  written = target p nodes next_pot len merkle_from merkle_to m

  -- A goroutine within the level, the hashes it holds those of the merkles before the level.
  abbrev pub IsRight : Thread → Type 0
  IsRight (at_loop i stop) = (merkle_from ≤ i) × (i % 2 ≡ 0) × (stop ≤ merkle_to)
  IsRight (left_read i stop a) =
      (merkle_from ≤ i)
      × (i % 2 ≡ 0)
      × (stop ≤ merkle_to)
      × (i < stop)
      × (a ≡ (get_merkle_pair nodes m i next_pot len).0)
  IsRight (storing i stop h) =
      (merkle_from ≤ i) × (i % 2 ≡ 0) × (stop ≤ merkle_to) × (i < stop) × (h ≡ written i)

  -- What is stored so far and what is still to store make up the level.
  pub record Inv (final : List Hash) (s : Level) : Type 0 where
    pub stored : List ℕ
    pub inside : Inside stored
    pub merkles : s.merkles ≡ merkles_after stored
    pub right : All IsRight s.threads
    pub total : merkles_after (stored ++ todos s.threads) ≡ final

  InLevel-rounds_of :
      (i stop : ℕ)
      → merkle_from ≤ i
      → i % 2 ≡ 0
      → stop ≤ merkle_to
      → Inside (rounds ((stop - i + 1) / 2) i)
  InLevel-rounds_of i stop low even high = elim (Bool-cases (ltb i stop)) [
    | inl y ↦
        let below : i < stop = ground arith in
        InLevel-rounds p nodes next_pot len merkle_from merkle_to ((stop - i + 1) / 2) i low even
          (omega arith)
    | inr n ↦
        let above : stop ≤ i = ground arith in
        let none_left : (stop - i + 1) / 2 ≡ 0 = omega arith in rw none_left tt
  ]

  pub InLevel-todo : (t : Thread) → IsRight t → Inside (todo t)
  InLevel-todo (at_loop i stop) r = InLevel-rounds_of i stop r.0 r.1 r.2
  InLevel-todo (left_read i stop a) (low, even, high, h, _) =
      ((low, omega arith, even), InLevel-rounds_of (i + 2) stop (omega arith) (omega arith) high)
  InLevel-todo (storing i stop a) (low, even, high, h, _) =
      ((low, omega arith, even), InLevel-rounds_of (i + 2) stop (omega arith) (omega arith) high)

  pub InLevel-todos : (ts : List Thread) → All IsRight ts → Inside (todos ts)
  InLevel-todos [] r = tt
  InLevel-todos (t ∷ ts) r =
      All-append (InLevel p nodes next_pot len merkle_from merkle_to) (todo t) (todos ts)
        (InLevel-todo t r.0) (InLevel-todos ts r.1)

  IsRight-spawn : (c i : ℕ) → merkle_from ≤ i → i % 2 ≡ 0 → All IsRight (spawn c i merkle_to)
  unfolding spawn
  IsRight-spawn zero i low even = tt
  IsRight-spawn (suc c) i low even = (
    (low, even, min_of-le (i + split_size) merkle_to),
    IsRight-spawn c (i + split_size) (omega arith) (omega arith),
  )

  pub IsRight-level_threads :
      merkle_from % 2 ≡ 0 → All IsRight (level_threads merkle_from merkle_to)
  unfolding level_threads
  IsRight-level_threads even = elim (Bool-cases (ltb split_size (merkle_to - merkle_from))) [
    | inl y ↦ rw y (
        IsRight-spawn ((merkle_to - merkle_from + (split_size - 1)) / split_size) merkle_from
          (omega arith) even)
    | inr n ↦ rw n ((omega arith, even, omega arith), tt)
  ]

  module _ (bound : merkle_to < next_pot + merkle_from / 2) where
    calc_merkles-after :
        (i stop : ℕ) (is : List ℕ)
        → Inside is
        → merkle_from ≤ i
        → i % 2 ≡ 0
        → stop ≤ merkle_to
        → calc_merkles p nodes i stop next_pot len (merkles_after is)
          ≡ merkles_after (rounds ((stop - i + 1) / 2) i ++ is)
    unfolding calc_merkles calc_rounds
    calc_merkles-after i stop is a low even high = elim (Bool-cases (ltb i stop)) [
      | inl y ↦
          let below : i < stop = ground arith in
          calc_rounds-after p nodes next_pot len merkle_from merkle_to m bound ((stop - i + 1) / 2)
            i is a low even (omega arith)
      | inr n ↦
          let above : stop ≤ i = ground arith in
          let none_left : (stop - i + 1) / 2 ≡ 0 = omega arith in rw none_left refl
    ]

    chunk_rounds-after :
        (c i : ℕ) (is : List ℕ)
        → Inside is
        → merkle_from ≤ i
        → i % 2 ≡ 0
        → chunk_rounds p c nodes i merkle_to next_pot len (merkles_after is)
          ≡ merkles_after (todos (spawn c i merkle_to) ++ is)
    unfolding chunk_rounds spawn
    chunk_rounds-after zero i is a low even = refl
    chunk_rounds-after (suc c) i is a low even =
        let stop = min_of (i + split_size) merkle_to in
        let high = min_of-le (i + split_size) merkle_to in
        let first = rounds ((stop - i + 1) / 2) i in
        let others = todos (spawn c (i + split_size) merkle_to) in
        let inside =
          All-append (InLevel p nodes next_pot len merkle_from merkle_to) first is
            (InLevel-rounds_of i stop low even high) a in
        ap (chunk_rounds p c nodes (i + split_size) merkle_to next_pot len)
          (calc_merkles-after i stop is a low even high)
        ∙ chunk_rounds-after c (i + split_size) (first ++ is) inside (omega arith) (omega arith)
        ∙ after-Permᴰ p nodes next_pot len merkle_from merkle_to m (swap_front others first is) (
            All-append (InLevel p nodes next_pot len merkle_from merkle_to) others (first ++ is)
              (InLevel-todos (spawn c (i + split_size) merkle_to)
                (IsRight-spawn c (i + split_size) (omega arith) (omega arith)))
              inside)
        ∙ ap merkles_after (sym (append_assoc first others is))

    -- One goroutine after another, the level is what the rounds of all of them leave.
    calc_level-after :
        merkle_from % 2 ≡ 0
        → calc_level p nodes merkle_from merkle_to next_pot len m
          ≡ merkles_after (todos (level_threads merkle_from merkle_to) ++ [])
    unfolding calc_level level_threads
    calc_level-after even = elim (Bool-cases (ltb split_size (merkle_to - merkle_from))) [
      | inl y ↦ rw y (
          chunk_rounds-after ((merkle_to - merkle_from + (split_size - 1)) / split_size) merkle_from
            [] tt (omega arith) even)
      | inr n ↦ rw n (
          calc_merkles-after merkle_from merkle_to [] tt (omega arith) even (omega arith)
          ∙ ap merkles_after (
              ap (λ is. is ++ [])
                (sym (append-nil (rounds ((merkle_to - merkle_from + 1) / 2) merkle_from)))))
    ]

    pub Inv-start :
        merkle_from % 2 ≡ 0
        → Inv
            (calc_level p nodes merkle_from merkle_to next_pot len m)
            (record { threads = level_threads merkle_from merkle_to; merkles = m })
    Inv-start even = record {
      stored = [];
      inside = tt;
      merkles = refl;
      right = IsRight-level_threads even;
      total = sym (
          calc_level-after even
          ∙ ap merkles_after (append-nil (todos (level_threads merkle_from merkle_to))));
    }
