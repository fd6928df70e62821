-- ===== src/Merkle/Parallel/Order.antt =====
-- The rounds that are left to the goroutines of a level stand in increasing order at every point.
use mathlib.Core.Path.{subst}
use go_subtree.Prelude.{
  ℕ, zero, suc, ◌+◌, ◌-◌, ◌*◌, ◌/◌, ◌≤◌, ◌<◌, ◌≡◌, refl, sym, ap, ◌∙◌, arith, Bool-cases, inl, inr,
  List, [], ◌∷◌, ◌++◌, append_assoc, ltb,
}
use go_subtree.Hash.{Hash, Platform}
use go_subtree.Node.{Node}
use go_subtree.Merkle.{split_size}
use go_subtree.Powers.{min_of}
use go_subtree.Merkle.Parallel.{
  Thread, at_loop, left_read, storing, Level, spawn, level_threads, Step, pick, read_left,
  read_right, store, Steps, here, next,
}
use go_subtree.Merkle.Parallel.Rounds.{rounds}
use go_subtree.Merkle.Parallel.Invariant.{todo, todos, todos-append, todo_at_loop}
use go_subtree.Merkle.Parallel.Kept.{todos_same}

-- Strictly increasing from a bound on.
abbrev pub Above : ℕ → List ℕ → Type 0
Above lo [] = Unit
Above lo (x ∷ xs) = (lo ≤ x) × Above (suc x) xs

Above-weaken : (lo hi : ℕ) (xs : List ℕ) → lo ≤ hi → Above hi xs → Above lo xs
Above-weaken lo hi [] h a = tt
Above-weaken lo hi (x ∷ xs) h a = (omega (arith, a.0), a.1)

Above-without : (lo : ℕ) (xs ys : List ℕ) (i : ℕ) → Above lo (xs ++ i ∷ ys) → Above lo (xs ++ ys)
Above-without lo [] ys i a = Above-weaken lo (suc i) ys (omega (arith, a.0)) a.1
Above-without lo (x ∷ xs) ys i a = (a.0, Above-without (suc x) xs ys i a.1)

Above-after : (lo : ℕ) (xs ys : List ℕ) (i : ℕ) → Above lo (xs ++ i ∷ ys) → Above (suc i) ys
Above-after lo [] ys i a = a.1
Above-after lo (x ∷ xs) ys i a = Above-after (suc x) xs ys i a.1

Above-bound : (lo : ℕ) (xs ys : List ℕ) (j : ℕ) → Above lo (xs ++ j ∷ ys) → lo ≤ j
Above-bound lo [] ys j a = a.0
Above-bound lo (x ∷ xs) ys j a = omega (arith, a.0, Above-bound (suc x) xs ys j a.1)

Above-rounds :
    (n i lo hi : ℕ) (ys : List ℕ)
    → lo ≤ i
    → lo ≤ hi
    → i + 2 * n ≤ hi + 1
    → Above hi ys
    → Above lo (rounds n i ++ ys)
Above-rounds zero i lo hi ys a b c d = Above-weaken lo hi ys b d
Above-rounds (suc n) i lo hi ys a b c d =
    (a, Above-rounds n (i + 2) (suc i) hi ys (omega arith) (omega arith) (omega arith) d)

min_of-le_left : (a b : ℕ) → min_of a b ≤ a
unfolding min_of
min_of-le_left a b = ground arith

Above-spawn : (c i merkle_to : ℕ) → Above i (todos (spawn c i merkle_to))
unfolding spawn
Above-spawn zero i merkle_to = tt
Above-spawn (suc c) i merkle_to =
    let top = min_of-le_left (i + split_size) merkle_to in
    Above-rounds ((min_of (i + split_size) merkle_to - i + 1) / 2) i i (i + split_size)
      (todos (spawn c (i + split_size) merkle_to)) (omega arith) (omega arith) (omega arith)
      (Above-spawn c (i + split_size) merkle_to)

pub Above-level_threads :
    (merkle_from merkle_to : ℕ) → Above merkle_from (todos (level_threads merkle_from merkle_to))
unfolding level_threads
Above-level_threads merkle_from merkle_to =
    elim (Bool-cases (ltb split_size (merkle_to - merkle_from))) [
      | inl y ↦ rw y (
          Above-spawn ((merkle_to - merkle_from + (split_size - 1)) / split_size) merkle_from
            merkle_to)
      | inr n ↦
          let rs = (merkle_to - merkle_from + 1) / 2 in
          rw n (
            Above-rounds rs merkle_from merkle_from (merkle_from + 2 * rs) [] (omega arith)
              (omega arith) (omega arith) tt)
    ]

pub todos_order :
    (lo : ℕ) (before mid rest : List Thread) (i stop : ℕ) (h : Hash) (j end_j : ℕ) (g : Hash)
    → Above lo (todos (before ++ storing i stop h ∷ (mid ++ storing j end_j g ∷ rest)))
    → i < j
todos_order lo before mid rest i stop h j end_j g a =
    let behind = todo (at_loop (i + 2) stop) ++ todos mid in
    let last = todo (at_loop (j + 2) end_j) ++ todos rest in
    let others : todo (at_loop (i + 2) stop) ++ todos (mid ++ storing j end_j g ∷ rest)
        ≡ behind ++ j ∷ last =
      ap (◌++◌ (todo (at_loop (i + 2) stop))) (todos-append mid (storing j end_j g ∷ rest))
      ∙ sym (append_assoc (todo (at_loop (i + 2) stop)) (todos mid) (j ∷ last)) in
    let whole : todos (before ++ storing i stop h ∷ (mid ++ storing j end_j g ∷ rest))
        ≡ todos before ++ i ∷ (behind ++ j ∷ last) =
      todos-append before (storing i stop h ∷ (mid ++ storing j end_j g ∷ rest))
      ∙ ap (λ is. todos before ++ i ∷ is) others in
    Above-bound (suc i) behind last j
      (Above-after lo (todos before) (behind ++ j ∷ last) i (subst (Above lo) whole a))

module _ (p : Platform) (nodes : List Node) (next_pot len : ℕ) where
  Above-Step :
      {s t : Level} (lo : ℕ)
      → Above lo (todos s.threads)
      → Step p nodes next_pot len s t
      → Above lo (todos t.threads)
  Above-Step lo a (pick before rest (read_left i stop m h)) =
      rw (← todos_same before rest (at_loop i stop) (left_read i stop _) (todo_at_loop i stop h)) a
  Above-Step lo a (pick before rest (read_right i stop b m)) =
      rw (← todos_same before rest (left_read i stop b) (storing i stop _) refl) a
  Above-Step lo a (pick before rest (store i stop h m)) =
      let u = at_loop (i + 2) stop in
      rw (todos-append before (u ∷ rest)) (
        Above-without lo (todos before) (todo u ++ todos rest) i
          (rw (← todos-append before (storing i stop h ∷ rest)) a))

  pub Above-Steps :
      {n : ℕ} {s t : Level} (lo : ℕ)
      → Above lo (todos s.threads)
      → Steps p nodes next_pot len n s t
      → Above lo (todos t.threads)
  Above-Steps lo a here = a
  Above-Steps lo a (next step steps) = Above-Steps lo (Above-Step lo a step) steps
