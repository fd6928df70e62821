-- ===== src/Merkle/Parallel/Ends.antt =====
-- The goroutines of a level end: each step uses up one of the reads and writes that are left.
use go_subtree.Prelude.{
  ℕ, zero, suc, ◌+◌, ◌-◌, ◌*◌, ◌/◌, ◌≤◌, ◌<◌, ◌≡◌, refl, ap, arith, Bool-cases, ◌⊎◌, inl, inr, List,
  [], ◌∷◌, ◌++◌, set, ltb, All,
}
use go_subtree.Hash.{Hash, Platform}
use go_subtree.Node.{Node}
use go_subtree.Merkle.{get_merkle_pair, calc_merkle}
use go_subtree.Merkle.Parallel.{
  Thread, at_loop, left_read, storing, Level, IsDone, Move, read_left, read_right, store, Step,
  pick, Steps, here, next,
}

-- The reads and writes that a goroutine has still to make, two reads and a write in a round.
abbrev pub moves_left : Thread → ℕ
moves_left (at_loop i stop) = 3 * ((stop - i + 1) / 2)
moves_left (left_read i stop a) = 2 + 3 * ((stop - (i + 2) + 1) / 2)
moves_left (storing i stop h) = 1 + 3 * ((stop - (i + 2) + 1) / 2)

abbrev pub work : List Thread → ℕ
work [] = 0
work (t ∷ ts) = moves_left t + work ts

work-append : (ts us : List Thread) → work (ts ++ us) ≡ work ts + work us
work-append [] us = omega arith
work-append (t ∷ ts) us = omega (arith, work-append ts us)

work_less :
    (before rest : List Thread) (t u : Thread)
    → moves_left t ≡ suc (moves_left u)
    → suc (work (before ++ u ∷ rest)) ≡ work (before ++ t ∷ rest)
work_less before rest t u e =
    omega (arith, work-append before (u ∷ rest), work-append before (t ∷ rest), e)

module _ (p : Platform) (nodes : List Node) (next_pot len : ℕ) where
  work-Move :
      {t : Thread} {m : List Hash} {u : Thread} {n : List Hash}
      → Move p nodes next_pot len t m u n
      → moves_left t ≡ suc (moves_left u)
  work-Move (read_left i stop m h) = omega arith
  work-Move (read_right i stop a m) = omega arith
  work-Move (store i stop h m) = omega arith

  work-Step : {s t : Level} → Step p nodes next_pot len s t → suc (work t.threads) ≡ work s.threads
  work-Step (pick before rest {t} {u} move) = work_less before rest t u (work-Move move)

  work-Steps :
      {n : ℕ} {s t : Level} → Steps p nodes next_pot len n s t → n + work t.threads ≡ work s.threads
  work-Steps here = omega arith
  work-Steps (next step steps) = omega (arith, work-Steps steps, work-Step step)

  -- A goroutine is at its end or can move.
  goroutine_goes_on :
      (t : Thread) (m : List Hash)
      → IsDone t ⊎ ((u : Thread) × (n : List Hash) × Move p nodes next_pot len t m u n)
  goroutine_goes_on (at_loop i stop) m = elim (Bool-cases (ltb i stop)) [
    | inl y ↦
        let h : i < stop = ground arith in
        inr (left_read i stop (get_merkle_pair nodes m i next_pot len).0, m, read_left i stop m h)
    | inr n ↦ let h : stop ≤ i = ground arith in inl h
  ]
  goroutine_goes_on (left_read i stop a) m = inr (
    storing i stop (calc_merkle p a (get_merkle_pair nodes m i next_pot len).1),
    m,
    read_right i stop a m,
  )
  goroutine_goes_on (storing i stop h) m =
      inr (at_loop (i + 2) stop, set m (i / 2) h, store i stop h m)

  -- So is a level: none of its goroutines waits for another.
  level_goes_on :
      (ts : List Thread) (m : List Hash)
      → All IsDone ts
        ⊎ ((before rest : List Thread) × (t u : Thread) × (n : List Hash) × (ts
              ≡ before ++ t ∷ rest)
            × Move p nodes next_pot len t m u n)
  level_goes_on [] m = inl tt
  level_goes_on (t ∷ ts) m = elim (goroutine_goes_on t m) [
    | inr (u, n, move) ↦ inr ([], ts, t, u, n, refl, move)
    | inl d ↦ elim (level_goes_on ts m) [
      | inl ds ↦ inl (d, ds)
      | inr (before, rest, x, u, n, e, move) ↦ inr (t ∷ before, rest, x, u, n, ap (◌∷◌ t) e, move)
    ]
  ]

  work-IsDone : (ts : List Thread) → All IsDone ts → work ts ≡ 0
  work-IsDone [] d = refl
  work-IsDone (at_loop i stop ∷ ts) d = omega (arith, d.0, work-IsDone ts d.1)
  work-IsDone (left_read i stop a ∷ ts) d = absurd d.0
  work-IsDone (storing i stop h ∷ ts) d = absurd d.0

  abbrev pub Ends : ℕ → List Thread → List Hash → Type 0
  Ends k ts m =
      (u : Level) × Steps p nodes next_pot len k (record { threads = ts; merkles = m }) u
      × All IsDone u.threads

  finish : (k : ℕ) (ts : List Thread) (m : List Hash) → work ts ≡ k → Ends k ts m
  finish zero ts m e = elim (level_goes_on ts m) [
    | inl d ↦ (record { threads = ts; merkles = m }, here, d)
    | inr (before, rest, t, u, n, same, move) ↦
        absurd (omega (arith, work_less before rest t u (work-Move move), ap work same, e))
  ]
  finish (suc k) ts m e = elim (level_goes_on ts m) [
    | inl d ↦ absurd (omega (arith, work-IsDone ts d, e))
    | inr (before, rest, t, u, n, same, move) ↦
        let step : Step p nodes next_pot len (record { threads = ts; merkles = m })
            (record { threads = before ++ u ∷ rest; merkles = n }) =
          rw same (pick before rest move) in
        let less = work_less before rest t u (work-Move move) in
        let others = finish k (before ++ u ∷ rest) n (omega (arith, less, ap work same, e)) in
        (others.0, next step others.1, others.2)
  ]

  -- A schedule of a level has no more steps than the level has reads and writes, and it can be
  -- carried on, by the steps that are missing to that number, until all goroutines are at their end.
  pub level_ends :
      {n : ℕ} {s t : Level}
      → Steps p nodes next_pot len n s t
      → (n ≤ work s.threads)
        × (u : Level) × Steps p nodes next_pot len (work s.threads - n) t u
        × All IsDone u.threads
  level_ends {n} {s} {t} steps =
      let used = work-Steps steps in
      let rest = finish (work s.threads - n) t.threads t.merkles (omega arith) in
      (omega arith, rest.0, rest.1, rest.2)
