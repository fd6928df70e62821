-- ===== src/Merkle/Parallel/Kept.antt =====
-- Every step of a level keeps its invariant, so the order of the steps does not matter.
use mathlib.Core.List.{Permᴰ}
use go_subtree.Prelude.{
  ℕ, ◌+◌, ◌/◌, ◌%◌, ◌<◌, ◌≡◌, refl, sym, ap, ◌∙◌, arith, List, ◌∷◌, ◌++◌, append-nil, append_assoc,
  set, All, All-append, All_middle, All_replace,
}
use go_subtree.Hash.{Hash, Platform}
use go_subtree.Node.{Node}
use go_subtree.Merkle.{get_merkle_pair, calc_merkle, calc_level}
use go_subtree.Merkle.Parallel.{
  Thread, at_loop, left_read, storing, Level, level_threads, IsDone, read_left, read_right, store,
  Step, pick, Steps, here, next,
}
use go_subtree.Merkle.Parallel.Rounds.{middle, InLevel, after-Permᴰ, get_merkle_pair-after}
use go_subtree.Merkle.Parallel.Invariant.{
  todo, todos, todos-append, todos-IsDone, todo_at_loop, IsRight, InLevel-todos, Inv, Inv-start,
  merkles_after,
}

pub todos_same :
    (before rest : List Thread) (t u : Thread)
    → todo t ≡ todo u
    → todos (before ++ t ∷ rest) ≡ todos (before ++ u ∷ rest)
todos_same before rest t u e =
    todos-append before (t ∷ rest)
    ∙ ap (λ is. todos before ++ (is ++ todos rest)) e
    ∙ sym (todos-append before (u ∷ rest))

store_order : (is js ks : List ℕ) (i : ℕ) → Permᴰ (is ++ (js ++ i ∷ ks)) (i ∷ (is ++ (js ++ ks)))
store_order is js ks i =
    rw (← append_assoc is js (i ∷ ks), ← append_assoc is js ks) (middle (is ++ js) ks i)

todos_store :
    (is : List ℕ) (before rest : List Thread) (i stop : ℕ) (h : Hash)
    → Permᴰ
        (is ++ todos (before ++ storing i stop h ∷ rest))
        (i ∷ (is ++ todos (before ++ at_loop (i + 2) stop ∷ rest)))
todos_store is before rest i stop h =
    rw
      (
        todos-append before (storing i stop h ∷ rest),
        todos-append before (at_loop (i + 2) stop ∷ rest),
      )
      (store_order is (todos before) (todo (at_loop (i + 2) stop) ++ todos rest) i)

ap_both : {A B C : Type 0} (f : A → B → C) {a a' : A} {b b' : B} → a ≡ a' → b ≡ b' → f a b ≡ f a' b'
ap_both f {a} {a'} {b} {b'} e d = ap (λ x. f x b) e ∙ ap (f a') d

module _ (p : Platform) (nodes : List Node) (next_pot len merkle_from merkle_to : ℕ)
    (m final : List Hash) where
  abbrev Holds : Level → Type 0
  Holds = Inv p nodes next_pot len merkle_from merkle_to m final

  abbrev Right : Thread → Type 0
  Right = IsRight p nodes next_pot len merkle_from merkle_to m

  -- A step that only reads.
  Holds-unwritten :
      (before rest : List Thread) (t u : Thread) {merkles : List Hash}
      → Holds (record { threads = before ++ t ∷ rest; merkles = merkles })
      → todo t ≡ todo u
      → Right u
      → Holds (record { threads = before ++ u ∷ rest; merkles = merkles })
  Holds-unwritten before rest t u inv e r = record {
    stored = inv.stored;
    inside = inv.inside;
    merkles = inv.merkles;
    right = All_replace Right before t u rest inv.right r;
    total =
        ap (λ is. merkles_after p nodes next_pot len merkle_from merkle_to m (inv.stored ++ is))
          (sym (todos_same before rest t u e))
        ∙ inv.total;
  }

  module _ (bound : merkle_to < next_pot + merkle_from / 2) where
    pair_same :
        {threads : List Thread} (merkles : List Hash) (i : ℕ)
        → Holds (record { threads = threads; merkles = merkles })
        → InLevel p nodes next_pot len merkle_from merkle_to i
        → get_merkle_pair nodes merkles i next_pot len ≡ get_merkle_pair nodes m i next_pot len
    pair_same merkles i inv a =
        ap (λ xs. get_merkle_pair nodes xs i next_pot len) inv.merkles
        ∙ get_merkle_pair-after p nodes next_pot len merkle_from merkle_to m bound inv.stored i
            inv.inside a

    pub Inv-Step : {s t : Level} → Holds s → Step p nodes next_pot len s t → Holds t
    Inv-Step inv (pick before rest (read_left i stop merkles h)) =
        let r = All_middle Right before (at_loop i stop) rest inv.right in
        let held = get_merkle_pair nodes merkles i next_pot len in
        Holds-unwritten before rest (at_loop i stop) (left_read i stop held.0) inv
          (todo_at_loop i stop h)
          (r.0, r.1, r.2, h, ap (λ x. x.0) (pair_same merkles i inv (r.0, omega (arith, r.2), r.1)))
    Inv-Step inv (pick before rest (read_right i stop a merkles)) =
        let r = All_middle Right before (left_read i stop a) rest inv.right in
        let held = get_merkle_pair nodes merkles i next_pot len in
        Holds-unwritten before rest (left_read i stop a) (storing i stop (calc_merkle p a held.1))
          inv refl
          (
            r.0,
            r.1,
            r.2,
            r.3,
            ap_both (calc_merkle p) r.4
                (ap (λ x. x.1) (pair_same merkles i inv (r.0, omega (arith, r.2, r.3), r.1))),
          )
    Inv-Step inv (pick before rest (store i stop h merkles)) =
        let r = All_middle Right before (storing i stop h) rest inv.right in
        let u = at_loop (i + 2) stop in
        let first : InLevel p nodes next_pot len merkle_from merkle_to i =
          (r.0, omega (arith, r.2, r.3), r.1) in
        record {
          stored = i ∷ inv.stored;
          inside = (first, inv.inside);
          merkles = ap_both (λ xs a. set xs (i / 2) a) inv.merkles r.4;
          right =
              All_replace Right before (storing i stop h) u rest inv.right
                (omega arith, omega (arith, r.1), r.2);
          total =
              sym (
                after-Permᴰ p nodes next_pot len merkle_from merkle_to m
                  (todos_store inv.stored before rest i stop h)
                  (All-append (InLevel p nodes next_pot len merkle_from merkle_to) inv.stored
                    (todos (before ++ storing i stop h ∷ rest)) inv.inside
                    (InLevel-todos p nodes next_pot len merkle_from merkle_to m
                      (before ++ storing i stop h ∷ rest) inv.right)))
              ∙ inv.total;
        }

    pub Inv-Steps : {n : ℕ} {s t : Level} → Holds s → Steps p nodes next_pot len n s t → Holds t
    Inv-Steps inv here = inv
    Inv-Steps inv (next step steps) = Inv-Steps (Inv-Step inv step) steps

    Holds-finally : {s : Level} → Holds s → All IsDone s.threads → s.merkles ≡ final
    Holds-finally {s} inv d =
        inv.merkles
        ∙ ap (merkles_after p nodes next_pot len merkle_from merkle_to m)
            (sym (ap (◌++◌ inv.stored) (todos-IsDone s.threads d) ∙ append-nil inv.stored))
        ∙ inv.total

module _ (p : Platform) (nodes : List Node) (next_pot len merkle_from merkle_to : ℕ)
    (m : List Hash) where
  -- However the goroutines of a level take turns, at the end of all of them the merkles are those of
  -- the goroutines run one after another, where the level is below the cells that it reads.
  pub level_done :
      {n : ℕ} {s : Level}
      → merkle_from % 2 ≡ 0
      → merkle_to < next_pot + merkle_from / 2
      → Steps p nodes next_pot len n
          (record { threads = level_threads merkle_from merkle_to; merkles = m })
          s
      → All IsDone s.threads
      → s.merkles ≡ calc_level p nodes merkle_from merkle_to next_pot len m
  level_done {n} {s} even bound steps d =
      let final = calc_level p nodes merkle_from merkle_to next_pot len m in
      Holds-finally p nodes next_pot len merkle_from merkle_to m final bound
        (Inv-Steps p nodes next_pot len merkle_from merkle_to m final bound
          (Inv-start p nodes next_pot len merkle_from merkle_to m bound even) steps)
        d
