-- ===== src/Merkle/Parallel/Rounds.antt =====
-- The rounds of a level, and that their order does not matter.
use mathlib.Core.List.{Permᴰ}
use mathlib.Core.List.Permᴰ
use go_subtree.Prelude.{
  ℕ, zero, suc, ◌+◌, ◌-◌, ◌*◌, ◌/◌, ◌%◌, ◌≤◌, ◌<◌, ◌≡◌, ◌≢◌, refl, sym, ap, ◌∙◌, arith, Bool-cases,
  inl, inr, List, [], ◌∷◌, ◌++◌, get_or, set, ltb, ◌==◌, ltb-false→le, ==→eq, ==-false→ne, All,
  All-append,
}
use go_subtree.Hash.{Hash, zero_hash, Platform}
use go_subtree.Node.{Node}
use go_subtree.Merkle.{get_merkle_pair, calc_merkle, write_merkle, calc_rounds}

-- The rounds from `i` on.
abbrev pub rounds : ℕ → ℕ → List ℕ
rounds zero i = []
rounds (suc n) i = i ∷ rounds n (i + 2)

set_comm :
    (xs : List Hash) (i j : ℕ) (a b : Hash) → i ≢ j → set (set xs i a) j b ≡ set (set xs j b) i a
set_comm [] i j a b h = refl
set_comm (x ∷ xs) zero zero a b h = absurd (h refl)
set_comm (x ∷ xs) zero (suc j) a b h = refl
set_comm (x ∷ xs) (suc i) zero a b h = refl
set_comm (x ∷ xs) (suc i) (suc j) a b h = ap (◌∷◌ x) (set_comm xs i j a b (λ e. h (ap suc e)))

get_or-set :
    (xs : List Hash) (i j : ℕ) (a d : Hash) → j ≢ i → get_or (set xs i a) j d ≡ get_or xs j d
get_or-set [] i j a d h = refl
get_or-set (x ∷ xs) zero zero a d h = absurd (h refl)
get_or-set (x ∷ xs) zero (suc j) a d h = refl
get_or-set (x ∷ xs) (suc i) zero a d h = refl
get_or-set (x ∷ xs) (suc i) (suc j) a d h = get_or-set xs i j a d (λ e. h (ap suc e))

pub middle {ℓ} : {A : Type ℓ} (xs ys : List A) (a : A) → Permᴰ (xs ++ a ∷ ys) (a ∷ (xs ++ ys))
middle [] ys a = Permᴰ.refl (a ∷ ys)
middle (x ∷ xs) ys a = Permᴰ.trans (Permᴰ.cons refl (middle xs ys a)) (Permᴰ.swap refl refl)

pub swap_front {ℓ} : {A : Type ℓ} (xs ys zs : List A) → Permᴰ (xs ++ (ys ++ zs)) (ys ++ (xs ++ zs))
swap_front [] ys zs = Permᴰ.refl (ys ++ zs)
swap_front (x ∷ xs) ys zs =
    Permᴰ.trans (Permᴰ.cons refl (swap_front xs ys zs)) (Permᴰ.symm (middle ys (xs ++ zs) x))

module _ (p : Platform) (nodes : List Node) (next_pot len merkle_from merkle_to : ℕ) where
  -- A round of the level.
  abbrev pub InLevel : ℕ → Type 0
  InLevel i = (merkle_from ≤ i) × (i < merkle_to) × (i % 2 ≡ 0)

  pub InLevel-rounds :
      (n i : ℕ) → merkle_from ≤ i → i % 2 ≡ 0 → i + 2 * n ≤ merkle_to + 1 → All InLevel (rounds n i)
  InLevel-rounds zero i low even high = tt
  InLevel-rounds (suc n) i low even high =
      ((low, omega arith, even), InLevel-rounds n (i + 2) (omega arith) (omega arith) (omega arith))

  pub All-Permᴰ : {xs ys : List ℕ} → Permᴰ xs ys → All InLevel xs → All InLevel ys
  All-Permᴰ Permᴰ.nil a = tt
  All-Permᴰ (Permᴰ.cons e q) a = (rw (← e) a.0, All-Permᴰ q a.1)
  All-Permᴰ (Permᴰ.swap e f) a = (rw (← f) a.1.0, (rw (← e) a.0, a.1.1))
  All-Permᴰ (Permᴰ.trans q r) a = All-Permᴰ r (All-Permᴰ q a)

  module _ (m : List Hash) where
    -- What the round `i` writes, if it reads the merkles as they are before the level.
    abbrev pub target : ℕ → Hash
    target i =
        let (left, right) = get_merkle_pair nodes m i next_pot len in calc_merkle p left right

    -- The merkles after these rounds, the last of them in front.
    abbrev pub after : List ℕ → List Hash
    after [] = m
    after (i ∷ is) = set (after is) (i / 2) (target i)

    after_swap :
        (i j : ℕ) (is : List ℕ) → InLevel i → InLevel j → after (i ∷ j ∷ is) ≡ after (j ∷ i ∷ is)
    after_swap i j is a b = elim (Bool-cases (i / 2 == j / 2)) [
      | inl y ↦
          let halves = ==→eq _ _ y in let same : i ≡ j = omega (arith, a.2, b.2) in rw same refl
      | inr n ↦
          set_comm (after is) (j / 2) (i / 2) (target j) (target i) (λ e. ==-false→ne _ _ n (sym e))
    ]

    pub after-Permᴰ : {is js : List ℕ} → Permᴰ is js → All InLevel is → after is ≡ after js
    after-Permᴰ Permᴰ.nil a = refl
    after-Permᴰ (Permᴰ.cons e q) a = rw (e, after-Permᴰ q a.1) refl
    after-Permᴰ (Permᴰ.swap {a = x} {b = y} {l = xs} e f) a =
        rw (← e, ← f) (after_swap x y xs a.0 a.1.0)
    after-Permᴰ (Permᴰ.trans q r) a = after-Permᴰ q a ∙ after-Permᴰ r (All-Permᴰ q a)

    -- The cells below the level stay as they are.
    get_or-after :
        (is : List ℕ) (j : ℕ)
        → All InLevel is
        → j < merkle_from / 2
        → get_or (after is) j zero_hash ≡ get_or m j zero_hash
    get_or-after [] j a h = refl
    get_or-after (i ∷ is) j a h =
        let low = a.0.0 in
        get_or-set (after is) (i / 2) j (target i) zero_hash (omega arith) ∙ get_or-after is j a.1 h

    module _ (bound : merkle_to < next_pot + merkle_from / 2) where
      pub get_merkle_pair-after :
          (is : List ℕ) (i : ℕ)
          → All InLevel is
          → InLevel i
          → get_merkle_pair nodes (after is) i next_pot len ≡ get_merkle_pair nodes m i next_pot len
      unfolding get_merkle_pair
      get_merkle_pair-after is i a b = elim (Bool-cases (ltb i next_pot)) [
        | inl y ↦ rw y refl
        | inr n ↦
            let high = ltb-false→le i next_pot n in
            let top = b.1 in
            rw
              (
                n,
                get_or-after is (i - next_pot) a (omega arith),
                get_or-after is (i - next_pot + 1) a (omega arith),
              )
              refl
      ]

      write_merkle-after :
          (is : List ℕ) (i : ℕ)
          → All InLevel is
          → InLevel i
          → write_merkle p nodes next_pot len i (after is) ≡ after (i ∷ is)
      unfolding write_merkle
      write_merkle-after is i a b = rw (get_merkle_pair-after is i a b) refl

      -- The loop of `calcMerkles` makes its rounds.
      pub calc_rounds-after :
          (n i : ℕ) (is : List ℕ)
          → All InLevel is
          → merkle_from ≤ i
          → i % 2 ≡ 0
          → i + 2 * n ≤ merkle_to + 1
          → calc_rounds p n nodes next_pot len i (after is) ≡ after (rounds n i ++ is)
      unfolding calc_rounds
      calc_rounds-after zero i is a low even high = refl
      calc_rounds-after (suc n) i is a low even high =
          let first : InLevel i = (low, omega arith, even) in
          let rest = InLevel-rounds n (i + 2) (omega arith) (omega arith) (omega arith) in
          ap (calc_rounds p n nodes next_pot len (i + 2)) (write_merkle-after is i a first)
          ∙ calc_rounds-after n (i + 2) (i ∷ is) (first, a) (omega arith) (omega arith)
              (omega arith)
          ∙ after-Permᴰ (middle (rounds n (i + 2)) is i)
              (All-append InLevel (rounds n (i + 2)) (i ∷ is) rest (first, a))
