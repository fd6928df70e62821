-- ===== src/Prelude/Lists.antt =====
-- Lists measured and indexed by native numbers, under the library's names.
use Prim.Native.Nat.{ℕ, zero, suc, ◌+◌, ◌-◌, ◌<◌, ◌≤◌}
use mathlib.Core.Path.{◌≡◌, refl, sym, ap, ◌∙◌}
use mathlib.Core.List.{List, [], ◌∷◌, ◌++◌, map, append_assoc}
use mathlib.Core.Option.{Option, none, some}
use mathlib.Core.Logic.{◌≢◌, ◌⊎◌, inl, inr}
use native.Mathlib.Omega.{arith}

module _ {ℓ} {A : Type ℓ} where
  abbrev pub length : List A → ℕ
  length [] = 0
  length (x ∷ xs) = suc (length xs)

  abbrev pub get_elem? : List A → ℕ → Option A
  get_elem? [] i = none
  get_elem? (x ∷ xs) zero = some x
  get_elem? (x ∷ xs) (suc i) = get_elem? xs i

  abbrev pub get_or : List A → ℕ → A → A
  get_or [] i d = d
  get_or (x ∷ xs) zero d = x
  get_or (x ∷ xs) (suc i) d = get_or xs i d

  -- A write out of bounds changes nothing.
  abbrev pub set : List A → ℕ → A → List A
  set [] i v = []
  set (x ∷ xs) zero v = v ∷ xs
  set (x ∷ xs) (suc i) v = x ∷ set xs i v

  abbrev pub take : ℕ → List A → List A
  take zero xs = []
  take (suc n) [] = []
  take (suc n) (x ∷ xs) = x ∷ take n xs

  abbrev pub drop : ℕ → List A → List A
  drop zero xs = xs
  drop (suc n) [] = []
  drop (suc n) (x ∷ xs) = drop n xs

  abbrev pub replicate : ℕ → A → List A
  replicate zero a = []
  replicate (suc n) a = a ∷ replicate n a

  abbrev pub All {κ} : (A → Type κ) → List A → Type κ
  All P [] = Unit {κ}
  All P (x ∷ xs) = P x × All P xs

module _ {ℓ} {A : Type ℓ} where
  pub length-append : (xs ys : List A) → length (xs ++ ys) ≡ length xs + length ys
  length-append [] ys = omega arith
  length-append (x ∷ xs) ys = omega (arith, length-append xs ys)

  pub length-replicate : (n : ℕ) (a : A) → length (replicate n a) ≡ n
  length-replicate zero a = refl
  length-replicate (suc n) a = ap suc (length-replicate n a)

  pub length-set : (xs : List A) (i : ℕ) (v : A) → length (set xs i v) ≡ length xs
  length-set [] i v = refl
  length-set (x ∷ xs) zero v = refl
  length-set (x ∷ xs) (suc i) v = ap suc (length-set xs i v)

  pub take-append : (xs ys : List A) → take (length xs) (xs ++ ys) ≡ xs
  take-append [] ys = refl
  take-append (x ∷ xs) ys = ap (◌∷◌ x) (take-append xs ys)

  pub drop-append : (xs ys : List A) → drop (length xs) (xs ++ ys) ≡ ys
  drop-append [] ys = refl
  drop-append (x ∷ xs) ys = drop-append xs ys

  pub get_or-append :
      (xs ys : List A) (i : ℕ) (d : A) → get_or (xs ++ ys) (length xs + i) d ≡ get_or ys i d
  get_or-append [] ys i d = ap (λ k. get_or ys k d) (omega arith)
  get_or-append (x ∷ xs) ys i d =
      ap (λ k. get_or (x ∷ (xs ++ ys)) k d) (shift (length xs)) ∙ get_or-append xs ys i d
    where
      shift : (n : ℕ) → suc n + i ≡ suc (n + i)
      shift n = omega arith

  pub get_or-append_left :
      (xs ys : List A) (i : ℕ) (d : A) → i < length xs → get_or (xs ++ ys) i d ≡ get_or xs i d
  get_or-append_left [] ys i d h = absurd (omega arith)
  get_or-append_left (x ∷ xs) ys zero d h = refl
  get_or-append_left (x ∷ xs) ys (suc i) d h = get_or-append_left xs ys i d (omega arith)

  pub set-append :
      (xs ys : List A) (x v : A) → set (xs ++ x ∷ ys) (length xs) v ≡ (xs ++ v ∷ []) ++ ys
  set-append [] ys x v = refl
  set-append (y ∷ xs) ys x v = ap (◌∷◌ y) (set-append xs ys x v)

  pub get_or_past : (xs : List A) (i : ℕ) (d : A) → length xs ≤ i → get_or xs i d ≡ d
  get_or_past [] i d h = refl
  get_or_past (x ∷ xs) zero d h = absurd (omega arith)
  get_or_past (x ∷ xs) (suc i) d h = get_or_past xs i d (omega arith)

  pub length-map {κ} : {B : Type κ} (xs : List A) (f : A → B) → length (map f xs) ≡ length xs
  length-map [] f = refl
  length-map (x ∷ xs) f = ap suc (length-map xs f)

  pub none-ne-some : {a : A} → none ≢ some a
  none-ne-some e = cc

  pub some_inj : {a b : A} → some a ≡ some b → a ≡ b
  some_inj e = cc

  pub get_elem?-append_left :
      (xs ys : List A) (i : ℕ) {a : A} → get_elem? xs i ≡ some a → get_elem? (xs ++ ys) i ≡ some a
  get_elem?-append_left [] ys i h = absurd (none-ne-some h)
  get_elem?-append_left (x ∷ xs) ys zero h = h
  get_elem?-append_left (x ∷ xs) ys (suc i) h = get_elem?-append_left xs ys i h

  pub get_elem?-append :
      (xs ys : List A) (i : ℕ) → get_elem? (xs ++ ys) (length xs + i) ≡ get_elem? ys i
  get_elem?-append [] ys i = let e : 0 + i ≡ i = omega arith in ap (λ (k : ℕ). get_elem? ys k) e
  get_elem?-append (x ∷ xs) ys i =
      let e : suc (length xs) + i ≡ suc (length xs + i) = omega arith in
      ap (λ (k : ℕ). get_elem? (x ∷ (xs ++ ys)) k) e ∙ get_elem?-append xs ys i

  pub get_elem?-get_or :
      (xs : List A) (i : ℕ) (d : A) → i < length xs → get_elem? xs i ≡ some (get_or xs i d)
  get_elem?-get_or [] i d h = absurd (omega arith)
  get_elem?-get_or (x ∷ xs) zero d h = refl
  get_elem?-get_or (x ∷ xs) (suc i) d h = get_elem?-get_or xs i d (omega arith)

  pub get_elem?-concat_last : (xs : List A) (x : A) → get_elem? (xs ++ x ∷ []) (length xs) ≡ some x
  get_elem?-concat_last [] x = refl
  get_elem?-concat_last (y ∷ xs) x = get_elem?-concat_last xs x

  pub get_elem?-middle : (xs ys : List A) (y : A) → get_elem? (xs ++ y ∷ ys) (length xs) ≡ some y
  get_elem?-middle [] ys y = refl
  get_elem?-middle (x ∷ xs) ys y = get_elem?-middle xs ys y

  pub drop-replicate : (k n : ℕ) (a : A) → drop k (replicate n a) ≡ replicate (n - k) a
  drop-replicate zero n a = let e : n ≡ n - 0 = omega arith in ap (λ (i : ℕ). replicate i a) e
  drop-replicate (suc k) zero a =
      let e : 0 ≡ 0 - suc k = omega arith in ap (λ (i : ℕ). replicate i a) e
  drop-replicate (suc k) (suc n) a =
      let e : n - k ≡ suc n - suc k = omega arith in
      drop-replicate k n a ∙ ap (λ (i : ℕ). replicate i a) e

  pub get_elem?-concat :
      (xs : List A) (x : A) (i : ℕ) {a : A}
      → get_elem? (xs ++ x ∷ []) i ≡ some a
      → (get_elem? xs i ≡ some a) ⊎ (x ≡ a)
  get_elem?-concat [] x zero h = inr (some_inj h)
  get_elem?-concat [] x (suc i) h = inl h
  get_elem?-concat (y ∷ xs) x zero h = inl h
  get_elem?-concat (y ∷ xs) x (suc i) h = get_elem?-concat xs x i h

  -- The index behind a list, and the list, with one more element counted in.
  pub next_index : (done : List A) (a : A) → suc (length done) ≡ length (done ++ a ∷ [])
  next_index done a = omega (arith, length-append done (a ∷ []))

  pub next_done : (done rest : List A) (a : A) → done ++ a ∷ rest ≡ (done ++ a ∷ []) ++ rest
  next_done done rest a = sym (append_assoc done (a ∷ []) rest)

  pub get_elem?-set :
      (xs : List A) (i : ℕ) (a : A) → i < length xs → get_elem? (set xs i a) i ≡ some a
  get_elem?-set [] i a h = absurd (omega arith)
  get_elem?-set (x ∷ xs) zero a h = refl
  get_elem?-set (x ∷ xs) (suc i) a h = get_elem?-set xs i a (omega arith)

  -- What stands at an index after a write: the new element, at its place, or what stood there.
  pub get_elem?-set_cases :
      (xs : List A) (i j : ℕ) (a b : A)
      → get_elem? (set xs i a) j ≡ some b
      → ((j ≡ i) × (a ≡ b)) ⊎ (get_elem? xs j ≡ some b)
  get_elem?-set_cases [] i j a b e = inr e
  get_elem?-set_cases (x ∷ xs) zero zero a b e = inl (refl, some_inj e)
  get_elem?-set_cases (x ∷ xs) zero (suc j) a b e = inr e
  get_elem?-set_cases (x ∷ xs) (suc i) zero a b e = inr e
  get_elem?-set_cases (x ∷ xs) (suc i) (suc j) a b e = elim (get_elem?-set_cases xs i j a b e) [
    | inl (same, f) ↦ inl (ap suc same, f)
    | inr f ↦ inr f
  ]

  pub get_elem?-set_other :
      (xs : List A) (i j : ℕ) (a : A) → j ≢ i → get_elem? (set xs i a) j ≡ get_elem? xs j
  get_elem?-set_other [] i j a h = refl
  get_elem?-set_other (x ∷ xs) zero zero a h = absurd (h refl)
  get_elem?-set_other (x ∷ xs) zero (suc j) a h = refl
  get_elem?-set_other (x ∷ xs) (suc i) zero a h = refl
  get_elem?-set_other (x ∷ xs) (suc i) (suc j) a h =
      get_elem?-set_other xs i j a (λ e. h (ap suc e))

  pub get_elem?_past : (xs : List A) (i : ℕ) → length xs ≤ i → get_elem? xs i ≡ none
  get_elem?_past [] i h = refl
  get_elem?_past (x ∷ xs) zero h = absurd (omega arith)
  get_elem?_past (x ∷ xs) (suc i) h = get_elem?_past xs i (omega arith)

  -- Behind a removed element, each one has the next lower index.
  pub get_elem?_removed :
      (i k : ℕ) (xs : List A)
      → i ≤ k
      → get_elem? (take i xs ++ drop (suc i) xs) k ≡ get_elem? xs (suc k)
  get_elem?_removed zero k [] h = refl
  get_elem?_removed zero k (x ∷ xs) h = refl
  get_elem?_removed (suc i) k [] h = refl
  get_elem?_removed (suc i) zero (x ∷ xs) h = absurd (omega arith)
  get_elem?_removed (suc i) (suc k) (x ∷ xs) h = get_elem?_removed i k xs (omega arith)

  -- No element stands twice in the list.
  abbrev pub IsDistinct : List A → Type ℓ
  IsDistinct [] = Unit {ℓ}
  IsDistinct (x ∷ xs) = All (λ y. y ≢ x) xs × IsDistinct xs

  pub All-append {κ} : (P : A → Type κ) (xs ys : List A) → All P xs → All P ys → All P (xs ++ ys)
  All-append P [] ys a b = b
  All-append P (x ∷ xs) ys a b = (a.0, All-append P xs ys a.1 b)

  pub All_middle {κ} :
      (P : A → Type κ) (xs : List A) (x : A) (ys : List A) → All P (xs ++ x ∷ ys) → P x
  All_middle P [] x ys a = a.0
  All_middle P (y ∷ xs) x ys a = All_middle P xs x ys a.1

  pub All_replace {κ} :
      (P : A → Type κ) (xs : List A) (x y : A) (ys : List A)
      → All P (xs ++ x ∷ ys)
      → P y
      → All P (xs ++ y ∷ ys)
  All_replace P [] x y ys a b = (b, a.1)
  All_replace P (z ∷ xs) x y ys a b = (a.0, All_replace P xs x y ys a.1 b)

  pub All-concat {κ} :
      (P : A → Type κ) (x : A) (xs : List A) → All P xs → P x → All P (xs ++ x ∷ [])
  All-concat P x [] a p = (p, tt)
  All-concat P x (y ∷ xs) a p = (a.0, All-concat P x xs a.1 p)

  pub IsDistinct-concat :
      (x : A) (xs : List A) → All (λ y. y ≢ x) xs → IsDistinct xs → IsDistinct (xs ++ x ∷ [])
  IsDistinct-concat x [] a d = (tt, tt)
  IsDistinct-concat x (y ∷ xs) a d =
      (All-concat (λ z. z ≢ y) x xs d.0 (λ e. a.0 (sym e)), IsDistinct-concat x xs a.1 d.1)
