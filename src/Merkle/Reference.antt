-- ===== src/Merkle/Reference.antt =====
-- The merkle root that Bitcoin defines over a list of leaves, which the program is held against.
use go_subtree.Prelude.{
  ℕ, zero, suc, ◌+◌, ◌/◌, ◌≤◌, ◌<◌, ◌≡◌, ◌≢◌, refl, sym, ◌∙◌, arith, true, false, List, [], ◌∷◌,
  length, get_or, leb, All, map, lt→leb-false,
}
use go_subtree.Hash.{Hash, zero_hash, Platform}
use go_subtree.Node.{Node}
use go_subtree.Merkle.{double_sha}

abbrev pub hashes : List Node → List Hash
hashes = map (λ n. n.hash)

abbrev pub IsNonzero : Hash → Type 0
IsNonzero h = h ≢ zero_hash

module _ (p : Platform) where
  -- No pair of hashes has a double SHA-256 of 32 zero bytes; the program uses those as "no hash".
  abbrev pub NeverZero : Type 0
  NeverZero = (left right : Hash) → double_sha p left right ≢ zero_hash

  -- The level above, an odd last hash being paired with itself.
  unfoldable pub parents : List Hash → List Hash
  parents [] = []
  parents (a ∷ []) = double_sha p a a ∷ []
  parents (a ∷ b ∷ rest) = double_sha p a b ∷ parents rest

  pub root_fuel : ℕ → List Hash → Hash
  root_fuel zero xs = get_or xs 0 zero_hash
  root_fuel (suc f) xs = elim (leb (length xs) 1) [
    | true ↦ get_or xs 0 zero_hash
    | false ↦ root_fuel f (parents xs)
  ]

  -- Level after level until one hash is left; each level is shorter, so the length is fuel enough.
  unfoldable pub merkle_root : List Hash → Hash
  unfolding root_fuel
  merkle_root xs = root_fuel (length xs) xs

  pub length-parents : (xs : List Hash) → length (parents xs) ≡ (length xs + 1) / 2
  unfolding parents
  length-parents [] = omega arith
  length-parents (a ∷ []) = omega arith
  length-parents (a ∷ b ∷ rest) = omega (arith, length-parents rest)

  pub parents-IsNonzero : NeverZero → (xs : List Hash) → All IsNonzero (parents xs)
  unfolding parents
  parents-IsNonzero never [] = tt
  parents-IsNonzero never (a ∷ []) = (never a a, tt)
  parents-IsNonzero never (a ∷ b ∷ rest) = (never a b, parents-IsNonzero never rest)

  pub root_fuel_one : (f : ℕ) (a : Hash) → root_fuel f (a ∷ []) ≡ a
  unfolding root_fuel
  root_fuel_one zero a = refl
  root_fuel_one (suc f) a = refl

  pub root_fuel_step :
      (f : ℕ) (xs : List Hash) → 1 < length xs → root_fuel (suc f) xs ≡ root_fuel f (parents xs)
  unfolding root_fuel
  root_fuel_step f xs h = rw (lt→leb-false 1 (length xs) h, root_fuel)

  parents-size : (xs : List Hash) → All (λ h. length h ≡ 32) (parents xs)
  unfolding parents double_sha
  parents-size [] = tt
  parents-size (a ∷ []) = ((p.sum256-IsHash _).0, tt)
  parents-size (a ∷ b ∷ rest) = ((p.sum256-IsHash _).0, parents-size rest)

  length-root_fuel :
      (f : ℕ) (xs : List Hash)
      → 0 < length xs
      → All (λ h. length h ≡ 32) xs
      → length (root_fuel f xs) ≡ 32
  length-root_fuel f [] h sized = absurd (omega arith)
  length-root_fuel zero (a ∷ xs) h sized = unfold root_fuel in sized.0
  length-root_fuel (suc f) (a ∷ []) h sized = unfold root_fuel in sized.0
  length-root_fuel (suc f) (a ∷ b ∷ rest) h sized =
      let above = parents (a ∷ b ∷ rest) in
      rw (root_fuel_step f (a ∷ b ∷ rest) (omega arith)) (
        length-root_fuel f above (omega (arith, length-parents (a ∷ b ∷ rest)))
          (parents-size (a ∷ b ∷ rest)))

  -- The root of hashes of 32 bytes has 32 bytes.
  pub length-merkle_root :
      (xs : List Hash) → 0 < length xs → All (λ h. length h ≡ 32) xs → length (merkle_root xs) ≡ 32
  unfolding merkle_root
  length-merkle_root xs = length-root_fuel (length xs) xs

  few : (xs : List Hash) (f g : ℕ) → length xs ≤ 1 → root_fuel f xs ≡ root_fuel g xs
  unfolding root_fuel
  few [] zero zero h = refl
  few [] zero (suc g) h = refl
  few [] (suc f) zero h = refl
  few [] (suc f) (suc g) h = refl
  few (a ∷ []) f g h = root_fuel_one f a ∙ sym (root_fuel_one g a)
  few (a ∷ b ∷ rest) f g h = absurd (omega arith)

  -- Fuel above the length changes nothing.
  root_fuel_enough :
      (f g : ℕ) (xs : List Hash) → length xs ≤ f → length xs ≤ g → root_fuel f xs ≡ root_fuel g xs
  root_fuel_enough f g [] h k = few [] f g (omega arith)
  root_fuel_enough f g (a ∷ []) h k = few (a ∷ []) f g (omega arith)
  root_fuel_enough zero g (a ∷ b ∷ rest) h k = absurd (omega arith)
  root_fuel_enough (suc f) zero (a ∷ b ∷ rest) h k = absurd (omega arith)
  root_fuel_enough (suc f) (suc g) (a ∷ b ∷ rest) h k =
      let xs = a ∷ b ∷ rest in
      let size = length-parents xs in
      root_fuel_step f xs (omega arith)
      ∙ root_fuel_enough f g (parents xs) (omega arith) (omega arith)
      ∙ sym (root_fuel_step g xs (omega arith))

  pub merkle_root_one : (a : Hash) → merkle_root (a ∷ []) ≡ a
  unfolding merkle_root
  merkle_root_one a = refl

  pub merkle_root_step :
      (xs : List Hash) → 1 < length xs → merkle_root xs ≡ merkle_root (parents xs)
  unfolding merkle_root
  merkle_root_step [] h = absurd (omega arith)
  merkle_root_step (a ∷ xs) h =
      let all = a ∷ xs in
      let size = length-parents all in
      root_fuel_step (length xs) all h
      ∙ root_fuel_enough (length xs) (length (parents all)) (parents all) (omega arith)
          (omega arith)
