-- ===== src/Subtree/Index/Tests.antt =====
-- A map for `GetMap`, a list of keys and values, and that it is lawful.
use mathlib.Core.Path.{subst}
use go_subtree.Prelude.{
  ℕ, sym, ◌≡◌, ◌≢◌, refl, Bool, true, false, Bool-cases, inl, inr, Option, none, some, List, [],
  ◌∷◌, length, if◌then◌else◌,
}
use go_subtree.Hash.{Hash, hash_eq, hash_eq_iff}
use go_subtree.Subtree.Index.Map.{TxMap, IsLawful}

abbrev Pairs : Type 0
Pairs = List (Hash × ℕ)

abbrev value_of : Hash → Pairs → Option ℕ
value_of h [] = none
value_of h ((k, v) ∷ ps) = if hash_eq h k then some v else value_of h ps

abbrev has_value : Option ℕ → Bool
has_value none = false
has_value (some v) = true

abbrev keys_of : Pairs → List Hash
keys_of [] = []
keys_of ((k, v) ∷ ps) = k ∷ keys_of ps

-- `old` is the value that the key has.
abbrev put_pair : Option ℕ → Hash → ℕ → Pairs → Bool × Pairs
put_pair (some old) h v ps = (false, ps)
put_pair none h v ps = (true, (h, v) ∷ ps)

abbrev list_map : TxMap
list_map = record {
  Entries = Pairs;
  new_map = λ n. [];
  put = λ h v ps. put_pair (value_of h ps) h v ps;
  get = value_of;
  exists = λ h ps. has_value (value_of h ps);
  entries_length = λ ps. length ps;
  keys = keys_of;
}

put_found :
    (h : Hash) (v : ℕ) (ps : Pairs) → (if hash_eq h h then some v else value_of h ps) ≡ some v
put_found h v ps = rw ((hash_eq_iff h h).1 refl) refl

put_not_found :
    (h k : Hash) (v : ℕ) (ps : Pairs)
    → h ≢ k
    → (if hash_eq h k then some v else value_of h ps) ≡ value_of h ps
put_not_found h k v ps e = elim (Bool-cases (hash_eq h k)) [
  | inl y ↦ absurd (e ((hash_eq_iff h k).0 y))
  | inr n ↦ rw n refl
]

put_other :
    (h k : Hash) (v : ℕ) (ps : Pairs)
    → h ≢ k
    → (old : Option ℕ) → value_of h (put_pair old k v ps).1 ≡ value_of h ps
put_other h k v ps e (some old) = refl
put_other h k v ps e none = put_not_found h k v ps e

put_new :
    (h : Hash) (v : ℕ) (ps : Pairs)
    → value_of h ps ≡ none
    → value_of h (put_pair (value_of h ps) h v ps).1 ≡ some v
put_new h v ps e =
    subst (λ old. value_of h (put_pair old h v ps).1 ≡ some v) (sym e) (put_found h v ps)

list_map-IsLawful : IsLawful list_map
list_map-IsLawful = record {
  get-new_map = λ h n. refl;
  get-put = put_new;
  get-put_other = λ h k v ps e. put_other h k v ps e (value_of k ps);
}
