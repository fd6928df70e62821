-- ===== src/Inpoints/Groups.antt =====
-- The abstract view of `TxInpoints`: each parent with its indexes, in the order of first use.

use mathlib.Core.Bool.{false≢true}
use go_subtree.Prelude.{
  ℕ, ◌+◌, ◌≡◌, ◌≢◌, refl, sym, ap, ◌∙◌, inl, inr, Bool-cases, none, some, List, [], ◌∷◌, ◌++◌,
  length, All, if◌then◌else◌,
}
use go_subtree.Hash.{Hash, hash_eq, hash_eq_iff}
use go_subtree.Inpoints.{Inpoint, index_of}

abbrev pub Group : Type 0
Group = Hash × List ℕ

abbrev pub keys : List Group → List Hash
keys [] = []
keys (g ∷ gs) = g.0 ∷ keys gs

-- The packed words of a list of groups.
abbrev pub packed : List Group → List ℕ
packed [] = []
packed (g ∷ gs) = length g.1 ∷ (g.1 ++ packed gs)

-- The number of indexes in all groups.
abbrev pub total : List Group → ℕ
total [] = 0
total (g ∷ gs) = length g.1 + total gs

-- One more inpoint: it joins the group of its parent, or opens one at the end.
abbrev pub add_to : Hash → ℕ → List Group → List Group
add_to h v [] = (h, v ∷ []) ∷ []
add_to h v (g ∷ gs) =
    let rest = add_to h v gs in if hash_eq g.0 h then (g.0, g.1 ++ v ∷ []) ∷ gs else g ∷ rest

abbrev pub group_all : List Group → List Inpoint → List Group
group_all gs [] = gs
group_all gs (i ∷ is) = group_all (add_to i.hash i.index gs) is

abbrev pub with_parent : Hash → List ℕ → List Inpoint
with_parent h [] = []
with_parent h (v ∷ vs) = record { hash = h; index = v } ∷ with_parent h vs

-- The groups as inpoints, one after another.
abbrev pub ungroup : List Group → List Inpoint
ungroup [] = []
ungroup (g ∷ gs) = with_parent g.0 g.1 ++ ungroup gs

-- Where a hash is no key, `slices.Index` does not find it and the inpoint opens a group; where it is
-- one, its group is found, at the index of its key, and grows.
pub data Found (h : Hash) (gs : List Group) : Type 0 where
  new :
      index_of h (keys gs) ≡ none
      → All (λ k. k ≢ h) (keys gs)
      → ((v : ℕ) → add_to h v gs ≡ gs ++ (h, v ∷ []) ∷ [])
      → Found h gs
  old :
      (before : List Group) (vs : List ℕ) (after : List Group)
      → gs ≡ before ++ (h, vs) ∷ after
      → index_of h (keys gs) ≡ some (length before)
      → ((v : ℕ) → add_to h v gs ≡ before ++ (h, vs ++ v ∷ []) ∷ after)
      → Found h gs

pub find : (h : Hash) (gs : List Group) → Found h gs
unfolding index_of
find h [] = new refl tt (λ v. refl)
find h ((k, vs) ∷ gs) = elim (Bool-cases (hash_eq k h)) [
  | inl y ↦
      let same : k ≡ h = (hash_eq_iff k h).0 y in
      old [] vs gs (ap (λ (j : Hash). (j, vs) ∷ gs) same) (rw (y, index_of) refl)
        (λ v. rw y (ap (λ (j : Hash). (j, vs ++ v ∷ []) ∷ gs) same))
  | inr n ↦ elim (find h gs) [
    | new e a f ↦
        new (rw (n, index_of, e) refl) (λ same. false≢true (sym n ∙ (hash_eq_iff k h).1 same), a)
          (λ v. rw n (ap (λ (r : List Group). (k, vs) ∷ r) (f v)))
    | old before ws after s e f ↦
        old ((k, vs) ∷ before) ws after (ap (λ (r : List Group). (k, vs) ∷ r) s)
          (rw (n, index_of, e) refl) (λ v. rw n (ap (λ (r : List Group). (k, vs) ∷ r) (f v)))
  ]
]
