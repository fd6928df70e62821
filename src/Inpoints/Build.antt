-- ===== src/Inpoints/Build.antt =====
-- What `newSizedFromInputs` builds.
use mathlib.Core.List.{Perm, perm_append_comm}
use mathlib.Core.List.Perm
use go_subtree.Prelude.{
  ℕ, ◌+◌, ◌<◌, ◌≡◌, refl, sym, ap, arith, Bool-cases, inl, inr, some, List, [], ◌∷◌, ◌++◌,
  append_assoc, append-nil, length, length-append, All, IsDistinct, IsDistinct-concat,
}
use go_subtree.Errors.{ok}
use go_subtree.Hash.{Hash, hash_eq, hash_eq_iff}
use go_subtree.Bt.{Bt}
use go_subtree.Inpoints.{
  Inpoint, TxInpoints, append_all, new_sized_from_inputs, get_tx_inpoints, u32, zero_inpoints,
}
use go_subtree.Inpoints.Groups.{
  Group, keys, total, add_to, group_all, with_parent, ungroup, new, old, find,
}
use go_subtree.Inpoints.Packed.{IsPacked, keys-append, append_input-IsPacked}
use go_subtree.Inpoints.Query.{get_tx_inpoints-IsPacked}

total-add_to : (h : Hash) (v : ℕ) (gs : List Group) → total (add_to h v gs) ≡ total gs + 1
total-add_to h v [] = omega arith
total-add_to h v (g ∷ gs) = ground (arith, total-add_to h v gs, length-append g.1 (v ∷ []))

with_parent-append :
    (h : Hash) (xs ys : List ℕ) → with_parent h (xs ++ ys) ≡ with_parent h xs ++ with_parent h ys
with_parent-append h [] ys = refl
with_parent-append h (x ∷ xs) ys =
    ap (λ (r : List Inpoint). record { hash = h; index = x } ∷ r) (with_parent-append h xs ys)

ungroup-add_to :
    (h : Hash) (v : ℕ) (gs : List Group)
    → Perm (ungroup (add_to h v gs)) (ungroup gs ++ record { hash = h; index = v } ∷ [])
ungroup-add_to h v [] = Perm.refl _
ungroup-add_to h v (g ∷ gs) = elim (Bool-cases (hash_eq g.0 h)) [
  | inl y ↦
      let same : g.0 ≡ h = (hash_eq_iff g.0 h).0 y in
      let point : Inpoint = record { hash = h; index = v } in
      rw
        (
          y,
          same,
          with_parent-append h g.1 (v ∷ []),
          append_assoc (with_parent h g.1) (point ∷ []) (ungroup gs),
          append_assoc (with_parent h g.1) (ungroup gs) (point ∷ []),
        )
        (Perm.append_left (with_parent h g.1) (perm_append_comm (point ∷ []) (ungroup gs)))
  | inr n ↦
      rw (n, append_assoc (with_parent g.0 g.1) (ungroup gs) (record { hash = h; index = v } ∷ []))
        (Perm.append_left (with_parent g.0 g.1) (ungroup-add_to h v gs))
]

ungroup-group_all :
    (gs : List Group) (is : List Inpoint) → Perm (ungroup (group_all gs is)) (ungroup gs ++ is)
ungroup-group_all gs [] = rw append-nil (Perm.refl _)
ungroup-group_all gs (i ∷ is) = Perm.trans (ungroup-group_all (add_to i.hash i.index gs) is) (
    rw (sym (append_assoc (ungroup gs) (i ∷ []) is))
      (Perm.append_right is (ungroup-add_to i.hash i.index gs)))

-- No parent stands twice, and each has an index.
abbrev pub IsGrouped : List Group → Type 0
IsGrouped gs = IsDistinct (keys gs) × All (λ g. 0 < length g.1) gs

All-add_to :
    (h : Hash) (v : ℕ) (gs : List Group)
    → All (λ g. 0 < length g.1) gs
    → All (λ g. 0 < length g.1) (add_to h v gs)
All-add_to h v [] a = (omega arith, tt)
All-add_to h v (g ∷ gs) a = elim (Bool-cases (hash_eq g.0 h)) [
  | inl y ↦ rw y (omega (arith, length-append g.1 (v ∷ [])), a.1)
  | inr n ↦ rw n (a.0, All-add_to h v gs a.1)
]

IsDistinct-add_to :
    (h : Hash) (v : ℕ) (gs : List Group) → IsDistinct (keys gs) → IsDistinct (keys (add_to h v gs))
IsDistinct-add_to h v gs d = elim (find h gs) [
  | new e a f ↦ rw (f v, keys-append gs ((h, v ∷ []) ∷ [])) (IsDistinct-concat h (keys gs) a d)
  | old before vs after s e f ↦
      rw
        (
          f v,
          keys-append before ((h, vs ++ v ∷ []) ∷ after),
          ← keys-append before ((h, vs) ∷ after),
          ← s,
        )
        d
]

IsGrouped-group_all :
    (gs : List Group) (is : List Inpoint) → IsGrouped gs → IsGrouped (group_all gs is)
IsGrouped-group_all gs [] g = g
IsGrouped-group_all gs (i ∷ is) g =
    IsGrouped-group_all (add_to i.hash i.index gs) is
      (IsDistinct-add_to i.hash i.index gs g.0, All-add_to i.hash i.index gs g.1)

module _ (bt : Bt) where
  open bt use {Input, previous_tx_id, previous_tx_out_index}

  -- What the inputs spend, in their order.
  abbrev pub Spends : List Input → List Inpoint → Type 0
  Spends [] [] = Unit
  Spends (i ∷ is) (q ∷ qs) =
      (previous_tx_id i ≡ some q.hash) × (previous_tx_out_index i ≡ q.index) × Spends is qs
  Spends _ _ = ⊥

  append_all-IsPacked :
      (is : List Input) (qs : List Inpoint) (gs : List Group) (p : TxInpoints)
      → Spends is qs
      → IsPacked gs p
      → total gs + length qs < u32
      → (q : TxInpoints) × (append_all bt p is ≡ ok q) × IsPacked (group_all gs qs) q
  unfolding append_all
  append_all-IsPacked [] [] gs p s x low = (p, refl, x)
  append_all-IsPacked [] (q ∷ qs) gs p s x low = absurd s
  append_all-IsPacked (i ∷ is) [] gs p s x low = absurd s
  append_all-IsPacked (i ∷ is) (q ∷ qs) gs p (spent, index, s) x low =
      let (p', e, x') = append_input-IsPacked gs p q.hash q.index x (omega arith) in
      let (r, f, y) =
        append_all-IsPacked is qs (add_to q.hash q.index gs) p' s x'
          (omega (arith, total-add_to q.hash q.index gs)) in
      (r, rw (spent, append_all, index, e) f, y)

  build_lem :
      (is : List Input) (qs : List Inpoint)
      → Spends is qs
      → length qs < u32
      → (q : TxInpoints) × (new_sized_from_inputs bt is ≡ ok q) × IsPacked (group_all [] qs) q
  unfolding new_sized_from_inputs
  build_lem [] [] s low = (zero_inpoints, refl, record { parents = refl; words = refl })
  build_lem [] (q ∷ qs) s low = absurd s
  build_lem (i ∷ is) [] s low = absurd s
  build_lem (i ∷ is) (q ∷ qs) s low =
      append_all-IsPacked (i ∷ is) (q ∷ qs) [] _ s (record { parents = refl; words = refl })
        (omega arith)

  -- For inputs whose previous hashes are not nil, fewer than 2 ^ 32 of them, `newSizedFromInputs`
  -- returns inpoints that pack the inputs grouped by parent, in the order in which the parents first
  -- occur; no parent stands twice and none is without an index; and `GetTxInpoints` returns what the
  -- inputs spend, up to order.
  pub new_sized_from_inputs-IsPacked :
      (is : List Input) (qs : List Inpoint)
      → Spends is qs
      → length qs < u32
      → (p : TxInpoints) × (new_sized_from_inputs bt is ≡ ok p)
        × IsPacked (group_all [] qs) p
        × IsGrouped (group_all [] qs)
        × (points : List Inpoint) × (get_tx_inpoints p ≡ ok points)
        × Perm points qs
  new_sized_from_inputs-IsPacked is qs s low =
      let (p, e, x) = build_lem is qs s low in
      (
        p,
        e,
        x,
        IsGrouped-group_all [] qs (tt, tt),
        ungroup (group_all [] qs),
        (get_tx_inpoints-IsPacked (group_all [] qs) p x).1,
        ungroup-group_all [] qs,
      )
