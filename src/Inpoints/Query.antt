-- ===== src/Inpoints/Query.antt =====
-- What the accessors return on a packed layout.
use go_subtree.Prelude.{
  ℕ, suc, ◌+◌, ◌-◌, ◌<◌, ◌≡◌, refl, sym, ◌∙◌, arith, List, [], ◌∷◌, ◌++◌, append_assoc, length,
  length-append, ltb, false, true, le→ltb-false, lt→ltb, pos, ==→eq, Bool-cases, inl, inr, ◌==◌,
}
use go_subtree.Errors.{ok}
use go_subtree.Hash.{Hash}
use go_subtree.Reader.Laws.{take_exact, drop_exact}
use go_subtree.Inpoints.{
  TxInpoints, elements, slice, points, collect, nr_inputs, get_tx_inpoints, vout_slice_for_parent,
  get_parent_vouts_at_index,
}
use go_subtree.Inpoints.Groups.{Group, keys, packed, total, with_parent, ungroup}
use go_subtree.Inpoints.Packed.{
  IsPacked, word_at-middle, run_step, length_run, walk-packed, packed-append,
}

length-keys :
    (before : List Group) (g : Group) (after : List Group)
    → length before < length (keys (before ++ g ∷ after))
length-keys [] g after = omega arith
length-keys (b ∷ before) g after = omega (arith, length-keys before g after)

points-run :
    (h : Hash) (vs pre rest : List ℕ)
    → points h (length vs) (length pre) (pre ++ (vs ++ rest)) ≡ ok (with_parent h vs)
unfolding points
points-run h [] pre rest = refl
points-run h (v ∷ vs) pre rest =
    let next : suc (length pre) ≡ length (pre ++ v ∷ []) =
      omega (arith, length-append pre (v ∷ [])) in
    rw
      (
        word_at-middle pre (vs ++ rest) v,
        next,
        sym (append_assoc pre (v ∷ []) (vs ++ rest)),
        points-run h vs (pre ++ v ∷ []) rest,
      )
      refl

collect-packed :
    (gs : List Group) (pre : List ℕ)
    → collect (keys gs) (length pre) (pre ++ packed gs) ≡ ok (ungroup gs)
unfolding collect
collect-packed [] pre = refl
collect-packed (g ∷ gs) pre =
    let counted : pre ++ length g.1 ∷ (g.1 ++ packed gs)
        ≡ (pre ++ length g.1 ∷ []) ++ (g.1 ++ packed gs) =
      sym (append_assoc pre (length g.1 ∷ []) (g.1 ++ packed gs)) in
    let one : length pre + 1 ≡ length (pre ++ length g.1 ∷ []) =
      omega (arith, length-append pre (length g.1 ∷ [])) in
    let here : points g.0 (length g.1) (length pre + 1) (pre ++ length g.1 ∷ (g.1 ++ packed gs))
        ≡ ok (with_parent g.0 g.1) =
      rw (counted, one) (points-run g.0 g.1 (pre ++ length g.1 ∷ []) (packed gs)) in
    let there : collect (keys gs) (length pre + (1 + length g.1))
          (pre ++ length g.1 ∷ (g.1 ++ packed gs))
        ≡ ok (ungroup gs) =
      rw (run_step pre g.1 (packed gs), length_run pre g.1)
        (collect-packed gs (pre ++ length g.1 ∷ g.1)) in
    rw (word_at-middle pre (g.1 ++ packed gs) (length g.1), here, there) refl

pub length-packed : (gs : List Group) → length (packed gs) ≡ length (keys gs) + total gs
length-packed [] = omega arith
length-packed (g ∷ gs) = omega (arith, length-append g.1 (packed gs), length-packed gs)

total_none : (gs : List Group) → length (keys gs) ≡ 0 → total gs ≡ 0
total_none [] e = refl
total_none (g ∷ gs) e = absurd (omega arith)

nr_inputs-IsPacked :
    (gs : List Group) (p : TxInpoints) → IsPacked gs p → nr_inputs p ≡ pos (total gs)
unfolding nr_inputs
nr_inputs-IsPacked gs p x =
    let words = length-packed gs in
    rw (x.parents, x.words, words)
      (elim (Bool-cases (length (keys gs) == 0)) [
        | inl y ↦ let none : total gs ≡ 0 = total_none gs (==→eq _ _ y) in rw (y, none) refl
        | inr n ↦
            let rest : length (keys gs) + total gs - length (keys gs) ≡ total gs = omega arith in
            rw
              (n, le→ltb-false (length (keys gs) + total gs) (length (keys gs)) (omega arith), rest)
              refl
      ])

-- On packed groups the number of inputs is that of all indexes, and `GetTxInpoints` returns each
-- index with its parent, group after group.
pub get_tx_inpoints-IsPacked :
    (gs : List Group) (p : TxInpoints)
    → IsPacked gs p
    → (nr_inputs p ≡ pos (total gs)) × (get_tx_inpoints p ≡ ok (ungroup gs))
unfolding get_tx_inpoints
get_tx_inpoints-IsPacked gs p x =
    let count = nr_inputs-IsPacked gs p x in
    (count, rw (count, get_tx_inpoints, x.parents, x.words) (collect-packed gs []))

slice-run :
    (pre vs rest : List ℕ)
    → slice (pre ++ length vs ∷ (vs ++ rest)) (length pre + 1) (length pre + 1 + length vs) ≡ ok vs
unfolding slice
slice-run pre vs rest =
    let start : List ℕ = pre ++ length vs ∷ [] in
    let counted : pre ++ length vs ∷ (vs ++ rest) ≡ start ++ (vs ++ rest) =
      sym (append_assoc pre (length vs ∷ []) (vs ++ rest)) in
    let low : length pre + 1 ≡ length start = omega (arith, length-append pre (length vs ∷ [])) in
    let size : length start + length vs - length start ≡ length vs = omega arith in
    let inside : ltb (length (start ++ (vs ++ rest))) (length start + length vs) ≡ false =
      le→ltb-false _ _ (omega (arith, length-append start (vs ++ rest), length-append vs rest)) in
    rw
      (
        counted,
        low,
        inside,
        size,
        drop_exact (length start) start (vs ++ rest) refl,
        take_exact (length vs) vs rest refl,
      )
      refl

-- On packed groups `GetParentVoutsAtIndex` returns the indexes of the group at that place.
pub get_parent_vouts_at_index-IsPacked :
    (before : List Group) (g : Group) (after : List Group) (p : TxInpoints)
    → IsPacked (before ++ g ∷ after) p
    → get_parent_vouts_at_index p (pos (length before)) ≡ ok g.1
unfolding get_parent_vouts_at_index vout_slice_for_parent
get_parent_vouts_at_index-IsPacked before g after p x =
    let words : p.vout_idxs ≡ packed before ++ length g.1 ∷ (g.1 ++ packed after) =
      x.words ∙ packed-append before (g ∷ after) in
    let inside : ltb (length before) (length (elements p.parent_tx_hashes)) ≡ true =
      lt→ltb _ _ (rw x.parents (omega (arith, length-keys before g after))) in
    rw
      (
        inside,
        words,
        walk-packed before [] (length g.1 ∷ (g.1 ++ packed after)),
        word_at-middle (packed before) (g.1 ++ packed after) (length g.1),
      )
      (slice-run (packed before) g.1 (packed after))
