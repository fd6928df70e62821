-- ===== src/Inpoints/Packed.antt =====
-- `appendInput` on the packed layout, against `add_to` on the groups.
use go_subtree.Prelude.{
  ℕ, ◌+◌, ◌%◌, ◌<◌, ◌≡◌, refl, sym, ap, ◌∙◌, arith, some, List, [], ◌∷◌, ◌++◌, append_assoc,
  append-nil, length, length-append, get_elem?-middle, set, set-append, ltb, false, le→ltb-false,
}
use go_subtree.Errors.{ok}
use go_subtree.Hash.{Hash}
use go_subtree.Reader.Laws.{take_exact, drop_exact}
use go_subtree.Inpoints.{TxInpoints, elements, word_at, walk, insert_word, append_input, u32}
use go_subtree.Inpoints.Groups.{Group, keys, packed, total, add_to, new, old, find}

-- The words and the parents are those of the groups.
pub record IsPacked (gs : List Group) (p : TxInpoints) : Type 0 where
  pub parents : elements p.parent_tx_hashes ≡ keys gs
  pub words : p.vout_idxs ≡ packed gs

pub word_at-middle : (xs ys : List ℕ) (y : ℕ) → word_at (xs ++ y ∷ ys) (length xs) ≡ ok y
unfolding word_at
word_at-middle xs ys y = rw (get_elem?-middle xs ys y, word_at) refl

-- One run, and what follows it.
pub run_step :
    (pre vs rest : List ℕ) → pre ++ length vs ∷ (vs ++ rest) ≡ (pre ++ length vs ∷ vs) ++ rest
run_step pre vs rest = sym (append_assoc pre (length vs ∷ vs) rest)

pub length_run : (pre vs : List ℕ) → length pre + (1 + length vs) ≡ length (pre ++ length vs ∷ vs)
length_run pre vs = omega (arith, length-append pre (length vs ∷ vs))

-- Stepping over the groups that are packed from `place` on.
pub walk-packed :
    (gs : List Group) (pre rest : List ℕ)
    → walk (length gs) (length pre) (pre ++ (packed gs ++ rest)) ≡ ok (length (pre ++ packed gs))
unfolding walk
walk-packed [] pre rest = rw append-nil refl
walk-packed (g ∷ gs) pre rest =
    let more : List ℕ = packed gs ++ rest in
    rw
      (
        append_assoc g.1 (packed gs) rest,
        word_at-middle pre (g.1 ++ more) (length g.1),
        run_step pre g.1 more,
        run_step pre g.1 (packed gs),
        length_run pre g.1,
      )
      (walk-packed gs (pre ++ length g.1 ∷ g.1) rest)

insert_word-packed :
    (pre vs rest : List ℕ) (v : ℕ)
    → length vs + 1 < u32
    → insert_word (pre ++ length vs ∷ (vs ++ rest)) (length pre) (length vs) v
      ≡ ok (pre ++ length (vs ++ v ∷ []) ∷ ((vs ++ v ∷ []) ++ rest))
unfolding insert_word
insert_word-packed pre vs rest v h =
    let run : List ℕ = pre ++ length vs ∷ vs in
    let place : length pre + 1 + length vs ≡ length run = omega (arith, length_run pre vs) in
    let inside : ltb (length (run ++ rest)) (length run) ≡ false =
      le→ltb-false _ _ (omega (arith, length-append run rest)) in
    let count : (length vs + 1) % u32 ≡ length (vs ++ v ∷ []) =
      omega (arith, length-append vs (v ∷ [])) in
    rw
      (
        run_step pre vs rest,
        place,
        inside,
        take_exact (length run) run rest refl,
        drop_exact (length run) run rest refl,
        count,
      )
      (ap (λ (words : List ℕ). ok words)
        (ap (λ (words : List ℕ). set words (length pre) (length (vs ++ v ∷ [])))
            (append_assoc pre (length vs ∷ vs) (v ∷ rest))
          ∙ set-append pre (vs ++ v ∷ rest) (length vs) (length (vs ++ v ∷ []))
          ∙ append_assoc pre (length (vs ++ v ∷ []) ∷ []) (vs ++ v ∷ rest)
          ∙ ap (λ (words : List ℕ). pre ++ length (vs ++ v ∷ []) ∷ words)
              (sym (append_assoc vs (v ∷ []) rest))))

pub packed-append : (xs ys : List Group) → packed (xs ++ ys) ≡ packed xs ++ packed ys
packed-append [] ys = refl
packed-append (g ∷ gs) ys =
    ap (λ (r : List ℕ). length g.1 ∷ r)
      (ap (◌++◌ g.1) (packed-append gs ys) ∙ sym (append_assoc g.1 (packed gs) (packed ys)))

pub keys-append : (xs ys : List Group) → keys (xs ++ ys) ≡ keys xs ++ keys ys
keys-append [] ys = refl
keys-append (g ∷ gs) ys = ap (λ (r : List Hash). g.0 ∷ r) (keys-append gs ys)

total-append : (xs ys : List Group) → total (xs ++ ys) ≡ total xs + total ys
total-append [] ys = omega arith
total-append (g ∷ gs) ys = omega (arith, total-append gs ys)

-- Let the number of inpoints stay below 2 ^ 32. Then `appendInput` succeeds on packed groups, and
-- packs the groups with the inpoint added.
pub append_input-IsPacked :
    (gs : List Group) (p : TxInpoints) (h : Hash) (v : ℕ)
    → IsPacked gs p
    → total gs + 1 < u32
    → (q : TxInpoints) × (append_input p h v ≡ ok q) × IsPacked (add_to h v gs) q
unfolding append_input
append_input-IsPacked gs p h v x low = elim (find h gs) [
  | new e a f ↦ (
    record p { parent_tx_hashes = some (keys gs ++ h ∷ []); vout_idxs = packed gs ++ 1 ∷ v ∷ [] },
    rw (x.parents, e, append_input, x.words, x.parents) refl,
    record {
      parents = sym (ap keys (f v) ∙ keys-append gs _);
      words = sym (ap packed (f v) ∙ packed-append gs _);
    },
  )
  | old before vs after s e f ↦
      let words : p.vout_idxs ≡ packed before ++ length vs ∷ (vs ++ packed after) =
        x.words ∙ ap packed s ∙ packed-append before ((h, vs) ∷ after) in
      let few : length vs + 1 < u32 =
        omega (arith, ap total s, total-append before ((h, vs) ∷ after)) in
      (
        record p {
          vout_idxs = packed before ++ length (vs ++ v ∷ []) ∷ ((vs ++ v ∷ []) ++ packed after);
        },
        rw
            (
              x.parents,
              e,
              append_input,
              words,
              walk-packed before [] (length vs ∷ (vs ++ packed after)),
              word_at-middle (packed before) (vs ++ packed after) (length vs),
              insert_word-packed (packed before) vs (packed after) v few,
            )
            refl,
        record {
          parents =
              x.parents
              ∙ ap keys s
              ∙ keys-append before _
              ∙ sym (ap keys (f v) ∙ keys-append before _);
          words = sym (ap packed (f v) ∙ packed-append before _);
        },
      )
]
