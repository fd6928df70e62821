-- ===== src/Inpoints/RoundTrip.antt =====
-- `TxInpoints` read back from what `Serialize` has written.
use go_subtree.Prelude.{
  ℕ, ◌-◌, ◌*◌, ◌≤◌, ◌<◌, ◌≡◌, refl, sym, ap, ◌∙◌, arith, Option, none, some, List, [], ◌∷◌, ◌++◌,
  append_assoc, append-nil, length, length-replicate, replicate, All, pos, false, le→ltb-false,
  ne→==-false,
}
use go_subtree.Errors.{ok, Stage}
use go_subtree.Hash.{Bytes, Hash, IsHash, zero_hash, Platform}
use go_subtree.Reader.{put_u32, hashes_bytes}
use go_subtree.Reader.Laws.{read_u32-put, read_hashes-hashes_bytes, chain}
use go_subtree.Inpoints.{
  TxInpoints, elements, zero_inpoints, u32, len32, words_bytes, is_mismatch, serialize_inpoints,
  read_words, read_runs, fill_vouts, fill_parents, deserialize_inpoints,
  new_tx_inpoints_from_reader,
}
use go_subtree.Inpoints.Groups.{Group, keys, packed}
use go_subtree.Inpoints.Packed.{IsPacked}
use go_subtree.Inpoints.Query.{length-packed}

-- What Go's types say of the groups, and room in memory for the parents.
pub record IsWritable (platform : Platform) (gs : List Group) : Type 0 where
  pub parents : All IsHash (keys gs)
  pub words : All (λ w. w < u32) (packed gs)
  pub few : length (keys gs) < u32
  pub room : length (keys gs) * 32 ≤ platform.max_alloc

pub words_bytes-append :
    (xs ys : List ℕ) → words_bytes (xs ++ ys) ≡ words_bytes xs ++ words_bytes ys
unfolding words_bytes
words_bytes-append [] ys = refl
words_bytes-append (x ∷ xs) ys =
    ap (◌++◌ (put_u32 x)) (words_bytes-append xs ys)
    ∙ sym (append_assoc (put_u32 x) (words_bytes xs) (words_bytes ys))

All-split :
    (xs ys : List ℕ) → All (λ w. w < u32) (xs ++ ys) → All (λ w. w < u32) xs × All (λ w. w < u32) ys
All-split [] ys a = (tt, a)
All-split (x ∷ xs) ys a = let (l, r) = All-split xs ys a.1 in ((a.0, l), r)

read_words-words_bytes :
    (vs done : List ℕ) (rest : Bytes)
    → All (λ w. w < u32) vs
    → read_words (length vs) done (words_bytes vs ++ rest) ≡ (ok rest, done ++ vs)
unfolding read_words words_bytes
read_words-words_bytes [] done rest a = rw append-nil refl
read_words-words_bytes (v ∷ vs) done rest a = rw (append_assoc (put_u32 v) (words_bytes vs) rest) (
    read_u32-put Stage.parent_index _ done v (words_bytes vs ++ rest) a.0
    ∙ rw (sym (append_assoc done (v ∷ []) vs))
        (read_words-words_bytes vs (done ++ v ∷ []) rest a.1))

read_runs-packed :
    (gs : List Group) (done : List ℕ) (rest : Bytes)
    → All (λ w. w < u32) (packed gs)
    → read_runs (length (keys gs)) done (words_bytes (packed gs) ++ rest)
      ≡ (ok rest, done ++ packed gs)
unfolding read_runs words_bytes
read_runs-packed [] done rest a = rw append-nil refl
read_runs-packed (g ∷ gs) done rest a =
    let (here, there) = All-split g.1 (packed gs) a.1 in
    let start : List ℕ = done ++ length g.1 ∷ [] in
    let more : Bytes = words_bytes (packed gs) ++ rest in
    let run : (start ++ g.1) ++ packed gs ≡ done ++ length g.1 ∷ (g.1 ++ packed gs) =
      append_assoc start g.1 (packed gs) ∙ append_assoc done (length g.1 ∷ []) (g.1 ++ packed gs) in
    rw (append_assoc (put_u32 (length g.1)) (words_bytes (g.1 ++ packed gs)) rest) (
      read_u32-put Stage.num_indexes _ done (length g.1) (words_bytes (g.1 ++ packed gs) ++ rest)
        a.0
      ∙ rw
          (
            words_bytes-append g.1 (packed gs),
            append_assoc (words_bytes g.1) (words_bytes (packed gs)) rest,
          )
          (chain (read_runs (length (keys gs))) (read_words-words_bytes g.1 start more here)
            (rw (← run) (read_runs-packed gs (start ++ g.1) rest there))))

len32_small : (o : Option (List Hash)) → length (elements o) < u32 → len32 o ≡ length (elements o)
unfolding len32
len32_small none h = refl
len32_small (some hs) h = rw (le→ltb-false (u32 - 1) (length hs) (omega arith)) refl

no_mismatch : (a b : ℕ) → a ≤ b → (a ≡ 0 → b ≡ 0) → is_mismatch a b ≡ false
unfolding is_mismatch
no_mismatch a b h z = ground arith

packed_none : (gs : List Group) → length (keys gs) ≡ 0 → length (packed gs) ≡ 0
packed_none [] e = refl
packed_none (g ∷ gs) e = absurd (omega arith)

-- The bytes that packed groups serialize to.
abbrev pub written : List Group → Bytes
written gs = put_u32 (length (keys gs)) ++ (hashes_bytes (keys gs) ++ words_bytes (packed gs))

pub written_lem :
    (gs : List Group) (p : TxInpoints)
    → IsPacked gs p
    → length (keys gs) < u32
    → serialize_inpoints p ≡ ok (written gs)
unfolding serialize_inpoints
written_lem gs p x few =
    let count : len32 p.parent_tx_hashes ≡ length (keys gs) =
      len32_small p.parent_tx_hashes (rw x.parents few)
      ∙ ap (λ (hs : List Hash). length hs) x.parents in
    rw
      (
        x.parents,
        x.words,
        count,
        no_mismatch (length (keys gs)) (length (packed gs)) (omega (arith, length-packed gs))
            (packed_none gs),
      )
      refl

-- What a reader makes of the groups: a nil slice of parents where there are none.
abbrev pub parents_read : List Group → Option (List Hash)
parents_read [] = none
parents_read (g ∷ gs) = some (keys (g ∷ gs))

abbrev pub inpoints_read : List Group → TxInpoints
inpoints_read gs = record {
  parent_tx_hashes = parents_read gs;
  vout_idxs = packed gs;
  subtree_index = pos 0;
}

fill_vouts_lem :
    (gs : List Group) (p : TxInpoints) (rest : Bytes)
    → All (λ w. w < u32) (packed gs)
    → fill_vouts (length (keys gs)) p (words_bytes (packed gs) ++ rest)
      ≡ (ok rest, record p { vout_idxs = packed gs })
unfolding fill_vouts
fill_vouts_lem gs p rest a = rw (read_runs-packed gs [] rest a) refl

module _ (platform : Platform) where
  fill_some :
      (gs : List Group) (rest : Bytes)
      → 0 < length (keys gs)
      → IsWritable platform gs
      → fill_parents platform zero_inpoints
          (length (keys gs))
          (hashes_bytes (keys gs) ++ (words_bytes (packed gs) ++ rest))
        ≡ (
          ok rest,
          record {
            parent_tx_hashes = some (keys gs);
            vout_idxs = packed gs;
            subtree_index = pos 0;
          },
        )
  unfolding fill_parents
  fill_some gs rest positive w =
      let n = length (keys gs) in
      let more : Bytes = words_bytes (packed gs) ++ rest in
      let hashes =
        read_hashes-hashes_bytes Stage.parent_hash (keys gs) [] (replicate n zero_hash) more
          w.parents (length-replicate n zero_hash) in
      rw
        (
          ne→==-false n 0 (λ z. omega arith),
          le→ltb-false platform.max_alloc (n * 32) w.room,
          hashes,
        )
        (chain (fill_vouts n) refl (
          fill_vouts_lem gs
            (record { parent_tx_hashes = some (keys gs); vout_idxs = []; subtree_index = pos 0 })
            rest w.words))

  fill_parents_lem :
      (gs : List Group) (rest : Bytes)
      → IsWritable platform gs
      → fill_parents platform zero_inpoints
          (length (keys gs))
          (hashes_bytes (keys gs) ++ (words_bytes (packed gs) ++ rest))
        ≡ (ok rest, inpoints_read gs)
  unfolding fill_parents words_bytes hashes_bytes
  fill_parents_lem [] rest w = refl
  fill_parents_lem (g ∷ gs) rest w = fill_some (g ∷ gs) rest (omega arith) w

  pub read_written :
      (gs : List Group) (rest : Bytes)
      → IsWritable platform gs
      → new_tx_inpoints_from_reader platform (written gs ++ rest) ≡ (ok rest, inpoints_read gs)
  unfolding new_tx_inpoints_from_reader deserialize_inpoints
  read_written gs rest w =
      let parts : Bytes = hashes_bytes (keys gs) ++ words_bytes (packed gs) in
      rw (append_assoc (put_u32 (length (keys gs))) parts rest) (
        read_u32-put Stage.num_parents (fill_parents platform zero_inpoints) zero_inpoints
          (length (keys gs)) (parts ++ rest) w.few
        ∙ rw (append_assoc (hashes_bytes (keys gs)) (words_bytes (packed gs)) rest)
            (fill_parents_lem gs rest w))

  -- Packed inpoints, with hashes and words as Go's types have them and with parents that fit in
  -- memory, serialize to bytes from which the reader restores the parents and the words, whatever
  -- bytes stand behind; a slice of parents that was empty comes back as nil.
  pub new_tx_inpoints_from_reader-serialize_inpoints :
      (gs : List Group) (p : TxInpoints) (rest : Bytes)
      → IsPacked gs p
      → IsWritable platform gs
      → (b : Bytes) × (serialize_inpoints p ≡ ok b)
        × (new_tx_inpoints_from_reader platform (b ++ rest) ≡ (ok rest, inpoints_read gs))
  new_tx_inpoints_from_reader-serialize_inpoints gs p rest x w =
      (written gs, written_lem gs p x w.few, read_written gs rest w)
