-- ===== src/Meta/RoundTrip.antt =====
-- Metadata read back from what `Meta.Serialize` has written.
use go_subtree.Prelude.{
  ℕ, suc, ◌-◌, ◌^◌, ◌≤◌, ◌<◌, ◌≡◌, refl, ap, ◌∙◌, arith, some, List, [], ◌∷◌, ◌++◌, append_assoc,
  length, length-append, get_elem?-middle, next_index, next_done, set, set-append, drop,
  drop-replicate, length-replicate, replicate, All, lt→ltb, ne→==-false,
}
use go_subtree.Errors.{ok, Stage}
use go_subtree.Hash.{Bytes, Hash, zero_hash, Platform}
use go_subtree.Subtree.{Subtree, size}
use go_subtree.Subtree.Root.{root_hash}
use go_subtree.Reader.{Progress, put_u32, read_u32}
use go_subtree.Reader.Laws.{read_full-append, read_u32-put, chain}
use go_subtree.Inpoints.{TxInpoints, zero_inpoints, new_tx_inpoints_from_reader}
use go_subtree.Inpoints.Groups.{Group}
use go_subtree.Inpoints.Packed.{IsPacked}
use go_subtree.Inpoints.RoundTrip.{IsWritable, written, written_lem, inpoints_read, read_written}
use go_subtree.Meta.{
  Meta, check_parents, inpoints_bytes, serialize_tx_inpoints, write_meta, serialize_meta, deref,
  read_meta_root, read_inpoints, fill_inpoints, deserialize_meta, meta_loaded,
  new_subtree_meta_from_bytes,
}

-- The inpoints pack the groups, one by one.
abbrev pub Packs : List (List Group) → List TxInpoints → Type 0
Packs [] [] = Unit
Packs (gs ∷ gss) (p ∷ ps) = IsPacked gs p × Packs gss ps
Packs _ _ = ⊥

abbrev pub HasParents : TxInpoints → Type 0
HasParents p = (hs : List Hash) × (p.parent_tx_hashes ≡ some hs)

-- Every node but the first has a slice of parents that is not nil.
abbrev pub HaveParents : List TxInpoints → Type 0
HaveParents [] = Unit
HaveParents (p ∷ ps) = All HasParents ps

abbrev pub all_written : List (List Group) → Bytes
all_written [] = []
all_written (gs ∷ gss) = written gs ++ all_written gss

abbrev pub all_read : List (List Group) → List TxInpoints
all_read [] = []
all_read (gs ∷ gss) = inpoints_read gs ∷ all_read gss

check_parents-HasParents :
    (qs done more : List TxInpoints)
    → 0 < length done
    → All HasParents qs
    → check_parents (length qs) (length done) (done ++ (qs ++ more)) ≡ ok tt
unfolding check_parents
check_parents-HasParents [] done more positive a = refl
check_parents-HasParents (q ∷ qs) done more positive a =
    rw
      (
        ne→==-false (length done) 0 (λ z. omega arith),
        check_parents,
        get_elem?-middle done (qs ++ more) q,
        a.0.1,
        next_index done q,
        next_done done (qs ++ more) q,
      )
      (check_parents-HasParents qs (done ++ q ∷ []) more
        (omega (arith, length-append done (q ∷ []))) a.1)

check_lem :
    (qs more : List TxInpoints) → HaveParents qs → check_parents (length qs) 0 (qs ++ more) ≡ ok tt
unfolding check_parents
check_lem [] more a = refl
check_lem (q ∷ qs) more a = check_parents-HasParents qs (q ∷ []) more (omega arith) a

module _ (platform : Platform) where
  inpoints_bytes-Packs :
      (gss : List (List Group)) (qs done more : List TxInpoints)
      → Packs gss qs
      → All (IsWritable platform) gss
      → inpoints_bytes (length gss) (length done) (done ++ (qs ++ more)) ≡ ok (all_written gss)
  unfolding inpoints_bytes
  inpoints_bytes-Packs [] [] done more x w = refl
  inpoints_bytes-Packs [] (q ∷ qs) done more x w = absurd x
  inpoints_bytes-Packs (gs ∷ gss) [] done more x w = absurd x
  inpoints_bytes-Packs (gs ∷ gss) (q ∷ qs) done more x w =
      let others : inpoints_bytes (length gss) (suc (length done)) (done ++ q ∷ (qs ++ more))
          ≡ ok (all_written gss) =
        rw (next_index done q, next_done done (qs ++ more) q)
          (inpoints_bytes-Packs gss qs (done ++ q ∷ []) more x.1 w.1) in
      rw
        (get_elem?-middle done (qs ++ more) q, inpoints_bytes, written_lem gs q x.0 w.0.few, others)
        refl

  read_one :
      (k i : ℕ) (input rest : Bytes) (ps : List TxInpoints) (p : TxInpoints)
      → new_tx_inpoints_from_reader platform input ≡ (ok rest, p)
      → i < length ps
      → read_inpoints platform (suc k) i input ps
        ≡ read_inpoints platform k (suc i) rest (set ps i p)
  unfolding read_inpoints
  read_one k i input rest ps p e inside =
      rw
        (
          ap (λ (x : Progress TxInpoints). x.0) e,
          read_inpoints,
          lt→ltb i (length ps) inside,
          ap (λ (x : Progress TxInpoints). x.1) e,
        )
        refl

  read_inpoints-all_written :
      (gss : List (List Group)) (done old : List TxInpoints) (rest : Bytes)
      → All (IsWritable platform) gss
      → length gss ≤ length old
      → read_inpoints platform (length gss) (length done) (all_written gss ++ rest) (done ++ old)
        ≡ (ok rest, done ++ (all_read gss ++ drop (length gss) old))
  unfolding read_inpoints
  read_inpoints-all_written [] done old rest w room = refl
  read_inpoints-all_written (gs ∷ gss) done [] rest w room = absurd (omega arith)
  read_inpoints-all_written (gs ∷ gss) done (o ∷ old) rest w room =
      let p = inpoints_read gs in
      let inside : length done < length (done ++ o ∷ old) =
        omega (arith, length-append done (o ∷ old)) in
      let here : new_tx_inpoints_from_reader platform ((written gs ++ all_written gss) ++ rest)
          ≡ (ok (all_written gss ++ rest), p) =
        rw (append_assoc (written gs) (all_written gss) rest)
          (read_written platform gs (all_written gss ++ rest) w.0) in
      read_one (length gss) (length done) _ (all_written gss ++ rest) (done ++ o ∷ old) p here
        inside
      ∙ rw (set-append done old o p, next_index done p)
          (read_inpoints-all_written gss (done ++ p ∷ []) old rest w.1 (omega arith)
            ∙ ap (λ (ps : List TxInpoints). (ok rest, ps))
                (append_assoc done (p ∷ []) (all_read gss ++ drop (length gss) old)))

-- Metadata on the nodes of a subtree: for every node its inpoints, which pack groups, and the first
-- entry alone may have a nil slice of parents.
pub record IsMeta (platform : Platform) (s : Subtree) (root : Hash) (gss : List (List Group))
    (m : Meta) : Type 0 where
  pub qs : List TxInpoints
  pub more : List TxInpoints
  pub has_subtree : m.subtree ≡ some s
  pub split : m.tx_inpoints ≡ qs ++ more
  pub as_many : length qs ≡ length s.nodes
  pub groups : length gss ≡ length s.nodes
  pub few : length s.nodes < 2 ^ 32
  pub packs : Packs gss qs
  pub writable : All (IsWritable platform) gss
  pub have_parents : HaveParents qs
  pub has_root : (root_hash platform s).0 ≡ some root
  pub root_size : length root ≡ 32

abbrev pub meta_written : Hash → List (List Group) → Bytes
meta_written root gss = root ++ (put_u32 (length gss) ++ all_written gss)

-- What a reader makes of the bytes, given the subtree `u`.
abbrev pub meta_read : Subtree → Hash → List (List Group) → Meta
meta_read u root gss = record {
  subtree = some u;
  tx_inpoints = all_read gss ++ replicate (size u - length gss) zero_inpoints;
  root_hash = root;
}

module _ (platform : Platform) where
  serialize_tx_inpoints-Packs :
      (gss : List (List Group)) (qs more : List TxInpoints)
      → Packs gss qs
      → All (IsWritable platform) gss
      → length gss < 2 ^ 32
      → serialize_tx_inpoints platform (length gss) (qs ++ more)
        ≡ ok (put_u32 (length gss) ++ all_written gss)
  unfolding serialize_tx_inpoints
  serialize_tx_inpoints-Packs gss qs more x w few =
      rw
        (
          serialize_tx_inpoints,
          platform.int_to_uint32_lem (length gss) few,
          inpoints_bytes-Packs platform gss qs [] more x w,
        )
        refl

  serialize_meta-IsMeta :
      (s : Subtree) (root : Hash) (gss : List (List Group)) (m : Meta)
      → IsMeta platform s root gss m
      → (serialize_meta platform m).0 ≡ ok (meta_written root gss)
  unfolding serialize_meta write_meta deref
  serialize_meta-IsMeta s root gss m x =
      let checked : check_parents (length s.nodes) 0 m.tx_inpoints ≡ ok tt =
        rw (x.split, ← x.as_many) (check_lem x.qs x.more x.have_parents) in
      let b : serialize_tx_inpoints platform (length s.nodes) m.tx_inpoints
          ≡ ok (put_u32 (length gss) ++ all_written gss) =
        rw (x.split, ← x.groups)
          (serialize_tx_inpoints-Packs gss x.qs x.more x.packs x.writable
            (omega (arith, x.groups, x.few))) in
      rw (x.has_subtree, serialize_meta, checked, x.has_root, b) refl

  fill_inpoints_lem :
      (u : Subtree) (root : Hash) (gss : List (List Group)) (old : List TxInpoints) (rest : Bytes)
      → All (IsWritable platform) gss
      → length gss ≤ size u
      → fill_inpoints platform
          (record { subtree = some u; tx_inpoints = old; root_hash = root })
          (length gss)
          (all_written gss ++ rest)
        ≡ (ok rest, meta_read u root gss)
  unfolding fill_inpoints
  fill_inpoints_lem u root gss old rest w room =
      let slots = replicate (size u) zero_inpoints in
      let filled : read_inpoints platform (length gss) 0 (all_written gss ++ rest) slots
          ≡ (ok rest, all_read gss ++ replicate (size u - length gss) zero_inpoints) =
        read_inpoints-all_written platform gss [] slots rest w
          (omega (arith, length-replicate (size u) zero_inpoints))
        ∙ ap (λ (ps : List TxInpoints). (ok rest, all_read gss ++ ps))
            (drop-replicate (length gss) (size u) zero_inpoints) in
      ap
        (λ (x : Progress (List TxInpoints)).
          (x.0, record { subtree = some u; tx_inpoints = x.1; root_hash = root }))
        filled

  read_root :
      (u : Subtree) (root old : Hash) (ps : List TxInpoints) (rest : Bytes)
      → length root ≡ 32
      → read_meta_root
          (record { subtree = some u; tx_inpoints = ps; root_hash = old })
          (root ++ rest)
        ≡ (ok rest, record { subtree = some u; tx_inpoints = ps; root_hash = root })
  unfolding read_meta_root
  read_root u root old ps rest e =
      rw (read_meta_root, read_full-append Stage.root_hash 32 root rest e) refl

  deserialize_meta-meta_written :
      (u : Subtree) (root old : Hash) (gss : List (List Group)) (ps : List TxInpoints)
      (rest : Bytes)
      → All (IsWritable platform) gss
      → length gss ≤ size u
      → length gss < 2 ^ 32
      → length root ≡ 32
      → deserialize_meta platform
          (record { subtree = some u; tx_inpoints = ps; root_hash = old })
          (meta_written root gss ++ rest)
        ≡ (ok rest, meta_read u root gss)
  unfolding deserialize_meta
  deserialize_meta-meta_written u root old gss ps rest w room few size_root =
      let m : Meta = record { subtree = some u; tx_inpoints = ps; root_hash = root } in
      rw
        (
          append_assoc root (put_u32 (length gss) ++ all_written gss) rest,
          append_assoc (put_u32 (length gss)) (all_written gss) rest,
        )
        (chain (λ (q : Meta). read_u32 Stage.num_inpoints (fill_inpoints platform q) q)
          (read_root u root old ps (put_u32 (length gss) ++ (all_written gss ++ rest)) size_root)
          (read_u32-put Stage.num_inpoints (fill_inpoints platform m) m (length gss)
              (all_written gss ++ rest) few
            ∙ fill_inpoints_lem u root gss ps rest w room))

  -- Metadata whose inpoints pack groups for every node, no node but the first with a nil slice of
  -- parents, on a subtree with a root of 32 bytes and fewer than 2^32 nodes; and a subtree `u` with
  -- room for as many nodes: `Serialize` gives bytes, and from these, whatever stands behind them,
  -- `NewSubtreeMetaFromBytes` on `u` restores the root and, for every node, the parents and the
  -- words of its inpoints, a slice of parents that was empty coming back as nil. The entries behind
  -- them are zero.
  pub new_subtree_meta_from_bytes-serialize_meta :
      (s u : Subtree) (root : Hash) (gss : List (List Group)) (m : Meta) (rest : Bytes)
      → IsMeta platform s root gss m
      → length s.nodes ≤ size u
      → (b : Bytes) × ((serialize_meta platform m).0 ≡ ok b)
        × (new_subtree_meta_from_bytes platform (some u) (b ++ rest) ≡ ok (meta_read u root gss))
  unfolding new_subtree_meta_from_bytes meta_loaded
  new_subtree_meta_from_bytes-serialize_meta s u root gss m rest x room = (
    meta_written root gss,
    serialize_meta-IsMeta s root gss m x,
    ap meta_loaded (
        deserialize_meta-meta_written u root zero_hash gss [] rest x.writable
          (omega (arith, x.groups, room)) (omega (arith, x.groups, x.few)) x.root_size),
  )
