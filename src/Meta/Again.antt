-- ===== src/Meta/Again.antt =====
-- Metadata that have been serialized and read back, serialized again.
use go_subtree.Prelude.{
  ◌-◌, ◌<◌, ◌≤◌, ◌≡◌, refl, arith, List, [], ◌∷◌, ◌++◌, some, length, length-append,
  get_elem?-middle, next_index, next_done, ne→==-false, replicate,
}
use go_subtree.Errors.{ok, err, cannot_serialize_subtree_not_set}
use go_subtree.Hash.{Bytes, Hash, Platform}
use go_subtree.Subtree.{Subtree, size}
use go_subtree.Inpoints.{TxInpoints, zero_inpoints}
use go_subtree.Inpoints.Groups.{Group}
use go_subtree.Inpoints.RoundTrip.{inpoints_read}
use go_subtree.Meta.{Meta, check_parents, serialize_meta, new_subtree_meta_from_bytes}
use go_subtree.Meta.RoundTrip.{
  IsMeta, all_read, meta_read, new_subtree_meta_from_bytes-serialize_meta,
}

check_parents_nil :
    (before after : List (List Group)) (done more : List TxInpoints)
    → 0 < length done
    → check_parents
        (length (before ++ [] ∷ after))
        (length done)
        (done ++ (all_read (before ++ [] ∷ after) ++ more))
      ≡ err cannot_serialize_subtree_not_set
unfolding check_parents
check_parents_nil [] after done more positive =
    rw
      (
        ne→==-false (length done) 0 (λ z. omega arith),
        check_parents,
        get_elem?-middle done (all_read after ++ more) (inpoints_read []),
      )
      refl
check_parents_nil ([] ∷ before) after done more positive =
    let rest : List TxInpoints = all_read (before ++ [] ∷ after) ++ more in
    rw
      (
        ne→==-false (length done) 0 (λ z. omega arith),
        check_parents,
        get_elem?-middle done rest (inpoints_read []),
      )
      refl
check_parents_nil ((g ∷ gs) ∷ before) after done more positive =
    let q = inpoints_read (g ∷ gs) in
    let rest : List TxInpoints = all_read (before ++ [] ∷ after) ++ more in
    rw
      (
        ne→==-false (length done) 0 (λ z. omega arith),
        check_parents,
        get_elem?-middle done rest q,
        next_index done q,
        next_done done rest q,
      )
      (check_parents_nil before after (done ++ q ∷ []) more
        (omega (arith, length-append done (q ∷ []))))

module _ (platform : Platform) where
  serialize_meta-all_read :
      (u : Subtree) (root : Hash) (first : List Group) (before after : List (List Group))
      (more : List TxInpoints)
      → length u.nodes ≡ length (first ∷ (before ++ [] ∷ after))
      → (serialize_meta platform (record {
        subtree = some u;
        tx_inpoints = all_read (first ∷ (before ++ [] ∷ after)) ++ more;
        root_hash = root;
      })).0
        ≡ err cannot_serialize_subtree_not_set
  unfolding serialize_meta check_parents
  serialize_meta-all_read u root first before after more e =
      rw (e, serialize_meta)
        (rw (check_parents_nil before after (inpoints_read first ∷ []) more (omega arith)) refl)

  -- Metadata whose inpoints pack groups for every node, no node but the first with a nil slice of
  -- parents and some node behind the first without a parent, on a subtree with a root of 32 bytes and
  -- fewer than 2 ^ 32 nodes; and a subtree `u` with as many nodes and room for them: `Serialize` gives
  -- bytes, and from these, whatever stands behind them, `NewSubtreeMetaFromBytes` on `u` makes
  -- metadata which `Serialize` refuses with the error of a subtree that is not set.
  pub serialize_meta-new_subtree_meta_from_bytes :
      (s u : Subtree) (root : Hash) (first : List Group) (before after : List (List Group))
      (m : Meta) (rest : Bytes)
      → IsMeta platform s root (first ∷ (before ++ [] ∷ after)) m
      → length u.nodes ≡ length s.nodes
      → length s.nodes ≤ size u
      → (b : Bytes) × (m' : Meta) × ((serialize_meta platform m).0 ≡ ok b)
        × (new_subtree_meta_from_bytes platform (some u) (b ++ rest) ≡ ok m')
        × ((serialize_meta platform m').0 ≡ err cannot_serialize_subtree_not_set)
  serialize_meta-new_subtree_meta_from_bytes s u root first before after m rest x same room =
      let gss : List (List Group) = first ∷ (before ++ [] ∷ after) in
      let more : List TxInpoints = replicate (size u - length gss) zero_inpoints in
      let (b, written, read) =
        new_subtree_meta_from_bytes-serialize_meta platform s u root gss m rest x room in
      let as_many : length u.nodes ≡ length gss = omega (arith, same, x.groups) in
      let refused = serialize_meta-all_read u root first before after more as_many in
      (b, meta_read u root gss, written, read, refused)
