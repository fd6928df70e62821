-- ===== src/Inpoints/Tests.antt =====
-- Runs of the packed layout, on the sample transactions.
use mathlib.Core.List.{Perm}
use go_subtree.Prelude.{◌≡◌, refl, arith, none, some, List, [], ◌∷◌, ◌++◌, pos, negsuc}
use go_subtree.Errors.{ok, err, parent_tx_hashes_mismatch}
use go_subtree.Hash.{Bytes, Hash, hash_eq}
use go_subtree.Hash.Sample.{sample, digest, digest-IsHash}
use go_subtree.Bt.Sample.{sample_bt}
use go_subtree.Inpoints.{
  Inpoint, TxInpoints, new_tx_inpoints_from_packed, nr_inputs, append_input, index_of, walk,
  word_at, insert_word, get_tx_inpoints, serialize_inpoints, is_mismatch,
  new_tx_inpoints_from_reader, new_sized_from_inputs, get_parent_vouts_at_index,
}
use go_subtree.Inpoints.Groups.{Group, add_to, group_all, ungroup, total}
use go_subtree.Inpoints.Packed.{IsPacked, append_input-IsPacked}
use go_subtree.Inpoints.Query.{get_tx_inpoints-IsPacked, get_parent_vouts_at_index-IsPacked}
use go_subtree.Inpoints.Build.{IsGrouped, new_sized_from_inputs-IsPacked}
use go_subtree.Inpoints.RoundTrip.{
  IsWritable, inpoints_read, new_tx_inpoints_from_reader-serialize_inpoints,
}

abbrev one : Hash
one = digest (1 ∷ [])

abbrev two : Hash
two = digest (2 ∷ [])

abbrev two_groups : List Group
two_groups = (one, 3 ∷ []) ∷ (two, 0 ∷ []) ∷ []

abbrev two_parents : TxInpoints
two_parents = record {
  parent_tx_hashes = some (one ∷ two ∷ []);
  vout_idxs = 1 ∷ 3 ∷ 1 ∷ 0 ∷ [];
  subtree_index = pos 0;
}

two_parents-IsPacked : IsPacked two_groups two_parents
two_parents-IsPacked = record { parents = refl; words = refl }

-- The index joins the run of its parent, in front of the other run.
joined :
    append_input two_parents one 5 ≡ ok (record two_parents { vout_idxs = 2 ∷ 3 ∷ 5 ∷ 1 ∷ 0 ∷ [] })
unfolding append_input index_of walk word_at insert_word hash_eq
joined = refl

words_without_parents :
    serialize_inpoints (new_tx_inpoints_from_packed none (1 ∷ [])) ≡ err parent_tx_hashes_mismatch
unfolding serialize_inpoints is_mismatch new_tx_inpoints_from_packed
words_without_parents = refl

fewer_words : nr_inputs (new_tx_inpoints_from_packed (some (one ∷ two ∷ [])) []) ≡ negsuc 1
unfolding nr_inputs new_tx_inpoints_from_packed
fewer_words = refl

append_input-IsPacked_example :
    (q : TxInpoints) × (append_input two_parents one 5 ≡ ok q)
    × IsPacked (add_to one 5 two_groups) q
append_input-IsPacked_example =
    append_input-IsPacked two_groups two_parents one 5 two_parents-IsPacked (omega arith)

get_tx_inpoints-IsPacked_example :
    (nr_inputs two_parents ≡ pos (total two_groups))
    × (get_tx_inpoints two_parents ≡ ok (ungroup two_groups))
get_tx_inpoints-IsPacked_example =
    get_tx_inpoints-IsPacked two_groups two_parents two_parents-IsPacked

get_parent_vouts_at_index-IsPacked_example :
    get_parent_vouts_at_index two_parents (pos 1) ≡ ok (0 ∷ [])
get_parent_vouts_at_index-IsPacked_example =
    get_parent_vouts_at_index-IsPacked ((one, 3 ∷ []) ∷ []) (two, 0 ∷ []) [] two_parents
      two_parents-IsPacked

abbrev spent : List Inpoint
spent =
    record { hash = one; index = 3 }
    ∷ record { hash = two; index = 0 }
    ∷ record { hash = one; index = 5 }
    ∷ []

new_sized_from_inputs-IsPacked_example :
    (p : TxInpoints) × (new_sized_from_inputs sample_bt (sample_bt.inputs 7) ≡ ok p)
    × IsPacked (group_all [] spent) p
    × IsGrouped (group_all [] spent)
    × (points : List Inpoint) × (get_tx_inpoints p ≡ ok points)
    × Perm points spent
new_sized_from_inputs-IsPacked_example =
    new_sized_from_inputs-IsPacked sample_bt (sample_bt.inputs 7) spent
      (refl, refl, (refl, refl, (refl, refl, tt))) (omega arith)

two_groups-IsWritable : IsWritable sample two_groups
two_groups-IsWritable = record {
  parents = (digest-IsHash (1 ∷ []), (digest-IsHash (2 ∷ []), tt));
  words = (omega arith, (omega arith, (omega arith, (omega arith, tt))));
  few = omega arith;
  room = omega arith;
}

new_tx_inpoints_from_reader-serialize_inpoints_example :
    (b : Bytes) × (serialize_inpoints two_parents ≡ ok b)
    × (new_tx_inpoints_from_reader sample (b ++ 8 ∷ []) ≡ (ok (8 ∷ []), inpoints_read two_groups))
new_tx_inpoints_from_reader-serialize_inpoints_example =
    new_tx_inpoints_from_reader-serialize_inpoints sample two_groups two_parents (8 ∷ [])
      two_parents-IsPacked two_groups-IsWritable
