-- ===== src/Subtree/Root/Cache.antt =====
-- What `RootHash` changes, and when its cache is right.
use mathlib.Core.Path.{subst}
use go_subtree.Prelude.{
  ◌≡◌, refl, sym, Bool-cases, inl, inr, Option, none, some, Option-cases, length, ◌==◌,
}
use go_subtree.Hash.{Hash, Platform}
use go_subtree.Subtree.{Subtree}
use go_subtree.Subtree.Totals.{IsConsistent}
use go_subtree.Subtree.Root.{root_hash, store_root}

module _ (p : Platform) where
  -- `RootHash` changes no field but the cache.
  pub root_hash_effect :
      (s : Subtree) → (r : Option Hash) × ((root_hash p s).1 ≡ record s { root_hash = r })
  unfolding root_hash
  root_hash_effect s = elim (Option-cases s.root_hash) [
    | inl e ↦ elim (Bool-cases (length s.nodes == 0)) [
      | inl y ↦ (none, rw (e, y))
      | inr n ↦ (p.new_hash (store_root p s.nodes), rw (e, n) refl)
    ]
    | inr (h, e) ↦ (some h, rw e)
  ]

  pub root_hash-IsConsistent : (s : Subtree) → IsConsistent s → IsConsistent (root_hash p s).1
  root_hash-IsConsistent s c =
      let (r, e) = root_hash_effect s in
      subst IsConsistent (sym e) (record {
        fees = c.fees;
        size_in_bytes = c.size_in_bytes;
        has_room = c.has_room;
        fits_tree = c.fits_tree;
        fits_slice = c.fits_slice;
        typed = c.typed;
      })
