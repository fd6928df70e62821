-- ===== src/Subtree/Totals.antt =====
-- The invariant of the running totals, the length and the capacity, over every sequence of calls.
use mathlib.Core.Path.{subst}
use mathlib.Core.Bool.{not}
use go_subtree.Prelude.{
  ℕ, zero, suc, ◌+◌, ◌%◌, ◌*◌, ◌^◌, ◌≤◌, ◌<◌, ◌≡◌, refl, arith, Bool-cases, inl, inr, false, List,
  [], ◌∷◌, ◌++◌, ℤ, pos, negsuc, ltz, ltb, leb, le→ltb-false, ◌==◌, length, length-append, get_or,
  take, drop, All,
}
use go_subtree.Errors.{ok, ok-injective, ok_if, panic-ne-ok, err-ne-ok}
use go_subtree.Hash.{Hash, coinbase_placeholder, Platform}
use go_subtree.Node.{Node, IsNode, u64}
use go_subtree.Powers.Log.{pow_pos}
use go_subtree.Merkle.{empty_node}
use go_subtree.Subtree.{
  Subtree, new_tree, append_node, push_node, is_full, add_subtree_node,
  add_subtree_node_without_lock, add_node, add_coinbase_node, add_conflicting_node, has_hash,
  is_listed, remove_node_at_index,
}

abbrev pub total : (Node → ℕ) → List Node → ℕ
total f [] = 0
total f (n ∷ ns) = f n + total f ns

abbrev pub fee_of : Node → ℕ
fee_of n = n.fee

abbrev pub size_of : Node → ℕ
size_of n = n.size_in_bytes

-- The totals are those of the nodes, on uint64; the nodes fit the tree and the slice.
pub record IsConsistent (s : Subtree) : Type 0 where
  pub fees : s.fees ≡ total fee_of s.nodes % u64
  pub size_in_bytes : s.size_in_bytes ≡ total size_of s.nodes % u64
  pub has_room : ltz s.tree_size (pos 1) ≡ false
  pub fits_tree : ltz s.tree_size (pos (length s.nodes)) ≡ false
  pub fits_slice : length s.nodes ≤ s.nodes_cap
  pub typed : All IsNode s.nodes

total-append : (f : Node → ℕ) (xs ys : List Node) → total f (xs ++ ys) ≡ total f xs + total f ys
total-append f [] ys = omega arith
total-append f (x ∷ xs) ys = omega (arith, total-append f xs ys)

-- The list without its element `i`.
abbrev pub without : ℕ → List Node → List Node
without i xs = take i xs ++ drop (suc i) xs

total-without :
    (f : Node → ℕ) (i : ℕ) (xs : List Node)
    → i < length xs
    → total f xs ≡ total f (without i xs) + f (get_or xs i empty_node)
total-without f i [] h = absurd (omega arith)
total-without f zero (x ∷ xs) h = omega arith
total-without f (suc i) (x ∷ xs) h = omega (arith, total-without f i xs (omega arith))

length-without : (i : ℕ) (xs : List Node) → i < length xs → length (without i xs) + 1 ≡ length xs
length-without i [] h = absurd (omega arith)
length-without zero (x ∷ xs) h = omega arith
length-without (suc i) (x ∷ xs) h = omega (arith, length-without i xs (omega arith))

pub typed-without :
    (i : ℕ) (xs : List Node) → All IsNode xs → i < length xs → All IsNode (without i xs)
typed-without i [] t h = absurd (omega arith)
typed-without zero (x ∷ xs) t h = t.1
typed-without (suc i) (x ∷ xs) t h = (t.0, typed-without i xs t.1 (omega arith))

typed_at :
    (i : ℕ) (xs : List Node) → All IsNode xs → i < length xs → IsNode (get_or xs i empty_node)
typed_at i [] t h = absurd (omega arith)
typed_at zero (x ∷ xs) t h = t.0
typed_at (suc i) (x ∷ xs) t h = typed_at i xs t.1 (omega arith)

All-append : (xs ys : List Node) → All IsNode xs → All IsNode ys → All IsNode (xs ++ ys)
All-append [] ys t u = u
All-append (x ∷ xs) ys t u = (t.0, All-append xs ys t.1 u)

ltz_down : (z : ℤ) (a b : ℕ) → a ≤ b → ltz z (pos b) ≡ false → ltz z (pos a) ≡ false
ltz_down (pos n) a b h e = ground arith
ltz_down (negsuc n) a b h e = e

abbrev pub coinbase : Node
coinbase = record { hash = coinbase_placeholder; fee = 0; size_in_bytes = 0 }

pub coinbase-IsNode : IsNode coinbase
coinbase-IsNode = record {
  hash = unfold coinbase_placeholder in omega arith;
  fee = omega arith;
  size_in_bytes = omega arith;
}

module _ (p : Platform) where
  fits_slice-append :
      (s : Subtree) (n : Node)
      → length s.nodes ≤ s.nodes_cap
      → length (append_node p s n).nodes ≤ (append_node p s n).nodes_cap
  unfolding append_node
  fits_slice-append s n h =
      ground
        (arith, length-append s.nodes (n ∷ []), p.need-le-grow s.nodes_cap (length s.nodes + 1))

  push_node-IsConsistent :
      (s : Subtree) (n : Node)
      → is_full s ≡ false
      → IsNode n
      → IsConsistent s
      → IsConsistent (push_node p s n)
  push_node-IsConsistent s n room t c =
      let room' : ltz s.tree_size (pos (length s.nodes + 1)) ≡ false = unfold is_full in room in
      record {
        fees =
            unfold push_node append_node in
            omega (arith, total-append fee_of s.nodes (n ∷ []), c.fees);
        size_in_bytes =
            unfold push_node append_node in
            omega (arith, total-append size_of s.nodes (n ∷ []), c.size_in_bytes);
        has_room = unfold push_node append_node in c.has_room;
        fits_tree = unfold push_node append_node in rw (length-append s.nodes (n ∷ [])) room';
        fits_slice = unfold push_node in fits_slice-append s n c.fits_slice;
        typed = unfold push_node append_node in All-append s.nodes (n ∷ []) c.typed (t, tt);
      }

  pub add_coinbase_node-IsConsistent :
      (s t : Subtree) → IsConsistent s → add_coinbase_node p s ≡ ok t → IsConsistent t
  unfolding add_coinbase_node append_node
  add_coinbase_node-IsConsistent s t c e =
      let (empty, done) = ok_if (not (length s.nodes == 0)) _ e in
      let none_yet : s.nodes ≡ [] = ground arith in
      subst IsConsistent (ok-injective done) (record {
        fees = rw none_yet;
        size_in_bytes = rw none_yet;
        has_room = c.has_room;
        fits_tree = rw none_yet c.has_room;
        fits_slice = fits_slice-append s coinbase c.fits_slice;
        typed = rw none_yet (coinbase-IsNode, tt);
      })

  pub add_subtree_node_without_lock-IsConsistent :
      (s t : Subtree) (n : Node)
      → IsNode n
      → IsConsistent s
      → add_subtree_node_without_lock p s n ≡ ok t
      → IsConsistent t
  unfolding add_subtree_node_without_lock
  add_subtree_node_without_lock-IsConsistent s t n typed c e =
      let (room, done) = ok_if (is_full s) _ e in
      subst IsConsistent (ok-injective done) (push_node-IsConsistent s n room typed c)

  pub add_subtree_node-IsConsistent :
      (s t : Subtree) (n : Node)
      → IsNode n
      → IsConsistent s
      → add_subtree_node p s n ≡ ok t
      → IsConsistent t
  unfolding add_subtree_node
  add_subtree_node-IsConsistent s t n typed c e =
      let (room, rest) = ok_if (is_full s) _ e in
      let (plain, done) = ok_if (p.equal n.hash coinbase_placeholder) _ rest in
      subst IsConsistent (ok-injective done) (push_node-IsConsistent s n room typed c)

  pub add_conflicting_node-IsConsistent :
      (s t : Subtree) (h : Hash)
      → IsConsistent s
      → add_conflicting_node p s h ≡ ok t
      → IsConsistent t
  unfolding add_conflicting_node
  add_conflicting_node-IsConsistent s t h c e =
      let (held, rest) = ok_if (not (has_hash p h s.nodes)) _ e in
      elim (Bool-cases (is_listed p h s.conflicting_nodes)) [
        | inl y ↦ subst IsConsistent (ok-injective (rw y at rest)) c
        | inr n ↦ subst IsConsistent (ok-injective (rw n at rest)) (record {
          fees = c.fees;
          size_in_bytes = c.size_in_bytes;
          has_room = c.has_room;
          fits_tree = c.fits_tree;
          fits_slice = c.fits_slice;
          typed = c.typed;
        })
      ]

  pub new_tree-IsConsistent : (h : ℤ) (t : Subtree) → new_tree p h ≡ ok t → IsConsistent t
  unfolding new_tree
  new_tree-IsConsistent (negsuc h) t e = absurd (err-ne-ok e)
  new_tree-IsConsistent (pos h) t e = elim (Bool-cases (ltb p.max_alloc (2 ^ h * 48))) [
    | inl y ↦ absurd (panic-ne-ok (rw y at e))
    | inr n ↦
        let positive = pow_pos h in
        subst IsConsistent (ok-injective (rw n at e)) (record {
          fees = refl;
          size_in_bytes = refl;
          has_room = le→ltb-false (2 ^ h) 1 (omega arith);
          fits_tree = le→ltb-false (2 ^ h) 0 (omega arith);
          fits_slice = omega arith;
          typed = tt;
        })
  ]

  pub add_node-IsConsistent :
      (s t : Subtree) (n : Node)
      → IsNode n
      → IsConsistent s
      → add_node p s n.hash n.fee n.size_in_bytes ≡ ok t
      → IsConsistent t
  unfolding add_node
  add_node-IsConsistent s t n typed c e =
      add_subtree_node-IsConsistent s t n typed c (unfold add_subtree_node in e)

pub remove_node_at_index-IsConsistent :
    (s t : Subtree) (i : ℤ) → IsConsistent s → remove_node_at_index s i ≡ ok t → IsConsistent t
unfolding remove_node_at_index
remove_node_at_index-IsConsistent s t (negsuc i) c e = absurd (panic-ne-ok e)
remove_node_at_index-IsConsistent s t (pos i) c e =
    let (inside, done) = ok_if (leb (length s.nodes) i) _ e in
    let below : i < length s.nodes = ground arith in
    let next : i + 1 ≡ suc i = omega arith in
    let node = typed_at i s.nodes c.typed below in
    subst IsConsistent (ok-injective done) (record {
      fees = rw next (omega (arith, total-without fee_of i s.nodes below, node.fee));
      size_in_bytes =
          rw next (omega (arith, total-without size_of i s.nodes below, node.size_in_bytes));
      has_room = c.has_room;
      fits_tree =
          rw next
            (ltz_down s.tree_size _ _ (omega (arith, length-without i s.nodes below)) c.fits_tree);
      fits_slice = rw next (omega (arith, length-without i s.nodes below));
      typed = rw next (typed-without i s.nodes c.typed below);
    })
