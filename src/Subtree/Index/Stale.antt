-- ===== src/Subtree/Index/Stale.antt =====
-- `RemoveNodeAtIndex` deletes the removed hash from the index map and leaves the indices of the
-- nodes behind it as they were.
use mathlib.Core.Path.{subst}
use go_subtree.Prelude.{
  ℕ, zero, suc, ◌+◌, ◌≤◌, ◌<◌, ◌≡◌, ◌≢◌, refl, ap, ◌∙◌, arith, some, List, [], ◌∷◌, ◌++◌, length,
  pos, leb, get_or, get_elem?, get_elem?_removed, get_elem?_past, take, drop, false,
}
use go_subtree.Errors.{ok, panic, ok_if, ok-injective}
use go_subtree.Hash.{Hash, hash_eq, hash_eq_iff}
use go_subtree.Node.{Node}
use go_subtree.Merkle.{empty_node}
use go_subtree.Subtree.{Subtree, IndexMap, lookup, delete, remove_node_at_index}
use go_subtree.Subtree.Index.{node_index, ensure_index, get_node, fetch, found_index, node_at}
use go_subtree.Subtree.Index.Laws.{lookup-delete, node_index_lem, get_node_lem, node_at_past}

under : (a i : ℕ) → leb a i ≡ false → i < a
under a i h = ground arith

-- A removal that succeeds removed a node of the list and deleted its hash from the map.
removed_parts :
    (s t : Subtree) (m : IndexMap) (i : ℕ)
    → s.node_index ≡ some m
    → remove_node_at_index s (pos i) ≡ ok t
    → (i < length s.nodes)
      × (t.nodes ≡ take i s.nodes ++ drop (suc i) s.nodes)
      × (t.node_index ≡ some (delete (get_or s.nodes i empty_node).hash m))
unfolding remove_node_at_index
removed_parts s t m i e r =
    let (inside, done) = ok_if (leb (length s.nodes) i) _ r in
    let next : i + 1 ≡ suc i = omega arith in
    (
      under (length s.nodes) i inside,
      subst (λ (x : Subtree). x.nodes ≡ take i s.nodes ++ drop (suc i) s.nodes) (ok-injective done)
          (rw next refl),
      subst (λ (x : Subtree). x.node_index ≡ some (delete (get_or s.nodes i empty_node).hash m))
          (ok-injective done) (rw e refl),
    )

found_index-some : (i : ℕ) → found_index (some i) ≡ pos i
unfolding found_index
found_index-some i = refl

fetch_found : (i : ℕ) (ns : List Node) → fetch (found_index (some i)) ns ≡ node_at ns i
unfolding fetch found_index
fetch_found i ns = refl

hash_eq-false : (a b : Hash) → a ≢ b → hash_eq a b ≡ false
hash_eq-false a b h = ground (arith, hash_eq_iff a b)

have_map : (t : Subtree) (m : IndexMap) → t.node_index ≡ some m → ensure_index t ≡ t
unfolding ensure_index
have_map t m e = rw e

length_removed :
    (i : ℕ) (xs : List Node)
    → i < length xs
    → suc (length (take i xs ++ drop (suc i) xs)) ≡ length xs
length_removed i [] h = absurd (omega arith)
length_removed zero (x ∷ xs) h = refl
length_removed (suc i) (x ∷ xs) h = ap suc (length_removed i xs (omega arith))

-- Let the map say that hash `h` stands at `k + 1`, and let a call remove a node at `i ≤ k` that has
-- another hash. Then `NodeIndex` still answers `k + 1` for `h`, while the node that stood there
-- stands at `k`; and where that was the last node, `GetNode` panics on `h`.
pub remove_node_at_index_stale :
    (s t : Subtree) (m : IndexMap) (i k : ℕ) (h : Hash)
    → s.node_index ≡ some m
    → lookup h m ≡ some (suc k)
    → i ≤ k
    → (get_or s.nodes i empty_node).hash ≢ h
    → remove_node_at_index s (pos i) ≡ ok t
    → ((node_index t h).0 ≡ pos (suc k))
      × (get_elem? t.nodes k ≡ get_elem? s.nodes (suc k))
      × (length s.nodes ≡ suc (suc k) → (get_node t h).0 ≡ panic)
remove_node_at_index_stale s t m i k h e l low other r =
    let (inside, nodes, table) = removed_parts s t m i e r in
    let removed = (get_or s.nodes i empty_node).hash in
    let kept : lookup h (delete removed m) ≡ some (suc k) =
      rw (lookup-delete removed h m, hash_eq-false removed h other) l in
    let built : (ensure_index t).node_index ≡ some (delete removed m) =
      rw (have_map t (delete removed m) table) table in
    (
      node_index_lem t h (delete removed m) built ∙ ap found_index kept ∙ found_index-some (suc k),
      ap (λ ns. get_elem? ns k) nodes ∙ get_elem?_removed i k s.nodes low,
      λ last.
          let size : suc (length t.nodes) ≡ length s.nodes =
            rw nodes (length_removed i s.nodes inside) in
          get_node_lem t h (delete removed m) built
          ∙ ap (λ (x : Subtree). fetch (found_index (lookup h (delete removed m))) x.nodes)
              (have_map t (delete removed m) table)
          ∙ ap (λ o. fetch (found_index o) t.nodes) kept
          ∙ fetch_found (suc k) t.nodes
          ∙ node_at_past t.nodes (suc k) (get_elem?_past t.nodes (suc k) (omega arith)),
    )
