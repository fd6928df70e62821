-- ===== src/Subtree/Index/Laws.antt =====
-- The index map, and what `NodeIndex` returns.
use mathlib.Core.Path.{subst}
use mathlib.Core.Bool.{false≢true}
use go_subtree.Prelude.{
  ℕ, ◌+◌, ◌≡◌, ◌≢◌, refl, sym, ap, ◌∙◌, arith, Bool-cases, inl, inr, Option, none, some, List, [],
  ◌∷◌, ◌++◌, Option-cases, ◌⊎◌, ℤ, pos, negsuc, length, get_elem?, get_elem?-append_left,
  get_elem?-concat, get_elem?-concat_last, none-ne-some, append-nil, append_assoc, length-append,
  some_inj, if◌then◌else◌,
}
use go_subtree.Hash.{Hash, hash_eq, hash_eq_iff}
use go_subtree.Node.{Node}
use go_subtree.Subtree.{Subtree, IndexMap, lookup, insert, delete}
use go_subtree.Subtree.Totals.{IsConsistent}
use go_subtree.Errors.{Result, ok, err, panic, node_not_found}
use go_subtree.Subtree.Index.{
  index_from, ensure_index, node_index, get_node, node_at, found_index, fetch,
}

-- `NodeIndex` changes no field but the map.
pub node_index_effect :
    (s : Subtree) (h : Hash)
    → (m : Option IndexMap) × ((node_index s h).1 ≡ record s { node_index = m })
unfolding node_index ensure_index
node_index_effect s h = elim (Option-cases s.node_index) [
  | inl e ↦ (some (index_from 0 s.nodes []), rw e refl)
  | inr (m, e) ↦ (some m, rw e)
]

pub node_index-IsConsistent :
    (s : Subtree) (h : Hash) → IsConsistent s → IsConsistent (node_index s h).1
node_index-IsConsistent s h c =
    let (m, e) = node_index_effect s h in
    subst IsConsistent (sym e) (record {
      fees = c.fees;
      size_in_bytes = c.size_in_bytes;
      has_room = c.has_room;
      fits_tree = c.fits_tree;
      fits_slice = c.fits_slice;
      typed = c.typed;
    })

pub lookup-delete :
    (k j : Hash) (m : IndexMap) → lookup j (delete k m) ≡ (if hash_eq k j then none else lookup j m)
unfolding lookup delete
lookup-delete k j [] = ground arith
lookup-delete k j ((i, v) ∷ m) =
    ground (arith, lookup-delete k j m, hash_eq_iff k j, hash_eq_iff i k, hash_eq_iff i j)

lookup-insert :
    (k j : Hash) (v : ℕ) (m : IndexMap)
    → lookup j (insert k v m) ≡ (if hash_eq k j then some v else lookup j m)
unfolding lookup insert
lookup-insert k j v m = ground (arith, lookup-delete k j m)

-- The map holds an index of each hash in the list, and nothing else.
pub record Indexes (nodes : List Node) (m : IndexMap) : Type 0 where
  pub found :
      (h : Hash) (i : ℕ)
      → lookup h m ≡ some i
      → (n : Node) × (get_elem? nodes i ≡ some n) × (n.hash ≡ h)
  pub complete :
      (h : Hash) (i : ℕ) (n : Node) → lookup h m ≡ none → get_elem? nodes i ≡ some n → n.hash ≢ h

Indexes-nil : Indexes [] []
unfolding lookup
Indexes-nil = record {
  found = λ h i e. absurd (none-ne-some e);
  complete = λ h i n e f g. none-ne-some f;
}

-- A node at the end is indexed by the length before it.
pub Indexes-insert :
    (nodes : List Node) (n : Node) (m : IndexMap)
    → Indexes nodes m
    → Indexes (nodes ++ n ∷ []) (insert n.hash (length nodes) m)
Indexes-insert nodes n m x = record {
  found = λ h i e. elim (Bool-cases (hash_eq n.hash h)) [
    | inl y ↦
        let here : length nodes ≡ i = some_inj (rw (lookup-insert, y) at e) in
        (
          n,
          subst (λ j. get_elem? (nodes ++ n ∷ []) j ≡ some n) here (get_elem?-concat_last nodes n),
          (hash_eq_iff n.hash h).0 y,
        )
    | inr z ↦
        let (k, at, same) = x.found h i (rw (lookup-insert, z) at e) in
        (k, get_elem?-append_left nodes (n ∷ []) i at, same)
  ];
  complete = λ h i k e f g. elim (Bool-cases (hash_eq n.hash h)) [
    | inl y ↦ none-ne-some (sym (rw (lookup-insert, y) at e))
    | inr z ↦ elim (get_elem?-concat nodes n i f) [
      | inl old ↦ x.complete h i k (rw (lookup-insert, z) at e) old g
      | inr new ↦
          let same : n.hash ≡ h = ap (λ (a : Node). a.hash) new ∙ g in
          false≢true (sym z ∙ (hash_eq_iff n.hash h).1 same)
    ]
  ];
}

index_from-Indexes :
    (done rest : List Node) (m : IndexMap)
    → Indexes done m
    → Indexes (done ++ rest) (index_from (length done) rest m)
unfolding index_from
index_from-Indexes done [] m x = rw append-nil x
index_from-Indexes done (n ∷ ns) m x =
    let size : length (done ++ n ∷ []) ≡ length done + 1 =
      omega (arith, length-append done (n ∷ [])) in
    rw (← size, ← append_assoc done (n ∷ []) ns)
      (index_from-Indexes (done ++ n ∷ []) ns (insert n.hash (length done) m)
        (Indexes-insert done n m x))

-- The map of `s`, if there is one, indexes its nodes.
abbrev pub IsIndexed : Subtree → Type 0
IsIndexed s = (m : IndexMap) → s.node_index ≡ some m → Indexes s.nodes m

pub ensure_index-Indexes :
    (s : Subtree)
    → IsIndexed s
    → (m : IndexMap) × ((ensure_index s).node_index ≡ some m)
      × ((ensure_index s).nodes ≡ s.nodes)
      × Indexes s.nodes m
unfolding ensure_index
ensure_index-Indexes s x = elim (Option-cases s.node_index) [
  | inl e ↦ (index_from 0 s.nodes [], rw e, rw e, index_from-Indexes [] s.nodes [] Indexes-nil)
  | inr (m, e) ↦ (m, rw e, rw e, x m e)
]

-- What `GetNode` returns for a hash and a list of nodes: a node of the list with the hash, or the
-- error where no node of the list has it.
pub data Finds (nodes : List Node) (h : Hash) : Result Node → Type 0 where
  hit : (i : ℕ) (n : Node) → get_elem? nodes i ≡ some n → n.hash ≡ h → Finds nodes h (ok n)
  miss :
      ((i : ℕ) (n : Node) → get_elem? nodes i ≡ some n → n.hash ≢ h)
      → Finds nodes h (err node_not_found)

pub node_index_lem :
    (s : Subtree) (h : Hash) (m : IndexMap)
    → (ensure_index s).node_index ≡ some m
    → (node_index s h).0 ≡ found_index (lookup h m)
unfolding node_index found_index
node_index_lem s h m e = rw (e, node_index)

pub get_node_lem :
    (s : Subtree) (h : Hash) (m : IndexMap)
    → (ensure_index s).node_index ≡ some m
    → (get_node s h).0 ≡ fetch (found_index (lookup h m)) (ensure_index s).nodes
unfolding get_node
get_node_lem s h m e =
    ap (λ (i : ℤ). fetch i (node_index s h).1.nodes) (node_index_lem s h m e)
    ∙ (unfold node_index in refl)

pub node_at_lem :
    (nodes : List Node) (i : ℕ) (n : Node) → get_elem? nodes i ≡ some n → node_at nodes i ≡ ok n
unfolding node_at
node_at_lem nodes i n e = rw (e, node_at)

pub node_at_past : (nodes : List Node) (i : ℕ) → get_elem? nodes i ≡ none → node_at nodes i ≡ panic
unfolding node_at
node_at_past nodes i e = rw (e, node_at)

-- While the index map is right, `GetNode` returns a node that has the hash, or reports that no node
-- has it; it does not panic.
pub get_node-Finds : (s : Subtree) (h : Hash) → IsIndexed s → Finds s.nodes h (get_node s h).0
get_node-Finds s h x =
    let (m, e, same, idx) = ensure_index-Indexes s x in
    rw (get_node_lem s h m e, same)
      (elim (Option-cases (lookup h m)) [
        | inl absent ↦
            unfold fetch found_index in rw absent (miss (λ i n f. idx.complete h i n absent f))
        | inr (i, present) ↦
            let (n, at, hash) = idx.found h i present in
            unfold fetch found_index in rw (present, node_at_lem s.nodes i n at) (hit i n at hash)
      ])

-- While the index map is right, `NodeIndex` gives the index of a node that has the hash, or -1 where
-- no node has it, and makes sure of the map.
pub node_index-cases :
    (s : Subtree) (h : Hash)
    → IsIndexed s
    → ((node_index s h ≡ (negsuc 0, ensure_index s))
        × ((i : ℕ) (n : Node) → get_elem? s.nodes i ≡ some n → n.hash ≢ h))
      ⊎ ((i : ℕ) × (n : Node) × (node_index s h ≡ (pos i, ensure_index s))
          × (get_elem? s.nodes i ≡ some n)
          × (n.hash ≡ h))
unfolding node_index found_index
node_index-cases s h x =
    let (m, e, same, idx) = ensure_index-Indexes s x in
    elim (Option-cases (lookup h m)) [
      | inl absent ↦ inl (rw (e, node_index, absent) refl, λ i n f. idx.complete h i n absent f)
      | inr (i, present) ↦
          let (n, at, hash) = idx.found h i present in
          inr (i, n, rw (e, node_index, present) refl, at, hash)
    ]
