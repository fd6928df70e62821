-- ===== src/Subtree/Index.antt =====
-- `NodeIndex`, `HasNode`, `GetNode` and `Difference` of subtree.go. The first call of `NodeIndex`
-- builds the index map, so these methods return the subtree too. `GetMap` stands in `Map`.
pub mod Laws
pub mod Keeps
pub mod Stale
pub mod Map
mod Tests
use go_subtree.Prelude.{
  ℕ, zero, suc, ◌+◌, Bool, true, false, not, Option, none, some, List, [], ◌∷◌, ◌++◌, ℤ, pos,
  negsuc, ◌==◌, if◌then◌else◌, length, get_elem?,
}
use go_subtree.Errors.{Result, ok, err, panic, node_not_found}
use go_subtree.Hash.{Hash}
use go_subtree.Node.{Node}
use go_subtree.Subtree.{Subtree, IndexMap, lookup, insert}

-- The loop over `st.Nodes` from index `idx` on.
index_from : ℕ → List Node → IndexMap → IndexMap
index_from idx [] m = m
index_from idx (n ∷ ns) m = index_from (idx + 1) ns (insert n.hash idx m)

pub ensure_index : Subtree → Subtree
ensure_index s = elim s.node_index [
  | none ↦ record s { node_index = some (index_from 0 s.nodes []) }
  | some m ↦ s
]

-- `-1` for a hash that is not in the map.
pub found_index : Option ℕ → ℤ
found_index none = negsuc 0
found_index (some i) = pos i

pub node_index : Subtree → Hash → ℤ × Subtree
node_index s h =
    let s' = ensure_index s in
    (elim s'.node_index [ none ↦ negsuc 0 | some m ↦ found_index (lookup h m) ], s')

-- `i != -1`.
is_index : ℤ → Bool
is_index (pos i) = true
is_index (negsuc i) = not (i == 0)

pub has_node : Subtree → Hash → Bool × Subtree
has_node s h = let (i, s') = node_index s h in (is_index i, s')

-- `&st.Nodes[i]`.
pub node_at : List Node → ℕ → Result Node
node_at nodes i = elim (get_elem? nodes i) [ none ↦ panic | some n ↦ ok n ]

-- The rest of `GetNode`, after the call of `NodeIndex`.
pub fetch : ℤ → List Node → Result Node
fetch (pos i) nodes = node_at nodes i
fetch (negsuc i) nodes = if i == 0 then err node_not_found else panic

pub get_node : Subtree → Hash → Result Node × Subtree
get_node s h = let (i, s') = node_index s h in (fetch i s'.nodes, s')

-- `Difference`, over the `Exists` of the given map.
pub difference : (Hash → Bool) → List Node → List Node
difference exists [] = []
difference exists (n ∷ ns) =
    let rest = difference exists ns in if not (exists n.hash) then n ∷ rest else rest
