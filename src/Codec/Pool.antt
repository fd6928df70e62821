-- ===== src/Codec/Pool.antt =====
-- `ReleaseNodes` of subtree.go, and its slice in the hands of a `NodeAllocator`.
use go_subtree.Prelude.{
  ℕ, ◌+◌, ◌^◌, ◌≤◌, ◌<◌, ◌≡◌, refl, ◌∙◌, Option, none, some, List, [], ◌++◌, length, length-append,
  take, le→ltb-false,
}
use go_subtree.Errors.{ok}
use go_subtree.Hash.{Platform}
use go_subtree.Node.{Node}
use go_subtree.Subtree.{Subtree}
use go_subtree.Codec.{node_space}
use go_subtree.Codec.Steps.{int_small}

-- The first argument is `none` where `Nodes` is nil, else the part of its backing array that stands
-- behind its length. The slice that is returned is `none` for nil.
pub release_nodes : Option (List Node) → Subtree → Option (List Node) × Subtree
release_nodes none s = (none, s)
release_nodes (some spare) s = (some (s.nodes ++ spare), record s { nodes = []; nodes_cap = 0 })

-- An allocator that hands out a released slice.
pub recycled : Option (List Node) → List Node
recycled none = []
recycled (some nodes) = nodes

-- A later subtree with no more nodes than the capacity of the released one reuses its array, and
-- has its capacity.
node_space-release_nodes :
    (p : Platform) (s : Subtree) (spare : List Node) (n : ℕ)
    → length s.nodes + length spare ≡ s.nodes_cap
    → n ≤ s.nodes_cap
    → n < 2 ^ 63
    → node_space p (some (λ k. recycled (release_nodes (some spare) s).0)) n
      ≡ ok (take n (s.nodes ++ spare), s.nodes_cap)
unfolding node_space release_nodes recycled
node_space-release_nodes p s spare n whole room small =
    let size : length (s.nodes ++ spare) ≡ s.nodes_cap = length-append s.nodes spare ∙ whole in
    rw (int_small n small, size, le→ltb-false s.nodes_cap n room) refl
