-- ===== src/Subtree/Index/Map.antt =====
-- `GetMap` of subtree.go, over its interface `TxMap`. The map that it makes is one of go-tx-map.
use go_subtree.Prelude.{
  ℕ, zero, suc, ◌+◌, ◌^◌, ◌<◌, ◌≡◌, ◌≢◌, refl, sym, ap, ◌∙◌, arith, Bool, Option, none, some,
  some_inj, none-ne-some, List, [], ◌∷◌, length, get_elem?, All, IsDistinct,
}
use go_subtree.Errors.{Result, ok, err, conversion_failed}
use go_subtree.Hash.{Hash, Platform}
use go_subtree.Node.{Node}
use go_subtree.Subtree.{Subtree}

-- `new_map` is `NewSwissMapUint64`; `put` returns false for an error, `get` none for no
-- value. `GetMap` itself calls `new_map` and `put`.
pub record TxMap : Type 1 where
  pub Entries : Type 0
  pub new_map : ℕ → Entries
  pub put : Hash → ℕ → Entries → Bool × Entries
  pub get : Hash → Entries → Option ℕ
  pub exists : Hash → Entries → Bool
  pub entries_length : Entries → ℕ
  pub keys : Entries → List Hash

-- A new map is empty, and `Put` stores the value of a hash that has none and changes no other.
pub record IsLawful (t : TxMap) : Type 0 where
  pub get-new_map : (h : Hash) (n : ℕ) → t.get h (t.new_map n) ≡ none
  pub get-put :
      (h : Hash) (v : ℕ) (m : t.Entries) → t.get h m ≡ none → t.get h (t.put h v m).1 ≡ some v
  pub get-put_other :
      (h k : Hash) (v : ℕ) (m : t.Entries) → h ≢ k → t.get h (t.put k v m).1 ≡ t.get h m

module _ (t : TxMap) where
  -- The loop over `st.Nodes` from index `idx` on.
  put_all : ℕ → List Node → t.Entries → t.Entries
  put_all idx [] m = m
  put_all idx (n ∷ ns) m = put_all (idx + 1) ns (t.put n.hash idx m).1

  pub get_map : Platform → Subtree → Result t.Entries
  get_map p s = elim (p.int_to_uint32 (length s.nodes)) [
    | none ↦ err conversion_failed
    | some n ↦ ok (put_all 0 s.nodes (t.new_map n))
  ]

  -- The hashes of the nodes, which `GetMap` takes as keys.
  abbrev pub hashes : List Node → List Hash
  hashes [] = []
  hashes (n ∷ ns) = n.hash ∷ hashes ns

  module _ (lawful : IsLawful t) where
    get-put_all_other :
        (ns : List Node) (idx : ℕ) (m : t.Entries) (h : Hash)
        → All (λ y. y ≢ h) (hashes ns)
        → t.get h (put_all idx ns m) ≡ t.get h m
    unfolding put_all
    get-put_all_other [] idx m h a = refl
    get-put_all_other (n ∷ ns) idx m h a =
        get-put_all_other ns (idx + 1) (t.put n.hash idx m).1 h a.1
        ∙ lawful.get-put_other h n.hash idx m (λ e. a.0 (sym e))

    absent_after :
        (ns : List Node) (m : t.Entries) (k : Hash) (v : ℕ)
        → All (λ y. y ≢ k) (hashes ns)
        → All (λ y. t.get y m ≡ none) (hashes ns)
        → All (λ y. t.get y (t.put k v m).1 ≡ none) (hashes ns)
    absent_after [] m k v a b = tt
    absent_after (n ∷ ns) m k v a b =
        (lawful.get-put_other n.hash k v m a.0 ∙ b.0, absent_after ns m k v a.1 b.1)

    get-put_all :
        (ns : List Node) (idx i : ℕ) (m : t.Entries) (n : Node)
        → IsDistinct (hashes ns)
        → All (λ y. t.get y m ≡ none) (hashes ns)
        → get_elem? ns i ≡ some n
        → t.get n.hash (put_all idx ns m) ≡ some (idx + i)
    unfolding put_all
    get-put_all [] idx i m n d a e = absurd (none-ne-some e)
    get-put_all (x ∷ ns) idx zero m n d a e =
        let same : x.hash ≡ n.hash = ap (λ y. y.hash) (some_inj e) in
        let index : idx ≡ idx + 0 = omega arith in
        rw (← same) (
          get-put_all_other ns (idx + 1) (t.put x.hash idx m).1 x.hash d.0
          ∙ lawful.get-put x.hash idx m a.0
          ∙ ap (λ (k : ℕ). some k) index)
    get-put_all (x ∷ ns) idx (suc i) m n d a e =
        let index : idx + 1 + i ≡ idx + suc i = omega arith in
        get-put_all ns (idx + 1) i (t.put x.hash idx m).1 n d.1
          (absent_after ns m x.hash idx d.0 a.1) e
        ∙ ap (λ (k : ℕ). some k) index

    absent_new : (ns : List Node) (c : ℕ) → All (λ y. t.get y (t.new_map c) ≡ none) (hashes ns)
    absent_new [] c = tt
    absent_new (n ∷ ns) c = (lawful.get-new_map n.hash c, absent_new ns c)

    -- On fewer than 2 ^ 32 nodes with distinct hashes `GetMap` makes a map with the index of each.
    pub get_map_lem :
        (p : Platform) (s : Subtree) (i : ℕ) (n : Node)
        → length s.nodes < 2 ^ 32
        → IsDistinct (hashes s.nodes)
        → get_elem? s.nodes i ≡ some n
        → (m : t.Entries) × (get_map p s ≡ ok m) × (t.get n.hash m ≡ some i)
    unfolding get_map
    get_map_lem p s i n h d e =
        let c = length s.nodes in
        let index : 0 + i ≡ i = omega arith in
        (
          put_all 0 s.nodes (t.new_map c),
          rw (p.int_to_uint32_lem c h, get_map) refl,
          get-put_all s.nodes 0 i (t.new_map c) n d (absent_new s.nodes c) e
              ∙ ap (λ (k : ℕ). some k) index,
        )
