-- ===== src/Codec/Truncated.antt =====
-- A serialized subtree that is cut short.
use go_subtree.Prelude.{
  ℕ, zero, suc, ◌<◌, ◌≡◌, ◌≢◌, refl, sym, ap, ◌∙◌, arith, Option, some, [], ◌∷◌, ◌++◌, append-nil,
  length, length-append, take, drop,
}
use go_subtree.Errors.{ok, err, panic, Error, recovered, ok-injective}
use go_subtree.Hash.{Bytes, Hash, Platform}
use go_subtree.Subtree.{Subtree}
use go_subtree.Subtree.Root.{root_hash}
use go_subtree.Codec.{
  body_bytes, serialize, NodeAllocator, returned, read_all, deserialize_from_reader_with_allocator,
}
use go_subtree.Reader.{Progress}
use go_subtree.Codec.Steps.{IsWritable, written, body_rest}
use go_subtree.Codec.RoundTrip.{restored, written_lem, read_written}
use go_subtree.Codec.Extends.{read_all-Extends}

take-drop : (k : ℕ) (xs : Bytes) → take k xs ++ drop k xs ≡ xs
take-drop zero xs = refl
take-drop (suc k) [] = refl
take-drop (suc k) (x ∷ xs) = ap (◌∷◌ x) (take-drop k xs)

some_left : (k : ℕ) (xs : Bytes) → k < length xs → 0 < length (drop k xs)
some_left zero xs h = h
some_left (suc k) [] h = absurd (omega arith)
some_left (suc k) (x ∷ xs) h = some_left k xs (omega arith)

-- A reading that does not come to its end reports an error.
fails :
    (q : Progress Subtree)
    → ((r : Bytes) (t : Subtree) → q ≢ (ok r, t))
    → (e : Error) × ((returned q).0 ≡ some e)
unfolding returned
fails (ok r, t) h = absurd (h r t refl)
fails (err e, t) h = (e, refl)
fails (panic, t) h = (recovered, refl)

module _ (p : Platform) where
  whole :
      (alloc : Option NodeAllocator) (u s : Subtree) (root : Bytes)
      → IsWritable p s
      → length root ≡ 32
      → (t : Subtree) × (read_all p alloc u (root ++ body_bytes s) ≡ (ok [], t))
  whole alloc u s root w e =
      let (cap, room, read) = read_written p alloc u s root [] w e in
      let bytes : body_bytes s ≡ written s [] = sym (append-nil (body_bytes s)) ∙ body_rest s [] in
      (restored p u s root cap, rw bytes read)

  cut :
      (alloc : Option NodeAllocator) (u s : Subtree) (root : Bytes) (k : ℕ)
      → IsWritable p s
      → length root ≡ 32
      → k < length (root ++ body_bytes s)
      → (r : Bytes) (t : Subtree) → read_all p alloc u (take k (root ++ body_bytes s)) ≢ (ok r, t)
  cut alloc u s root k w e low r t read =
      let b : Bytes = root ++ body_bytes s in
      let (t', all) = whole alloc u s root w e in
      let more : read_all p alloc u (take k b ++ drop k b) ≡ (ok (r ++ drop k b), t) =
        read_all-Extends p alloc u (take k b) (drop k b) r t read in
      let same : read_all p alloc u b ≡ (ok (r ++ drop k b), t) = rw (take-drop k b) at more in
      let empty : [] ≡ r ++ drop k b =
        ok-injective (ap (λ (q : Progress Subtree). q.0) (sym all ∙ same)) in
      let none_left : 0 ≡ length (r ++ drop k b) = ap (λ (x : Bytes). length x) empty in
      omega (arith, some_left k b low, length-append r (drop k b))

  -- What `Serialize` writes for a subtree with a root hash, with fields as Go's types have them and
  -- with lists that fit in memory, cut short anywhere, is refused with an error by a reader with any
  -- allocator and from any receiver.
  pub deserialize-take-serialize :
      (s : Subtree) (root : Hash)
      → IsWritable p s
      → (root_hash p s).0 ≡ some root
      → length root ≡ 32
      → (b : Bytes) × ((serialize p s).0 ≡ ok b)
        × ((alloc : Option NodeAllocator) (u : Subtree) (k : ℕ)
            → k < length b
            → (e : Error) × ((deserialize_from_reader_with_allocator p alloc u (take k b)).0
                ≡ some e))
  unfolding deserialize_from_reader_with_allocator
  deserialize-take-serialize s root w e size = (
    root ++ body_bytes s,
    written_lem p s root e,
    λ alloc u k low. fails _ (cut alloc u s root k w size low),
  )
