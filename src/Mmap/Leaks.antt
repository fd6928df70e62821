-- ===== src/Mmap/Leaks.antt =====
-- A panic of the reader over mapped nodes, which has no `recover`.
use mathlib.Core.Path.{subst}
use go_subtree.Prelude.{ℕ, ◌*◌, ◌≤◌, ◌<◌, ◌≡◌, refl, sym, ◌∙◌, arith, none, some, length}
use go_subtree.Errors.{Result, ok, err, panic, recovered, panic-ne-ok, panic-ne-err}
use go_subtree.Hash.{Bytes, Platform}
use go_subtree.Node.{u64}
use go_subtree.Os.{View, Os, IsClean, IsRoomy}
use go_subtree.Subtree.{Subtree}
use go_subtree.Reader.{Progress}
use go_subtree.Codec.{
  read_all, returned, deserialize, deserialize_from_reader_with_allocator, zero_subtree,
}
use go_subtree.Mmap.{Target, unix, MmapNodeStore, MmapSubtree, new_subtree_from_reader_mmap}
use go_subtree.Mmap.Settles.{Adds, Settled}
use go_subtree.Mmap.Balance.{map_leaves-Settled}
use go_subtree.Mmap.Heap.{with_store, header_bytes, headed}
use go_subtree.Mmap.Same.{
  new_subtree_from_reader_mmap_header, new_subtree_from_reader_mmap-read_all,
}

with_store_panic :
    (store : MmapNodeStore) (x : Progress Subtree) → x.0 ≡ panic → with_store store x ≡ panic
with_store_panic store (ok rest, s) e = absurd (panic-ne-ok (sym e))
with_store_panic store (err x, s) e = absurd (panic-ne-err e refl)
with_store_panic store (panic, s) e = refl

returned_panic : (x : Progress Subtree) → x.0 ≡ panic → (returned x).0 ≡ some recovered
unfolding returned
returned_panic (ok rest, s) e = absurd (panic-ne-ok (sym e))
returned_panic (err x, s) e = absurd (panic-ne-err e refl)
returned_panic (panic, s) e = refl

Settled-panic :
    (os : Os) (target : Target) (v : View) (r : Result MmapSubtree × os.World)
    → Settled os target v r
    → r.0 ≡ panic
    → Adds os v r.1
Settled-panic os target v (ok st, w) m e = absurd (panic-ne-ok (sym e))
Settled-panic os target v (err x, w) m e = absurd (panic-ne-err e refl)
Settled-panic os target v (panic, w) m e = m

module _ (os : Os) (roomy : IsRoomy os) (clean : IsClean os) (p : Platform) where
  -- Where the system has room, no removal fails and the build is not that for Windows, and the root
  -- hash, the totals and a positive number of leaves go in front, the nodes of which fit in memory: if
  -- the reader over memory panics, so that `DeserializeFromReader` returns the error that it recovers,
  -- then `NewSubtreeFromReaderMmap` panics, and the file and the mapping of the nodes are left.
  pub new_subtree_from_reader_mmap_leaks :
      (root : Bytes) (fees size_in_bytes n : ℕ) (rest dir : Bytes) (w : os.World)
      → length root ≡ 32
      → fees < u64
      → size_in_bytes < u64
      → 0 < n
      → n * 48 ≤ p.max_alloc
      → (read_all p none zero_subtree (header_bytes root fees size_in_bytes n rest)).0 ≡ panic
      → ((deserialize p zero_subtree (header_bytes root fees size_in_bytes n rest)).0
          ≡ some recovered)
        × ((new_subtree_from_reader_mmap unix os p
              (header_bytes root fees size_in_bytes n rest)
              dir
              w).0
            ≡ panic)
        × Adds os
            (os.view w)
            (new_subtree_from_reader_mmap unix os p
              (header_bytes root fees size_in_bytes n rest)
              dir
              w).1
  unfolding deserialize deserialize_from_reader_with_allocator
  new_subtree_from_reader_mmap_leaks root fees size_in_bytes n rest dir w a b c d e f =
      let small = p.max_alloc-lt in
      let input = header_bytes root fees size_in_bytes n rest in
      let (store, same) =
        new_subtree_from_reader_mmap-read_all os roomy p root fees size_in_bytes n rest dir w a b c
          d e in
      let panics = same ∙ with_store_panic store (read_all p none zero_subtree input) f in
      let mapped =
        subst (Settled os unix (os.view w))
          (sym (
            new_subtree_from_reader_mmap_header os roomy p root fees size_in_bytes n rest dir w a b
              c (omega arith)))
          (map_leaves-Settled unix os clean p (headed root fees size_in_bytes n rest) n rest dir
            w) in
      (
        returned_panic (read_all p none zero_subtree input) f,
        panics,
        Settled-panic os unix (os.view w) (new_subtree_from_reader_mmap unix os p input dir w)
            mapped panics,
      )
