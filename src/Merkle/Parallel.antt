-- ===== src/Merkle/Parallel.antt =====
-- The goroutines of one level in `BuildMerkleTreeStoreFromBytes`, interleaved in any order. A read of
-- a hash and a write of one are single steps; `wg.Wait()` is the end of all goroutines.
pub mod Rounds
pub mod Invariant
pub mod Kept
pub mod Ends
pub mod Store
pub mod Order
pub mod Races
mod Tests
use go_subtree.Prelude.{
  ℕ, zero, suc, ◌+◌, ◌-◌, ◌/◌, ◌^◌, ◌≤◌, ◌<◌, List, [], ◌∷◌, ◌++◌, set, ltb, if◌then◌else◌, All,
}
use go_subtree.Hash.{Hash, Platform}
use go_subtree.Node.{Node}
use go_subtree.Powers.{min_of}
use go_subtree.Merkle.{get_merkle_pair, calc_merkle, split_size}

-- A run of `calcMerkles`, with its `i` and `merkleTo`: at the test of the loop, with the left hash of
-- a pair, or with the hash that it is about to store.
pub data Thread : Type 0 where
  at_loop : ℕ → ℕ → Thread
  left_read : ℕ → ℕ → Hash → Thread
  storing : ℕ → ℕ → Hash → Thread

pub record Level : Type 0 where
  pub threads : List Thread
  pub merkles : List Hash

-- The goroutines that the loop over the chunks starts.
pub spawn : ℕ → ℕ → ℕ → List Thread
spawn zero i merkle_to = []
spawn (suc c) i merkle_to =
    at_loop i (min_of (i + split_size) merkle_to) ∷ spawn c (i + split_size) merkle_to

-- A small level is the work of one.
pub level_threads : ℕ → ℕ → List Thread
level_threads merkle_from merkle_to =
    if ltb split_size (merkle_to - merkle_from)
    then spawn ((merkle_to - merkle_from + (split_size - 1)) / split_size) merkle_from merkle_to
    else at_loop merkle_from merkle_to ∷ []

-- At the end of the loop.
abbrev pub IsDone : Thread → Type 0
IsDone (at_loop i stop) = stop ≤ i
IsDone (left_read i stop a) = ⊥
IsDone (storing i stop h) = ⊥

module _ (p : Platform) (nodes : List Node) (next_pot len : ℕ) where
  -- A step of one goroutine, and what it leaves of the merkles.
  pub data Move : Thread → List Hash → Thread → List Hash → Type 0 where
    read_left :
        (i stop : ℕ) (m : List Hash)
        → i < stop
        → Move (at_loop i stop) m (left_read i stop (get_merkle_pair nodes m i next_pot len).0) m
    read_right :
        (i stop : ℕ) (a : Hash) (m : List Hash)
        → Move
            (left_read i stop a)
            m
            (storing i stop (calc_merkle p a (get_merkle_pair nodes m i next_pot len).1))
            m
    store :
        (i stop : ℕ) (h : Hash) (m : List Hash)
        → Move (storing i stop h) m (at_loop (i + 2) stop) (set m (i / 2) h)

  pub data Step : Level → Level → Type 0 where
    pick :
        (before after : List Thread) {t u : Thread} {m n : List Hash}
        → Move t m u n
        → Step
            (record { threads = before ++ t ∷ after; merkles = m })
            (record { threads = before ++ u ∷ after; merkles = n })

  -- A schedule of so many steps.
  pub data Steps : ℕ → Level → Level → Type 0 where
    here : {s : Level} → Steps 0 s s
    next : {n : ℕ} {s t u : Level} → Step s t → Steps n t u → Steps (suc n) s u

  -- The levels, each once the one below it is done; the first argument is `height + 1 - h`.
  pub data Builds : ℕ → ℕ → List Hash → List Hash → Type 0 where
    built : {merkle_from : ℕ} {m : List Hash} → Builds 0 merkle_from m m
    level :
        {k merkle_from n : ℕ} {m r : List Hash} {s : Level}
        → Steps n
            (record { threads = level_threads merkle_from (merkle_from + 2 ^ k - 1); merkles = m })
            s
        → All IsDone s.threads
        → Builds k (merkle_from + 2 ^ k - 1 + 1) s.merkles r
        → Builds (suc k) merkle_from m r
