-- ===== src/Lib.antt =====
-- Subtrees of a Bitcoin block: the Go package `subtree` at the root of the repository.
--
-- A block's transactions are cut into subtrees. A `Subtree` holds a list of nodes, each a
-- transaction hash with its fee and size, the totals of both, a list of conflicting hashes, a cached
-- merkle root and an index map that is built when it is first asked for. The merkle tree code turns
-- the nodes into an array of levels; the root hash is its last entry. A subtree is written to bytes
-- and read back whole or in part. Beside it, the metadata of a subtree hold for each node the outputs
-- that its transaction spends, and the data of a subtree its transactions.
--
-- The files:
--   Prelude      library names, lists and tests on native numbers, Go's int
--   Errors       errors.go; an outcome is a value, an error or a panic
--   Hash         coinbase_placeholder.go, and `Platform`: what the code takes from chainhash,
--                crypto/sha256, the safe-conversion package and Go's runtime, with the documented
--                behaviour that the proofs use; Hash/Sample is a concrete one for the tests
--   Powers       power_of_two.go, compare.go, and ceil(log2 n)
--   Node         `Node` of subtree.go
--   Merkle       `BuildMerkleTreeStoreFromBytes` and its helpers in merkle_tree.go; Merkle/Reference
--                is Bitcoin's definition of the root, Merkle/Canonical compares the two
--   Merkle/Parallel the goroutines of `BuildMerkleTreeStoreFromBytes` as a step relation, each read
--                and each write of a hash a step; Parallel/Kept is the invariant of a level,
--                Parallel/Ends the steps that are left, Parallel/Store all the levels, Parallel/Order
--                and Parallel/Races the cells that two goroutines touch
--   Subtree      the constructors and the methods of subtree.go that change a subtree;
--                Subtree/Totals is the invariant, Subtree/Calls the calls of eight of them in any order
--   Subtree/Root the methods that return a root hash; Root/Evolved adds `ReplaceRootNode` to the calls
--   Subtree/Index the methods over the index map
--   Subtree/Conflicting the list of `AddConflictingNode`
--   Subtree/Proof the merkle proofs; Merkle/Branch is Bitcoin's branch of a leaf
--   Reader       what the decoders share: numbers low byte first and `io.ReadFull`;
--                Reader/Extends is what more input changes
--   Codec        `Serialize`, `SerializeNodes`, `Deserialize` and its kin; Codec/Partial is the two
--                readers of one part, Codec/Extends and Codec/Truncated are about cut inputs, Codec/Pool
--                is `ReleaseNodes`
--   Bt           what the code takes from go-bt's transactions; Bt/Sample is a concrete one
--   Placeholder  the placeholder transaction and the frozen bytes of coinbase_placeholder.go
--   Os           what the code asks of the operating system; Os/Sample is a concrete one
--   Mmap         mmap_store.go, mmap_unix.go, mmap_windows.go, and the constructors and the reader
--                that keep the nodes in a mapped file; Mmap/Settles and Mmap/Balance are about the
--                files and mappings that are left, Mmap/Heap and Mmap/Same compare with memory
--   Inpoints     inpoints.go, the outputs that a transaction spends, packed by parent; Inpoints/Groups
--                is the abstract view, Inpoints/Packed and Inpoints/Build its refinement
--   Meta         subtree_meta.go, the inpoints of every node of a subtree
--   Data         subtree_data.go, the transactions of a subtree; Data/Write streams them out, Data/Read
--                reads them, Data/Complete and Data/Placed say when they are all there and in place
-- A Go method `FooBar` is `foo_bar`; a method that changes its receiver returns the new one. Where a
-- method returns an error, the model returns `err` and has changed nothing, but for the functions
-- that return their receiver beside the outcome: these return what they have changed so far.
--
-- Numbers: a uint64 is a natural number with `% 2 ^ 64` written where the code adds or subtracts.
-- Lengths and indices are natural numbers; an int that may be negative is `ℤ`. The logarithms are
-- exact; the code's are over float64 and agree below 2 ^ 48, above any slice length.
-- Loops recurse on the number of rounds that are left. The functions on fuel take a bound that
-- is enough: `bit_len` halves its argument, which is its fuel, `merkle_root` has the number of leaves
-- as fuel, with each level shorter than the one below, and the loop that reads transactions to the
-- end of the input has one more than its bytes, of which every transaction takes some.
--
-- Not modelled: the mutex (each method is one step), and a goroutine that starts while others run
-- already (all of a level are there from its begin, which allows more schedules); what others do to
-- a mapped file while it is mapped, and the use of nodes after `Close`; that slices share storage;
-- `String` of inpoints.go, which only formats.
pub mod Prelude
pub mod Errors
pub mod Hash
pub mod Powers
pub mod Node
pub mod Merkle
pub mod Subtree
pub mod Reader
pub mod Codec
pub mod Bt
pub mod Placeholder
pub mod Os
pub mod Mmap
pub mod Inpoints
pub mod Meta
pub mod Data
