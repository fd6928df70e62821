-- ===== src/Os.antt =====
-- What mmap_store.go and mmap_unix.go ask of the operating system, through the packages `os` and
-- `syscall`.
pub mod Sample
use go_subtree.Prelude.{
  ℕ, zero, suc, ◌≡◌, Bool, true, false, Option, none, some, List, [], ◌∷◌, ℤ, ◌==◌, if◌then◌else◌,
}
use go_subtree.Hash.{Bytes, hash_eq}

-- Takes out the first element that the test accepts.
abbrev pub erase {ℓ} : {A : Type ℓ} → (A → Bool) → List A → List A
erase test [] = []
erase test (x ∷ xs) = let rest = erase test xs in if test x then xs else x ∷ rest

-- What the process has of the system: the paths of its files, its open file descriptors, and the
-- addresses of its mappings, the latest first.
pub record View : Type 0 where
  pub files : List Bytes
  pub opened : List ℕ
  pub mapped : List ℕ

abbrev pub without_file : Bytes → View → View
without_file path v = record v { files = erase (hash_eq path) v.files }

abbrev pub without_opened : ℕ → View → View
without_opened fd v = record v { opened = erase (λ x. fd == x) v.opened }

abbrev pub without_mapped : ℕ → View → View
without_mapped addr v = record v { mapped = erase (λ x. addr == x) v.mapped }

-- `create_temp` is `os.CreateTemp`, with the descriptor and the name of the file; `mmap` is
-- `syscall.Mmap` from offset 0, shared, for reading and writing, with the address of the mapping;
-- `truncate`, `close`, `remove` and `munmap` are `File.Truncate`, `File.Close`, `os.Remove` and
-- `syscall.Munmap`. `none` and `false` stand for an error. A call that fails has changed nothing of
-- what is seen, but for `close`, whose descriptor is gone also where it returns an error.
pub record Os : Type 1 where
  pub World : Type 0
  pub view : World → View
  pub create_temp : Bytes → World → Option (ℕ × Bytes) × World
  pub truncate : ℕ → ℤ → World → Bool × World
  pub mmap : ℕ → ℤ → World → Option ℕ × World
  pub close : ℕ → World → World
  pub remove : Bytes → World → Bool × World
  pub munmap : ℕ → World → Bool × World
  pub create_temp_some :
      (dir : Bytes) (w : World) (fd : ℕ) (path : Bytes)
      → (create_temp dir w).0 ≡ some (fd, path)
      → view (create_temp dir w).1
        ≡ record (view w) { files = path ∷ (view w).files; opened = fd ∷ (view w).opened }
  pub create_temp_none :
      (dir : Bytes) (w : World) → (create_temp dir w).0 ≡ none → view (create_temp dir w).1 ≡ view w
  -- The name of a temporary file is not empty.
  pub create_temp_name :
      (dir : Bytes) (w : World) (fd : ℕ) (path : Bytes)
      → (create_temp dir w).0 ≡ some (fd, path)
      → (b : ℕ) × (bs : Bytes) × (path ≡ b ∷ bs)
  pub view-truncate : (fd : ℕ) (n : ℤ) (w : World) → view (truncate fd n w).1 ≡ view w
  pub mmap_some :
      (fd : ℕ) (n : ℤ) (w : World) (addr : ℕ)
      → (mmap fd n w).0 ≡ some addr
      → view (mmap fd n w).1 ≡ record (view w) { mapped = addr ∷ (view w).mapped }
  pub mmap_none :
      (fd : ℕ) (n : ℤ) (w : World) → (mmap fd n w).0 ≡ none → view (mmap fd n w).1 ≡ view w
  pub view-close : (fd : ℕ) (w : World) → view (close fd w) ≡ without_opened fd (view w)
  pub view-remove :
      (path : Bytes) (w : World)
      → (remove path w).0 ≡ true
      → view (remove path w).1 ≡ without_file path (view w)
  pub view-munmap :
      (addr : ℕ) (w : World)
      → (munmap addr w).0 ≡ true
      → view (munmap addr w).1 ≡ without_mapped addr (view w)

-- No removal of a file and of a mapping fails.
pub record IsClean (os : Os) : Type 0 where
  pub remove : (path : Bytes) (w : os.World) → (os.remove path w).0 ≡ true
  pub munmap : (addr : ℕ) (w : os.World) → (os.munmap addr w).0 ≡ true

-- The system has room for every file and every mapping of a positive length.
pub record IsRoomy (os : Os) : Type 0 where
  pub create_temp :
      (dir : Bytes) (w : os.World)
      → (fd : ℕ) × (path : Bytes) × ((os.create_temp dir w).0 ≡ some (fd, path))
  pub truncate : (fd n : ℕ) (w : os.World) → (os.truncate fd (ℤ.pos n) w).0 ≡ true
  pub mmap : (fd n : ℕ) (w : os.World) → (addr : ℕ) × ((os.mmap fd (ℤ.pos (suc n)) w).0 ≡ some addr)
