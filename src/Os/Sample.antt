-- ===== src/Os/Sample.antt =====
-- A system for the tests, whose world is what is seen of it. It takes the next number that is free.
use go_subtree.Prelude.{
  ℕ, zero, suc, ◌≡◌, refl, sym, ap, some_inj, none-ne-some, Bool, true, false, Option, none, some,
  [], ◌∷◌, ◌++◌, ℤ, pos, negsuc, length,
}
use go_subtree.Hash.{Bytes}
use go_subtree.Os.{View, Os, IsClean, IsRoomy, without_file, without_opened, without_mapped}

abbrev pub nothing : View
nothing = record { files = []; opened = []; mapped = [] }

abbrev pub temp_name : Bytes → View → Bytes
temp_name dir v = 47 ∷ (dir ++ length v.files ∷ [])

abbrev pub add_temp : Bytes → View → Option (ℕ × Bytes) × View
add_temp dir v = (
  some (length v.opened, temp_name dir v),
  record v { files = temp_name dir v ∷ v.files; opened = length v.opened ∷ v.opened },
)

abbrev pub add_mapping : ℕ → ℤ → View → Option ℕ × View
add_mapping fd (pos zero) v = (none, v)
add_mapping fd (pos (suc n)) v =
    (some (length v.mapped), record v { mapped = length v.mapped ∷ v.mapped })
add_mapping fd (negsuc n) v = (none, v)

abbrev pub set_length : ℕ → ℤ → View → Bool × View
set_length fd (pos n) v = (true, v)
set_length fd (negsuc n) v = (false, v)

pub add_temp-some :
    (dir : Bytes) (v : View) (fd : ℕ) (path : Bytes)
    → (add_temp dir v).0 ≡ some (fd, path)
    → (add_temp dir v).1 ≡ record v { files = path ∷ v.files; opened = fd ∷ v.opened }
add_temp-some dir v fd path e =
    let same = some_inj e in
    let number : length v.opened ≡ fd = ap (λ x. x.0) same in
    let name : temp_name dir v ≡ path = ap (λ x. x.1) same in rw (← number, ← name) refl

pub add_temp_name :
    (dir : Bytes) (v : View) (fd : ℕ) (path : Bytes)
    → (add_temp dir v).0 ≡ some (fd, path)
    → (b : ℕ) × (bs : Bytes) × (path ≡ b ∷ bs)
add_temp_name dir v fd path e = (47, dir ++ length v.files ∷ [], sym (ap (λ x. x.1) (some_inj e)))

pub add_mapping-some :
    (fd : ℕ) (n : ℤ) (v : View) (addr : ℕ)
    → (add_mapping fd n v).0 ≡ some addr
    → (add_mapping fd n v).1 ≡ record v { mapped = addr ∷ v.mapped }
add_mapping-some fd (pos zero) v addr e = absurd (none-ne-some e)
add_mapping-some fd (pos (suc n)) v addr e = rw (← some_inj e) refl
add_mapping-some fd (negsuc n) v addr e = absurd (none-ne-some e)

pub add_mapping-none :
    (fd : ℕ) (n : ℤ) (v : View) → (add_mapping fd n v).0 ≡ none → (add_mapping fd n v).1 ≡ v
add_mapping-none fd (pos zero) v e = refl
add_mapping-none fd (pos (suc n)) v e = absurd (none-ne-some (sym e))
add_mapping-none fd (negsuc n) v e = refl

pub set_length_same : (fd : ℕ) (n : ℤ) (v : View) → (set_length fd n v).1 ≡ v
set_length_same fd (pos n) v = refl
set_length_same fd (negsuc n) v = refl

abbrev pub system : Os
system = record {
  World = View;
  view = λ v. v;
  create_temp = add_temp;
  truncate = set_length;
  mmap = add_mapping;
  close = without_opened;
  remove = λ path v. (true, without_file path v);
  munmap = λ addr v. (true, without_mapped addr v);
  create_temp_some = add_temp-some;
  create_temp_none = λ dir v e. absurd (none-ne-some (sym e));
  create_temp_name = add_temp_name;
  view-truncate = set_length_same;
  mmap_some = add_mapping-some;
  mmap_none = add_mapping-none;
  view-close = λ fd v. refl;
  view-remove = λ path v e. refl;
  view-munmap = λ addr v e. refl;
}

pub system-IsClean : IsClean system
system-IsClean = record { remove = λ path v. refl; munmap = λ addr v. refl }

pub system-IsRoomy : IsRoomy system
system-IsRoomy = record {
  create_temp = λ dir v. (length v.opened, temp_name dir v, refl);
  truncate = λ fd n v. refl;
  mmap = λ fd n v. (length v.mapped, refl);
}
