-- ===== src/Reader/Laws.antt =====
-- Each shared reader on what its writer has written, with any bytes behind.
use mathlib.Core.Path.{subst}
use go_subtree.Prelude.{
  ℕ, suc, ◌+◌, ◌<◌, ◌^◌, ◌≡◌, refl, arith, List, [], ◌∷◌, ◌++◌, append_assoc, length, take, drop,
  length-append, take-append, drop-append, set-append, All, false, ltb,
}
use go_subtree.Errors.{ok, Stage}
use go_subtree.Hash.{Bytes, Hash, IsHash, zero_hash}
use go_subtree.Node.{u64}
use go_subtree.Reader.{
  and_then, put_u64, hashes_bytes, read_full, read_u64, fill, read_hashes, Progress,
}
use go_subtree.Reader.Words.{from_le-put_u32, from_le-put_u64, length-le_bytes}
use go_subtree.Reader.{read_uint, read_u32, put_u32}

pub take_exact : (n : ℕ) (xs ys : Bytes) → length xs ≡ n → take n (xs ++ ys) ≡ xs
take_exact n xs ys e = subst (λ k. take k (xs ++ ys) ≡ xs) e (take-append xs ys)

pub drop_exact : (n : ℕ) (xs ys : Bytes) → length xs ≡ n → drop n (xs ++ ys) ≡ ys
drop_exact n xs ys e = subst (λ k. drop k (xs ++ ys) ≡ ys) e (drop-append xs ys)

not_short : (n a b : ℕ) → a ≡ n → ltb (a + b) n ≡ false
not_short n a b e = ground arith

pub read_full-append :
    (stage : Stage) (n : ℕ) (xs ys : Bytes)
    → length xs ≡ n
    → read_full stage n (xs ++ ys) ≡ ok (xs, ys)
unfolding read_full
read_full-append stage n xs ys e =
    rw
      (
        length-append xs ys,
        not_short n (length xs) (length ys) e,
        take_exact n xs ys e,
        drop_exact n xs ys e,
      )
      refl

pub fill-append : (h rest : Bytes) → length h ≡ 32 → fill (h ++ rest) ≡ h
unfolding fill
fill-append h rest e = rw (append_assoc h rest zero_hash) (take_exact 32 h (rest ++ zero_hash) e)

pub read_u64-put :
    {A : Type 0} (stage : Stage) (assign : ℕ → Bytes → Progress A) (s : A) (n : ℕ) (rest : Bytes)
    → n < u64
    → read_u64 stage assign s (put_u64 n ++ rest) ≡ assign n rest
unfolding read_uint
read_u64-put stage assign s n rest h =
    rw
      (
        read_full-append stage 8 (put_u64 n) rest (length-le_bytes 8 n),
        read_uint,
        from_le-put_u64 n h,
      )
      refl

pub read_u32-put :
    {A : Type 0} (stage : Stage) (assign : ℕ → Bytes → Progress A) (s : A) (n : ℕ) (rest : Bytes)
    → n < 2 ^ 32
    → read_u32 stage assign s (put_u32 n ++ rest) ≡ assign n rest
unfolding read_uint
read_u32-put stage assign s n rest h =
    rw
      (
        read_full-append stage 4 (put_u32 n) rest (length-le_bytes 4 n),
        read_uint,
        from_le-put_u32 n h,
      )
      refl

pub read_hashes-hashes_bytes :
    (stage : Stage) (hs done old : List Hash) (rest : Bytes)
    → All IsHash hs
    → length old ≡ length hs
    → read_hashes stage (length hs) (length done) (hashes_bytes hs ++ rest) (done ++ old)
      ≡ (ok rest, done ++ hs)
unfolding read_hashes hashes_bytes
read_hashes-hashes_bytes stage [] done [] rest x e = refl
read_hashes-hashes_bytes stage [] done (o ∷ old) rest x e = absurd (omega arith)
read_hashes-hashes_bytes stage (h ∷ hs) done [] rest x e = absurd (omega arith)
read_hashes-hashes_bytes stage (h ∷ hs) done (o ∷ old) rest x e =
    let size : length (done ++ h ∷ []) ≡ suc (length done) =
      omega (arith, length-append done (h ∷ [])) in
    let more : Bytes = hashes_bytes hs ++ rest in
    rw
      (
        append_assoc h (hashes_bytes hs) rest,
        read_full-append stage 32 h more x.0.0,
        read_hashes,
        append_assoc h (hashes_bytes hs) rest,
        fill-append h more x.0.0,
        set-append done old o h,
      )
      (rw (← size, ← append_assoc done (h ∷ []) hs)
        (read_hashes-hashes_bytes stage hs (done ++ h ∷ []) old rest x.1 (omega arith)))

-- A reading that succeeds, and what is read next.
pub chain :
    {A : Type 0} {x r : Progress A} {u : A} {b : Bytes} (f : A → Bytes → Progress A)
    → x ≡ (ok b, u)
    → f u b ≡ r
    → and_then x f ≡ r
unfolding and_then
chain f e h = rw e h
