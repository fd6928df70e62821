-- ===== src/Hash/Sample.antt =====
-- A platform for the tests: its digest starts with a one, so it is never zero.
use go_subtree.Prelude.{
  ℕ, zero, suc, ◌-◌, ◌%◌, ◌^◌, ◌<◌, ◌≤◌, ◌≡◌, ◌≢◌, refl, ap, arith, ℤ, pos, negsuc, ◌∷◌, Option,
  none, some, length, get_or, replicate, All, ltb, ◌==◌, if◌then◌else◌,
}
use go_subtree.Hash.{Bytes, Hash, IsByte, IsHash, zero_hash, hash_eq, hash_eq_iff, Platform}

abbrev pub digest : Bytes → Hash
digest b = 1 ∷ replicate 31 (get_or b 0 0 % 256)

pub replicate-IsByte : (n b : ℕ) → b < 256 → All IsByte (replicate n b)
replicate-IsByte zero b h = tt
replicate-IsByte (suc n) b h = (h, replicate-IsByte n b h)

pub digest-IsHash : (b : Bytes) → IsHash (digest b)
digest-IsHash b = (refl, (omega arith, replicate-IsByte 31 (get_or b 0 0 % 256) (omega arith)))

abbrev pub array_of : Bytes → Option Hash
array_of b = if length b == 32 then some b else none

pub array_of_lem : (b : Bytes) → length b ≡ 32 → array_of b ≡ some b
array_of_lem b e = rw e refl

abbrev pub int_or_none : ℕ → Option ℤ
int_or_none n = if ltb n (2 ^ 63) then some (pos n) else none

pub int_or_none_lem : (n : ℕ) → n < 2 ^ 63 → int_or_none n ≡ some (pos n)
int_or_none_lem n h = ground arith

abbrev pub word_or_none : ℕ → Option ℕ
word_or_none n = if ltb n (2 ^ 32) then some n else none

pub word_or_none_lem : (n : ℕ) → n < 2 ^ 32 → word_or_none n ≡ some n
word_or_none_lem n h = ground arith

abbrev pub need_only : ℕ → ℕ → ℕ
need_only old need = need

pub need-le-need_only : (old need : ℕ) → need ≤ need_only old need
need-le-need_only old need = omega arith

abbrev pub sample : Platform
sample = record {
  equal = hash_eq;
  equal_iff = hash_eq_iff;
  new_hash = array_of;
  new_hash_lem = array_of_lem;
  sum256 = digest;
  sum256-IsHash = digest-IsHash;
  grow = need_only;
  need-le-grow = need-le-need_only;
  max_alloc = 2 ^ 48;
  max_alloc-lt = omega arith;
  int_of_neg_inf = negsuc (2 ^ 63 - 1);
  int_of_nan = negsuc (2 ^ 63 - 1);
  int_of_large = negsuc (2 ^ 63 - 1);
  int_to_uint32 = word_or_none;
  int_to_uint32_lem = word_or_none_lem;
  uint64_to_int = int_or_none;
  uint64_to_int_lem = int_or_none_lem;
}

abbrev pub head : Hash → ℕ
head h = get_or h 0 0

pub nonzero : (h : Hash) → 0 < head h → h ≢ zero_hash
unfolding zero_hash
nonzero h positive e = let same : head h ≡ head zero_hash = ap head e in omega arith
