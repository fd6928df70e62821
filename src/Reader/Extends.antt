-- ===== src/Reader/Extends.antt =====
-- A reader that succeeds on an input does the same on a longer one, and leaves the additional bytes.
use go_subtree.Prelude.{
  ℕ, zero, suc, ◌≤◌, ◌≡◌, ◌≢◌, refl, sym, ap, ◌∙◌, ◌⊎◌, inl, inr, arith, List, [], ◌∷◌, ◌++◌,
  length, length-append, take, drop, set, ltb, Bool-cases, ltb-false→le, le→ltb-false,
  if◌then◌else◌, ◌==◌,
}
use go_subtree.Errors.{
  Result, ok, err, panic, Stage, Error, read_failed, eof, unexpected_eof, ok-injective, err-ne-ok,
  panic-ne-ok,
}
use go_subtree.Hash.{Bytes, Hash, zero_hash}
use go_subtree.Reader.{Progress, and_then, from_le, read_full, fill, read_hashes}
use go_subtree.Reader.{read_uint}

take_more : (n : ℕ) (x y : Bytes) → n ≤ length x → take n (x ++ y) ≡ take n x
take_more zero x y h = refl
take_more (suc n) [] y h = absurd (omega arith)
take_more (suc n) (b ∷ x) y h = ap (◌∷◌ b) (take_more n x y (omega arith))

drop_more : (n : ℕ) (x y : Bytes) → n ≤ length x → drop n (x ++ y) ≡ drop n x ++ y
drop_more zero x y h = refl
drop_more (suc n) [] y h = absurd (omega arith)
drop_more (suc n) (b ∷ x) y h = drop_more n x y (omega arith)

pub read_full_long :
    (stage : Stage) (n : ℕ) (x : Bytes)
    → n ≤ length x
    → read_full stage n x ≡ ok (take n x, drop n x)
unfolding read_full
read_full_long stage n x h = rw (le→ltb-false (length x) n h) refl

pub read_full_more :
    (stage : Stage) (n : ℕ) (x y : Bytes)
    → n ≤ length x
    → read_full stage n (x ++ y) ≡ ok (take n x, drop n x ++ y)
read_full_more stage n x y h =
    let long : n ≤ length (x ++ y) = omega (arith, length-append x y) in
    rw (read_full_long stage n (x ++ y) long, take_more n x y h, drop_more n x y h) refl

-- A read either has its bytes or fails.
pub read_full-cases :
    (stage : Stage) (n : ℕ) (x : Bytes)
    → (n ≤ length x) ⊎ ((e : Error) × (read_full stage n x ≡ err e))
unfolding read_full
read_full-cases stage n x = elim (Bool-cases (ltb (length x) n)) [
  | inl y ↦ inr (read_failed stage (if length x == 0 then eof else unexpected_eof), rw y refl)
  | inr z ↦ inl (ltb-false→le _ _ z)
]

pub fill_more : (x y : Bytes) → 32 ≤ length x → fill (x ++ y) ≡ fill x
unfolding fill
fill_more x y h =
    let long : 32 ≤ length (x ++ y) = omega (arith, length-append x y) in
    take_more 32 (x ++ y) zero_hash long ∙ take_more 32 x y h ∙ sym (take_more 32 x zero_hash h)

abbrev pub Extends : {A : Type 0} → (Bytes → Progress A) → Type 0
Extends {A} f = (x y r : Bytes) (t : A) → f x ≡ (ok r, t) → f (x ++ y) ≡ (ok (r ++ y), t)

module _ {A : Type 0} where
  pub no_error : {e : Error} {s t : A} {r : Bytes} → ◌≢◌ {A = Result Bytes × A} (err e, s) (ok r, t)
  no_error h = err-ne-ok (ap (λ (q : Result Bytes × A). q.0) h)

  pub no_panic : {s t : A} {r : Bytes} → ◌≢◌ {A = Result Bytes × A} (panic, s) (ok r, t)
  no_panic h = panic-ne-ok (ap (λ (q : Result Bytes × A). q.0) h)

  pub rest_of : {a r : Bytes} {s t : A} → ◌≡◌ {A = Result Bytes × A} (ok a, s) (ok r, t) → a ≡ r
  rest_of h = ok-injective (ap (λ (q : Result Bytes × A). q.0) h)

  pub state_of : {a r : Bytes} {s t : A} → ◌≡◌ {A = Result Bytes × A} (ok a, s) (ok r, t) → s ≡ t
  state_of h = ap (λ (q : Result Bytes × A). q.1) h

  pub longer :
      {a r : Bytes} {s t : A} (y : Bytes)
      → ◌≡◌ {A = Result Bytes × A} (ok a, s) (ok r, t)
      → ◌≡◌ {A = Result Bytes × A} (ok (a ++ y), s) (ok (r ++ y), t)
  longer y h = let same = rest_of h in let kept = state_of h in cc

pub read_uint-Extends :
    {A : Type 0} (w : ℕ) (stage : Stage) (assign : ℕ → Bytes → Progress A) (s : A)
    → ((n : ℕ) → Extends (assign n))
    → Extends (read_uint w stage assign s)
unfolding read_uint
read_uint-Extends w stage assign s h x y r t e = elim (read_full-cases stage w x) [
  | inl long ↦
      let done : assign (from_le (take w x)) (drop w x) ≡ (ok r, t) =
        rw (read_full_long stage w x long, read_uint) at e in
      rw (read_full_more stage w x y long, read_uint) (h (from_le (take w x)) (drop w x) y r t done)
  | inr (k, f) ↦ absurd (no_error (rw (f, read_uint) at e))
]

pub read_hashes_more :
    (stage : Stage) (k i : ℕ) (x y r : Bytes) (old new : List Hash)
    → read_hashes stage k i x old ≡ (ok r, new)
    → read_hashes stage k i (x ++ y) old ≡ (ok (r ++ y), new)
unfolding read_hashes
read_hashes_more stage zero i x y r old new e = longer y e
read_hashes_more stage (suc k) i x y r old new e = elim (read_full-cases stage 32 x) [
  | inl long ↦
      rw (read_full_more stage 32 x y long, read_hashes, fill_more x y long)
        (read_hashes_more stage k (suc i) (drop 32 x) y r (set old i (fill x)) new
          (rw (read_full_long stage 32 x long, read_hashes) at e))
  | inr (c, f) ↦ absurd (no_error (rw (f, read_hashes) at e))
]

-- What `and_then` succeeds with, its second part has returned.
pub and_then_inv :
    {A : Type 0} (q : Progress A) (g : A → Bytes → Progress A) (r : Bytes) (t : A)
    → and_then q g ≡ (ok r, t)
    → (b : Bytes) × (u : A) × (q ≡ (ok b, u)) × (g u b ≡ (ok r, t))
unfolding and_then
and_then_inv (ok b, u) g r t e = (b, u, refl, e)
and_then_inv (err k, u) g r t e = absurd (no_error e)
and_then_inv (panic, u) g r t e = absurd (no_panic e)

pub and_then-Extends :
    {A : Type 0} (f : Bytes → Progress A) (g : A → Bytes → Progress A)
    → Extends f
    → ((u : A) → Extends (g u))
    → Extends (λ x. and_then (f x) g)
unfolding and_then
and_then-Extends f g hf hg x y r t e =
    let (b, u, first, second) = and_then_inv (f x) g r t e in
    rw (hf x y b u first) (hg u b y r t second)

-- A reader of a part inside a reader of the whole.
pub inside :
    {A B : Type 0} (q q' : Progress A) (put : A → B) (y r : Bytes) (t : B)
    → ((new : A) → q ≡ (ok r, new) → q' ≡ (ok (r ++ y), new))
    → ◌≡◌ {A = Progress B} (q.0, put q.1) (ok r, t)
    → ◌≡◌ {A = Progress B} (q'.0, put q'.1) (ok (r ++ y), t)
inside {B = B} (ok a, m) q' put y r t more e =
    let found : q' ≡ (ok (r ++ y), m) = more m (rw (rest_of e) refl) in
    rw found (ap (λ (u : B). (ok (r ++ y), u)) (state_of e))
inside (err k, m) q' put y r t more e = absurd (no_error e)
inside (panic, m) q' put y r t more e = absurd (no_panic e)
