-- ===== src/Powers/Laws.antt =====
-- What the functions of power_of_two.go return.
use native.Mathlib.Nat.{pow-le-pow_right}
use go_subtree.Prelude.{
  ℕ, zero, suc, ◌-◌, ◌*◌, ◌^◌, ◌≤◌, ◌<◌, ◌≡◌, ◌≢◌, ◌↔◌, refl, ap, arith, true, false, Bool-cases,
  inl, inr, ℤ, pos, negsuc, ◌==◌, ==→eq, ==-false→ne, ◌/◌,
}
use mathlib.Core.Bool.{false≢true}
use Prim.Native.Nat.{bit_and}
use go_subtree.Powers.{
  bit_len, ceil_log2, floor_log2, ceil_power_of_two, is_power_of_two, next_power_of_two,
  next_lower_power_of_two,
}
use go_subtree.Powers.Log.{
  pow_step, pow_pos, lt-bit_len, bit_len-le, le-ceil_log2, and_pred_pow, and_pred_zero,
  le_pow_ceil_log2, bit_len_half, bit_len_unique,
}

accepted : (n : ℤ) → is_power_of_two n ≡ true → (k : ℕ) × (n ≡ pos (2 ^ k))
unfolding is_power_of_two
accepted (pos zero) h = absurd (false≢true h)
accepted (pos (suc n)) h =
    let pred : suc n - 1 ≡ n = omega arith in
    let zeros : bit_and (suc n) (suc n - 1) ≡ 0 = rw pred (==→eq _ _ h) in
    (ceil_log2 (suc n), ap pos (and_pred_zero (suc n) (omega arith) zeros))
accepted (negsuc n) h = absurd (false≢true h)

accepts_power : (m k : ℕ) → m ≡ 2 ^ k → is_power_of_two (pos m) ≡ true
unfolding is_power_of_two
accepts_power zero k e = absurd (omega (arith, pow_pos k))
accepts_power (suc n) k e =
    let pred : n ≡ 2 ^ k - 1 = omega arith in
    let zeros : bit_and (suc n) n ≡ 0 = rw (e, pred) (and_pred_pow k) in ground arith

-- `IsPowerOfTwo` accepts exactly the powers of two, of all values of an `int`.
pub is_power_of_two_iff : (n : ℤ) → (is_power_of_two n ≡ true) ↔ ((k : ℕ) × (n ≡ pos (2 ^ k)))
is_power_of_two_iff n = (accepted n, λ (k, e). rw e (accepts_power (2 ^ k) k refl))

-- For a positive number `CeilPowerOfTwo` returns a power of two that is at least the number, and
-- at most any other such power.
pub ceil_power_of_two_least :
    (n : ℕ)
    → 0 < n
    → (is_power_of_two (pos (ceil_power_of_two (pos n))) ≡ true)
      × (n ≤ ceil_power_of_two (pos n))
      × ((k : ℕ) → n ≤ 2 ^ k → ceil_power_of_two (pos n) ≤ 2 ^ k)
unfolding ceil_power_of_two
ceil_power_of_two_least zero p = absurd (omega arith)
ceil_power_of_two_least (suc n) p = (
  accepts_power (2 ^ ceil_log2 (suc n)) (ceil_log2 (suc n)) refl,
  le-ceil_log2 (suc n),
  λ k h. pow-le-pow_right {n = 2} (omega arith) (le_pow_ceil_log2 (suc n) k p h),
)

-- The two logarithms differ by one where the number is no power of two.
floor_log2_lem : (n : ℕ) → 0 < n → bit_and n (n - 1) ≢ 0 → suc (floor_log2 n) ≡ ceil_log2 n
floor_log2_lem n p h =
    let shape = bit_len_half n p in
    let top = pow_step (bit_len (n / 2)) in
    let lo = rw shape at (bit_len-le n p) in
    let hi = rw shape at (lt-bit_len n) in
    let strict : n ≢ 2 ^ bit_len (n / 2) = λ e. h (rw e (and_pred_pow (bit_len (n / 2)))) in
    let pred : bit_len (n - 1) ≡ suc (bit_len (n / 2)) =
      bit_len_unique (n - 1) (suc (bit_len (n / 2))) (omega arith) (omega arith) in
    unfold floor_log2 ceil_log2 in omega (arith, pred, shape)

pub next_power_of_two-pow : (n : ℕ) → 0 < n → next_power_of_two n ≡ 2 ^ ceil_log2 n
unfolding next_power_of_two
next_power_of_two-pow n p = elim (Bool-cases (bit_and n (n - 1) == 0)) [
  | inl e ↦ rw e (and_pred_zero n p (==→eq _ _ e))
  | inr e ↦ rw e (ap (λ k. 2 ^ k) (floor_log2_lem n p (==-false→ne _ _ e)))
]

-- On a positive number `NextPowerOfTwo`, which tests bits, and `CeilPowerOfTwo`, which does not,
-- return the same power.
pub next_power_of_two-ceil_power_of_two :
    (n : ℕ) → 0 < n → next_power_of_two n ≡ ceil_power_of_two (pos n)
next_power_of_two-ceil_power_of_two zero p = absurd (omega arith)
next_power_of_two-ceil_power_of_two (suc n) p =
    unfold ceil_power_of_two in next_power_of_two-pow (suc n) p

-- `NextLowerPowerOfTwo` of a positive number is a power of two that is at most the number and more
-- than half of it; so it is the number itself where that is a power of two.
pub next_lower_power_of_two_bounds :
    (x : ℕ)
    → 0 < x
    → (is_power_of_two (pos (next_lower_power_of_two x)) ≡ true)
      × (next_lower_power_of_two x ≤ x)
      × (x < 2 * next_lower_power_of_two x)
unfolding next_lower_power_of_two
next_lower_power_of_two_bounds zero p = absurd (omega arith)
next_lower_power_of_two_bounds (suc x) p =
    let shape = bit_len_half (suc x) p in
    let exponent : bit_len (suc x) - 1 ≡ bit_len (suc x / 2) = omega arith in
    let top = pow_step (bit_len (suc x / 2)) in
    let lo = rw shape at (bit_len-le (suc x) p) in
    let hi = rw shape at (lt-bit_len (suc x)) in
    let positive : (suc x == 0) ≡ false = ground arith in
    rw positive (
      rw exponent (
        accepts_power (2 ^ bit_len (suc x / 2)) (bit_len (suc x / 2)) refl,
        omega arith,
        omega arith,
      ))
