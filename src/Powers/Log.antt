-- ===== src/Powers/Log.antt =====
-- The logarithms of `Powers` in terms of powers.
use Prim.Native.Nat.{bit_and}
use native.Mathlib.Nat.{pow-suc, pow-le-pow_right, one-le-pow}
use go_subtree.Prelude.{
  ℕ, zero, suc, ◌+◌, ◌-◌, ◌*◌, ◌/◌, ◌%◌, ◌^◌, ◌≤◌, ◌<◌, ◌≡◌, refl, sym, arith, Bool-cases, inl, inr,
  ◌==◌, ltb, ◌≢◌, ==→eq,
}
use mathlib.Core.Path.{subst}
use go_subtree.Prelude.Bits.{bit_and_step, bit_and_self}
use go_subtree.Powers.{bit_len_fuel, bit_len, ceil_log2}

pub pow_step : (k : ℕ) → 2 ^ suc k ≡ 2 * 2 ^ k
pow_step k = omega (arith, pow-suc 2 k)

pub pow_pos : (k : ℕ) → 0 < 2 ^ k
pow_pos k = one-le-pow k 2 (omega arith)

bit_len_fuel_step :
    (f n : ℕ) → bit_len_fuel (suc f) (suc (suc n)) ≡ suc (bit_len_fuel f (suc (suc n) / 2))
unfolding bit_len_fuel
bit_len_fuel_step f n = ground arith

bit_len_fuel_bounds :
    (f n : ℕ) → n ≤ f → (n < 2 ^ bit_len_fuel f n) × (0 < n → 2 ^ bit_len_fuel f n ≤ 2 * n)
unfolding bit_len_fuel
bit_len_fuel_bounds zero n h = (omega arith, λ p. omega arith)
bit_len_fuel_bounds (suc f) zero h = (omega arith, λ p. omega arith)
bit_len_fuel_bounds (suc zero) (suc zero) h = (omega arith, λ p. omega arith)
bit_len_fuel_bounds (suc (suc f)) (suc zero) h = (omega arith, λ p. omega arith)
bit_len_fuel_bounds (suc f) (suc (suc n)) h =
    let halved = bit_len_fuel_step f n in
    let (below, above) = bit_len_fuel_bounds f (suc (suc n) / 2) (omega arith) in
    let step = pow_step (bit_len_fuel f (suc (suc n) / 2)) in
    rw halved (omega (arith, below, step), λ p. omega (arith, above (omega arith), step))

pub lt-bit_len : (n : ℕ) → n < 2 ^ bit_len n
unfolding bit_len
lt-bit_len n = (bit_len_fuel_bounds n n (omega arith)).0

pub bit_len-le : (n : ℕ) → 0 < n → 2 ^ bit_len n ≤ 2 * n
unfolding bit_len
bit_len-le n = (bit_len_fuel_bounds n n (omega arith)).1

-- Powers of two are ordered as their exponents.
pub pow_lt_reflects : (i j : ℕ) → 2 ^ i < 2 ^ j → i < j
pow_lt_reflects i j h = elim (Bool-cases (ltb i j)) [
  | inl y ↦ ground arith
  | inr n ↦
      absurd (omega (arith, pow-le-pow_right {n = 2} (omega arith) {i = j} {j = i} (ground arith)))
]

-- The exponent of a number between two powers is determined.
pub bit_len_unique : (n k : ℕ) → 2 ^ k ≤ 2 * n → n < 2 ^ k → bit_len n ≡ k
bit_len_unique zero k lo hi = absurd (omega (arith, pow_pos k))
bit_len_unique (suc n) k lo hi =
    let p = lt-bit_len (suc n) in
    let q = bit_len-le (suc n) (omega arith) in
    let a = pow_lt_reflects (bit_len (suc n)) (suc k) (omega (arith, pow_step k)) in
    let b = pow_lt_reflects k (suc (bit_len (suc n))) (omega (arith, pow_step (bit_len (suc n)))) in
    omega arith

pub le-ceil_log2 : (n : ℕ) → n ≤ 2 ^ ceil_log2 n
unfolding ceil_log2
le-ceil_log2 n = omega (arith, lt-bit_len (n - 1))

pub ceil_log2-lt : (n : ℕ) → 1 < n → 2 ^ ceil_log2 n < 2 * n
unfolding ceil_log2
ceil_log2-lt n h = omega (arith, bit_len-le (n - 1) (omega arith))

pub bit_len_half : (m : ℕ) → 0 < m → bit_len m ≡ suc (bit_len (m / 2))
bit_len_half zero h = absurd (omega arith)
bit_len_half (suc zero) h = unfold bit_len bit_len_fuel in refl
bit_len_half (suc (suc m)) h =
    let half = suc (suc m) / 2 in
    let lo = bit_len-le half (omega arith) in
    let hi = lt-bit_len half in
    let step = pow_step (bit_len half) in
    bit_len_unique (suc (suc m)) (suc (bit_len half)) (omega arith) (omega arith)

lt_pow : (n : ℕ) → n < 2 ^ n
lt_pow zero = omega arith
lt_pow (suc n) = omega (arith, pow_step n, lt_pow n)

pub ceil_log2-le : (n : ℕ) → ceil_log2 n ≤ n
ceil_log2-le zero = unfold ceil_log2 bit_len bit_len_fuel in omega arith
ceil_log2-le (suc zero) = unfold ceil_log2 bit_len bit_len_fuel in omega arith
ceil_log2-le (suc (suc n)) =
    let small = lt_pow (suc (suc n)) in
    let top = ceil_log2-lt (suc (suc n)) (omega arith) in
    let order =
      pow_lt_reflects (ceil_log2 (suc (suc n))) (suc (suc (suc n)))
        (omega (arith, pow_step (suc (suc n)))) in
    omega arith

-- One more halving, rounded up, for a number above one.
pub ceil_log2_half : (n : ℕ) → 1 < n → ceil_log2 n ≡ suc (ceil_log2 ((n + 1) / 2))
ceil_log2_half n h =
    let same : (n + 1) / 2 - 1 ≡ (n - 1) / 2 = omega arith in
    unfold ceil_log2 in rw same (bit_len_half (n - 1) (omega arith))

pub ceil_log2_pow : (k : ℕ) → ceil_log2 (2 ^ k) ≡ k
ceil_log2_pow zero = unfold ceil_log2 bit_len bit_len_fuel in refl
ceil_log2_pow (suc k) =
    let q = pow_pos k in
    let s = pow_step k in
    unfold ceil_log2 in bit_len_unique (2 ^ suc k - 1) (suc k) (omega arith) (omega arith)

-- `n & (n - 1)` is zero for a power of two and for nothing else.
pub and_pred_pow : (k : ℕ) → bit_and (2 ^ k) (2 ^ k - 1) ≡ 0
and_pred_pow zero = refl
and_pred_pow (suc k) =
    let half : 2 ^ suc k / 2 ≡ 2 ^ k = omega (arith, pow_step k) in
    let low : (2 ^ suc k - 1) / 2 ≡ 2 ^ k - 1 = omega (arith, pow_step k) in
    let ih : bit_and (2 ^ suc k / 2) ((2 ^ suc k - 1) / 2) ≡ 0 = rw (half, low) (and_pred_pow k) in
    omega (arith, bit_and_step (2 ^ suc k) (2 ^ suc k - 1), ih, pow_step k)

-- An odd number above one shares its higher digits with its predecessor.
and_pred_odd : (m : ℕ) → 1 < m → m % 2 ≡ 1 → bit_and m (m - 1) ≢ 0
and_pred_odd m h odd e =
    let high : (m - 1) / 2 ≡ m / 2 = omega arith in
    let digits : bit_and (m / 2) ((m - 1) / 2) ≡ m / 2 = rw high (bit_and_self (m / 2)) in
    omega (arith, bit_and_step m (m - 1), digits)

and_pred_even : (m : ℕ) → m % 2 ≡ 0 → bit_and m (m - 1) ≡ 0 → bit_and (m / 2) (m / 2 - 1) ≡ 0
and_pred_even m even e =
    let high : m / 2 - 1 ≡ (m - 1) / 2 = omega arith in
    rw high (omega (arith, bit_and_step m (m - 1)))

and_pred_fuel : (f n : ℕ) → n ≤ f → 0 < n → bit_and n (n - 1) ≡ 0 → 2 * n ≡ 2 ^ bit_len n
and_pred_fuel zero n h p e = absurd (omega arith)
and_pred_fuel (suc f) zero h p e = absurd (omega arith)
and_pred_fuel (suc f) (suc zero) h p e = unfold bit_len bit_len_fuel in refl
and_pred_fuel (suc f) (suc (suc n)) h p e = elim (Bool-cases (suc (suc n) % 2 == 0)) [
  | inl even ↦
      let ih =
        and_pred_fuel f (suc (suc n) / 2) (omega arith) (omega arith)
          (and_pred_even (suc (suc n)) (ground arith) e) in
      rw (bit_len_half (suc (suc n)) (omega arith))
        (omega (arith, ih, pow_step (bit_len (suc (suc n) / 2)), ==→eq _ _ even))
  | inr odd ↦ absurd (and_pred_odd (suc (suc n)) (omega arith) (ground arith) e)
]

pub and_pred_zero : (n : ℕ) → 0 < n → bit_and n (n - 1) ≡ 0 → n ≡ 2 ^ ceil_log2 n
and_pred_zero n p e =
    let twice = and_pred_fuel n n (omega arith) p e in
    let half = bit_len_half n p in
    let power : n ≡ 2 ^ bit_len (n / 2) =
      omega (arith, pow_step (bit_len (n / 2)), rw half at twice) in
    subst (λ m. m ≡ 2 ^ ceil_log2 m) (sym power) (rw ceil_log2_pow)

pub le_pow_ceil_log2 : (n k : ℕ) → 0 < n → n ≤ 2 ^ k → ceil_log2 n ≤ k
le_pow_ceil_log2 zero k p h = absurd (omega arith)
le_pow_ceil_log2 (suc zero) k p h = unfold ceil_log2 bit_len in omega arith
le_pow_ceil_log2 (suc (suc n)) k p h =
    let below = ceil_log2-lt (suc (suc n)) (omega arith) in
    let order = pow_lt_reflects (ceil_log2 (suc (suc n))) (suc k) (omega (arith, pow_step k)) in
    omega arith
