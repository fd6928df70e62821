-- ===== src/Prelude/Bits.antt =====
-- Two laws of `&` that the power-of-two tests need, from the digits by which it is defined.
use Prim.Native.Nat.{
  ℕ, zero, suc, ◌+◌, ◌-◌, ◌*◌, ◌/◌, ◌%◌, ◌≤◌, ◌<◌, min, bit_and, digits, bit_and-bitwise,
}
use mathlib.Core.Path.{◌≡◌, refl, sym, ap, ◌∙◌}
use native.Mathlib.Omega.{arith}

-- The `&` of the lowest `rounds` digits.
abbrev low_and : ℕ → ℕ → ℕ → ℕ
low_and rounds x y = digits (λ y. zero) min rounds x y

-- One round more than there are digits changes nothing.
one_round : (rounds x y : ℕ) → x ≤ rounds → low_and (suc rounds) x y ≡ low_and rounds x y
one_round zero zero y few = refl
one_round (suc rounds) zero y few = refl
one_round zero (suc x) y few = absurd (omega arith)
one_round (suc rounds) (suc x) y few =
    ap (λ (rest : ℕ). rest * 2 + min (suc x % 2) (y % 2))
      (one_round rounds (suc x / 2) (y / 2) (omega arith))

enough_rounds : (extra x y : ℕ) → low_and (extra + x) x y ≡ bit_and x y
enough_rounds zero x y = let none : 0 + x ≡ x = omega arith in rw none (sym (bit_and-bitwise x y))
enough_rounds (suc extra) x y =
    let one : suc extra + x ≡ suc (extra + x) = omega arith in
    rw one (one_round (extra + x) x y (omega arith) ∙ enough_rounds extra x y)

-- The lowest binary digit of `a & b`, and the rest.
pub bit_and_step : (x y : ℕ) → bit_and x y ≡ min (x % 2) (y % 2) + bit_and (x / 2) (y / 2) * 2
bit_and_step zero b =
    let nothing : (y : ℕ) → bit_and 0 y ≡ 0 = λ y. bit_and-bitwise 0 y in
    omega (arith, nothing b, nothing (b / 2))
bit_and_step (suc n) b =
    let half = suc n / 2 in
    let split : n - half + half ≡ n = omega arith in
    let rest : low_and n half (b / 2) ≡ bit_and half (b / 2) =
      rw split at (enough_rounds (n - half) half (b / 2)) in
    omega
      (arith, bit_and-bitwise (suc n) b, ap (λ (high : ℕ). high * 2 + min (suc n % 2) (b % 2)) rest)

self_below : (bound a : ℕ) → a < bound → bit_and a a ≡ a
self_below zero a below = absurd (omega arith)
self_below (suc bound) zero below = bit_and-bitwise 0 0
self_below (suc bound) (suc a) below =
    let half = self_below bound (suc a / 2) (omega arith) in
    omega (arith, half, bit_and_step (suc a) (suc a))

pub bit_and_self : (a : ℕ) → bit_and a a ≡ a
bit_and_self a = self_below (a + 1) a (omega arith)
