-- ===== src/Powers.antt =====
-- power_of_two.go, compare.go, and the two expressions over `math.Log2` that the other files share.
-- `math.Log2` is exact here; the one over float64 agrees below 2 ^ 48, above every slice length.
pub mod Log
pub mod Laws
mod Tests
use Prim.Native.Nat.{bit_and}
use go_subtree.Prelude.{
  ℕ, zero, suc, ◌-◌, ◌/◌, ◌^◌, Bool, true, false, ℤ, pos, negsuc, ltb, ◌==◌, if◌then◌else◌,
}

bit_len_fuel : ℕ → ℕ → ℕ
bit_len_fuel zero n = 0
bit_len_fuel (suc f) n = let rest = bit_len_fuel f (n / 2) in if n == 0 then 0 else suc rest

-- `bits.Len`; a number has fewer bits than its value, so `n` rounds are enough.
unfoldable pub bit_len : ℕ → ℕ
unfolding bit_len_fuel
bit_len n = bit_len_fuel n n

-- `int(math.Ceil(math.Log2(float64(n))))` for a positive `n`.
unfoldable pub ceil_log2 : ℕ → ℕ
ceil_log2 n = bit_len (n - 1)

-- `uint(math.Log2(float64(n)))` for a positive `n`.
unfoldable pub floor_log2 : ℕ → ℕ
floor_log2 n = bit_len n - 1

pub ceil_power_of_two : ℤ → ℕ
ceil_power_of_two (pos zero) = 1
ceil_power_of_two (pos (suc n)) = 2 ^ ceil_log2 (suc n)
ceil_power_of_two (negsuc n) = 1

unfoldable pub is_power_of_two : ℤ → Bool
is_power_of_two (pos zero) = false
is_power_of_two (pos (suc n)) = bit_and (suc n) n == 0
is_power_of_two (negsuc n) = false

-- Its callers pass a length, so the argument is a natural number.
unfoldable pub next_power_of_two : ℕ → ℕ
next_power_of_two n = if bit_and n (n - 1) == 0 then n else 2 ^ suc (floor_log2 n)

pub next_lower_power_of_two : ℕ → ℕ
next_lower_power_of_two x = if x == 0 then 0 else 2 ^ (bit_len x - 1)

-- `Min` of compare.go at `int`.
unfoldable pub min_of : ℕ → ℕ → ℕ
min_of a b = if ltb a b then a else b
