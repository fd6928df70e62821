-- ===== src/Powers/Tests.antt =====
-- Runs of the functions of power_of_two.go.
use go_subtree.Prelude.{ℕ, ◌*◌, ◌^◌, ◌≤◌, ◌<◌, ◌≡◌, ◌↔◌, refl, arith, true, false, pos, negsuc}
use go_subtree.Powers.{
  is_power_of_two, ceil_power_of_two, next_power_of_two, next_lower_power_of_two, bit_len,
}
use go_subtree.Powers.Laws.{is_power_of_two_iff, next_lower_power_of_two_bounds}

seven_refused : is_power_of_two (pos 7) ≡ false
unfolding is_power_of_two
seven_refused = refl

negative_ceil : ceil_power_of_two (negsuc 4) ≡ 1
unfolding ceil_power_of_two
negative_ceil = refl

next_of_nine : next_power_of_two 9 ≡ 16
unfolding next_power_of_two go_subtree.Powers.floor_log2 bit_len
next_of_nine = refl

lower_of_nine : next_lower_power_of_two 9 ≡ 8
unfolding next_lower_power_of_two bit_len
lower_of_nine = refl

is_power_of_two_iff_example : (is_power_of_two (pos 8) ≡ true) ↔ ((k : ℕ) × (pos 8 ≡ pos (2 ^ k)))
is_power_of_two_iff_example = is_power_of_two_iff (pos 8)

next_lower_power_of_two_bounds_example :
    (is_power_of_two (pos (next_lower_power_of_two 9)) ≡ true)
    × (next_lower_power_of_two 9 ≤ 9)
    × (9 < 2 * next_lower_power_of_two 9)
next_lower_power_of_two_bounds_example = next_lower_power_of_two_bounds 9 (omega arith)
