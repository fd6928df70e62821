-- ===== src/Reader/Words.antt =====
-- Numbers written low byte first.
use go_subtree.Prelude.{ℕ, zero, suc, ◌*◌, ◌/◌, ◌^◌, ◌<◌, ◌≡◌, refl, ap, arith, length}
use go_subtree.Node.{u64}
use go_subtree.Reader.{le_bytes, from_le, put_u64, put_u32}

-- `256 ^ w`, by recursion.
abbrev range : ℕ → ℕ
range zero = 1
range (suc w) = 256 * range w

from_le-le_bytes : (w n : ℕ) → n < range w → from_le (le_bytes w n) ≡ n
unfolding from_le le_bytes
from_le-le_bytes zero n h = omega arith
from_le-le_bytes (suc w) n h = omega (arith, from_le-le_bytes w (n / 256) (omega arith))

pub from_le-put_u64 : (n : ℕ) → n < u64 → from_le (put_u64 n) ≡ n
from_le-put_u64 n h = from_le-le_bytes 8 n h

pub from_le-put_u32 : (n : ℕ) → n < 2 ^ 32 → from_le (put_u32 n) ≡ n
from_le-put_u32 n h = from_le-le_bytes 4 n h

pub length-le_bytes : (w n : ℕ) → length (le_bytes w n) ≡ w
unfolding le_bytes
length-le_bytes zero n = refl
length-le_bytes (suc w) n = ap suc (length-le_bytes w (n / 256))
