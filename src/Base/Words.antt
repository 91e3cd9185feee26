-- ===== src/Base/Words.antt =====
-- `usize` of 64 bits, with the wrap of a release build.
use Prim.Native.Nat.{ℕ, ◌+◌, ◌-◌, ◌*◌, ◌%◌, ◌^◌, ◌≤◌, ◌<◌}
use mathlib.Core.Path.{◌≡◌}
use native.Mathlib.Nat.{mod-eq_of_lt}
use native.Mathlib.Omega.{arith}

unfoldable pub add_usize : ℕ → ℕ → ℕ
add_usize a b = (a + b) % 2 ^ 64

unfoldable pub sub_usize : ℕ → ℕ → ℕ
sub_usize a b = (a + 2 ^ 64 - b) % 2 ^ 64

unfoldable pub mul_usize : ℕ → ℕ → ℕ
mul_usize a b = a * b % 2 ^ 64

pub add_usize_lem : (a b : ℕ) → a + b < 2 ^ 64 → add_usize a b ≡ a + b
unfolding add_usize
add_usize_lem a b h = mod-eq_of_lt h

pub mul_usize_lem : (a b : ℕ) → a * b < 2 ^ 64 → mul_usize a b ≡ a * b
unfolding mul_usize
mul_usize_lem a b h = mod-eq_of_lt h

-- A row of a table with `n` rows of `s` columns ends within the table.
pub row_end : (r n s : ℕ) → r < n → r * s + s ≤ n * s
row_end r n s h = grind arith

-- A row ends where a later one begins, or before.
pub row_lt : (r q s : ℕ) → r < q → r * s + s ≤ q * s
row_lt r q s h = grind arith
