-- ===== src/Base/Powers.antt =====
-- Powers of two.
use Prim.Native.Nat.{ℕ, zero, suc, ◌+◌, ◌*◌, ◌^◌, ◌<◌}
use mathlib.Core.Path.{◌≡◌, ap}
use native.Mathlib.Nat.{pow-suc, suc-add, zero-add}
use native.Mathlib.Omega.{arith}

pub pow-add : (a b : ℕ) → 2 ^ (a + b) ≡ 2 ^ a * 2 ^ b
pow-add zero b = rw zero-add (omega arith)
pow-add (suc a) b = rw suc-add (
    omega (
      arith,
      pow-suc 2 (a + b),
      ap (λ (t : ℕ). t * 2) (pow-add a b),
      ap (λ (t : ℕ). t * 2 ^ b) (pow-suc 2 a),
    ))

pub pow-pos : (a : ℕ) → 0 < 2 ^ a
pow-pos zero = omega arith
pow-pos (suc a) = omega (arith, pow-suc 2 a, pow-pos a)

-- A higher leading digit makes the larger number, whatever follows.
pub digit_lt : (x y p v w : ℕ) → x < y → v < p → x * p + v < y * p + w
digit_lt x y p v w h hv = grind arith
