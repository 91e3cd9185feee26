-- ===== src/Base/Sums.antt =====
-- Sums over a range of indices, and round a circle of indices.
use Prim.Native.Nat.{ℕ, zero, suc, ◌+◌, ◌-◌, ◌≤◌}
use mathlib.Core.Path.{◌≡◌, refl, ap}
use native.Mathlib.Omega.{arith}

-- `f i + f (i + 1) + …`, `n` of them
unfoldable pub sum_up : (ℕ → ℕ) → ℕ → ℕ → ℕ
sum_up f i zero = 0
sum_up f i (suc n) = f i + sum_up f (suc i) n

module _ (f : ℕ → ℕ) where
  pub sum_up-add : (i a b : ℕ) → sum_up f i (a + b) ≡ sum_up f i a + sum_up f (i + a) b
  unfolding sum_up
  sum_up-add i zero b = omega (
    arith,
    ap (λ n. sum_up f i n) {x = 0 + b} {y = b} (omega arith),
    ap (λ k. sum_up f k b) {x = i + 0} {y = i} (omega arith),
  )
  sum_up-add i (suc a) b = omega (
    arith,
    ap (λ n. sum_up f i n) {x = suc a + b} {y = suc (a + b)} (omega arith),
    sum_up-add (suc i) a b,
    ap (λ k. sum_up f k b) {x = suc i + a} {y = i + suc a} (omega arith),
  )

  pub sum_up-first : (i n : ℕ) → sum_up f i (suc n) ≡ f i + sum_up f (suc i) n
  unfolding sum_up
  sum_up-first i n = refl

  pub sum_up-last : (i n : ℕ) → sum_up f i (suc n) ≡ sum_up f i n + f (i + n)
  unfolding sum_up
  sum_up-last i n =
      omega (arith, ap (λ k. sum_up f i k) {x = suc n} {y = n + 1} (omega arith), sum_up-add i n 1)

  module _ (n : ℕ) (circle : (i : ℕ) → f (i + n) ≡ f i) where
    sum_up-circle : (i k : ℕ) → sum_up f (i + n) k ≡ sum_up f i k
    unfolding sum_up
    sum_up-circle i zero = refl
    sum_up-circle i (suc k) = omega (
      arith,
      circle i,
      ap (λ j. sum_up f j k) {x = suc (i + n)} {y = suc i + n} (omega arith),
      sum_up-circle (suc i) k,
    )

    -- Once round from any index is the whole sum.
    pub sum_up-rotate : (t : ℕ) → t ≤ n → sum_up f t n ≡ sum_up f 0 n
    sum_up-rotate t h = omega (
      arith,
      ap (λ k. sum_up f t k) {x = n} {y = (n - t) + t} (omega arith),
      sum_up-add t (n - t) t,
      ap (λ k. sum_up f k t) {x = t + (n - t)} {y = 0 + n} (omega arith),
      sum_up-circle 0 t,
      ap (λ k. sum_up f 0 k) {x = n} {y = t + (n - t)} (omega arith),
      sum_up-add 0 t (n - t),
      ap (λ k. sum_up f k (n - t)) {x = 0 + t} {y = t} (omega arith),
    )
