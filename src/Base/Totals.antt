-- ===== src/Base/Totals.antt =====
-- Sums over the elements of a list.
use Prim.Native.Nat.{ℕ, zero, suc, ◌+◌, ◌*◌}
use mathlib.Core.List.{List, [], ◌∷◌, ◌++◌}
use mathlib.Core.Option.{some}
use mathlib.Core.Path.{◌≡◌, ap}
use native.Mathlib.Omega.{arith}
use world_dat.Base.Lists.{get_elem?, set, length, All}

module _ {ℓ} {A : Type ℓ} (f : A → ℕ) where
  abbrev pub total : List A → ℕ
  total [] = 0
  total (x ∷ xs) = f x + total xs

  pub total-append : (xs ys : List A) → total (xs ++ ys) ≡ total xs + total ys
  total-append [] ys = omega arith
  total-append (x ∷ xs) ys = omega (arith, total-append xs ys)

  -- One element is exchanged for another.
  pub total-set :
      (xs : List A) (i : ℕ) (x : A) {y : A}
      → get_elem? xs i ≡ some y
      → total (set xs i x) + f y ≡ total xs + f x
  total-set [] i x e = absurd (cc e)
  total-set (z ∷ xs) zero x {y} e = let same : z ≡ y = cc in omega (arith, ap f same)
  total-set (z ∷ xs) (suc i) x e = omega (arith, total-set xs i x e)

  pub total_constant : (n : ℕ) (xs : List A) → All (λ x. f x ≡ n) xs → total xs ≡ n * length xs
  total_constant n [] h = omega arith
  total_constant n (x ∷ xs) h = ground (arith, total_constant n xs h.1, h.0)
