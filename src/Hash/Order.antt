-- ===== src/Hash/Order.antt =====
-- src/hash.rs: equality and order of hashes, as equality and order of big-endian numbers.
use Prim.Native.Nat.{ℕ}
use native.Mathlib.Nat.{pow-suc}
use world_dat.Base.{
  ◌+◌, ◌*◌, ◌^◌, ◌<◌, compare, ◌≡◌, refl, ap, ◌↔◌, true, List, [], ◌∷◌, length, All, ==_iff, sym,
  subst, digit_lt, arith,
}
use world_dat.Hash.{Blake2Hash, IsHash, eq_bytes, eq, cmp_bytes, cmp}

-- The number that the bytes write, the most significant first.
unfoldable pub value : List ℕ → ℕ
value [] = 0
value (x ∷ xs) = x * 256 ^ length xs + value xs

eq_bytes_iff : (xs ys : List ℕ) → (eq_bytes xs ys ≡ true) ↔ (xs ≡ ys)
unfolding eq_bytes
eq_bytes_iff [] [] = ((λ _. refl), (λ _. refl))
eq_bytes_iff [] (y ∷ ys) = ((λ h. cc), (λ h. cc))
eq_bytes_iff (x ∷ xs) [] = ((λ h. cc), (λ h. cc))
eq_bytes_iff (x ∷ xs) (y ∷ ys) = (
  (λ h. ground (arith, ==_iff x y, eq_bytes_iff xs ys)),
  (λ h. ground (arith, ==_iff x y, eq_bytes_iff xs ys)),
)

-- `==` on hashes holds exactly for equal hashes.
pub eq_iff : (a b : Blake2Hash) → (eq a b ≡ true) ↔ (a ≡ b)
unfolding eq
eq_iff a b = (
  (λ h. ap (λ bs. record { bytes = bs }) ((eq_bytes_iff a.bytes b.bytes).0 h)),
  (λ h. (eq_bytes_iff a.bytes b.bytes).1 (ap (λ h. h.bytes) h)),
)

pub value-lt : (xs : List ℕ) → All (λ b. b < 256) xs → value xs < 256 ^ length xs
unfolding value
value-lt [] h = omega arith
value-lt (x ∷ xs) h = omega (
  arith,
  pow-suc 256 (length xs),
  digit_lt x 256 (256 ^ length xs) (value xs) 0 h.0 (value-lt xs h.1),
)

cmp_bytes-value :
    (xs ys : List ℕ)
    → length xs ≡ length ys
    → All (λ b. b < 256) xs
    → All (λ b. b < 256) ys
    → cmp_bytes xs ys ≡ compare (value xs) (value ys)
unfolding cmp_bytes value
cmp_bytes-value [] [] e hx hy = refl
cmp_bytes-value [] (y ∷ ys) e hx hy = absurd (omega arith)
cmp_bytes-value (x ∷ xs) [] e hx hy = absurd (omega arith)
cmp_bytes-value (x ∷ xs) (y ∷ ys) e hx hy =
    let same : length xs ≡ length ys = omega arith in
    rw (← same) (
      ground (
        arith,
        cmp_bytes-value xs ys same hx.1 hy.1,
        value-lt xs hx.1,
        subst (λ n. value ys < 256 ^ n) (sym same) (value-lt ys hy.1),
        digit_lt x y (256 ^ length xs) (value xs) (value ys),
        digit_lt y x (256 ^ length xs) (value ys) (value xs),
      ))

-- `cmp` orders hashes of 32 bytes as the 256-bit numbers that they write.
pub cmp-value :
    {a b : Blake2Hash} → IsHash a → IsHash b → cmp a b ≡ compare (value a.bytes) (value b.bytes)
unfolding cmp
cmp-value {a} {b} ha hb = cmp_bytes-value a.bytes b.bytes (omega arith) ha.u8s hb.u8s
