-- ===== src/Hash/Documented.antt =====
-- src/hash.rs: `leading_zeros` against its documentation, "the number of leading zeros in the
-- number, minus one", 0 if that would be -1.
use native.Mathlib.Nat.{suc-add, zero-add, pow-suc}
use world_dat.Base.{
  ℕ, zero, suc, ◌+◌, ◌-◌, ◌*◌, ◌^◌, ◌≤◌, ◌<◌, ◌≡◌, refl, ap, ◌∙◌, ◌≢◌, List, ◌∷◌, ◌++◌, length,
  replicate, All, ltb, lt→ltb, le→ltb, Bool-cases, ltb→lt, ltb→le, inl, inr, pow-add, pow-pos,
  digit_lt, length-replicate, length-append, append_assoc, arith, subst,
}
use world_dat.Hash.{Blake2Hash, blake2_hash_size, max_power, int_leading_zeros, leading_zeros}
use world_dat.Hash.Order.{value, value-lt}
use world_dat.Hash.Zeros.{leading_zeros_last, int_leading_zeros-lt}

-- The documented number: the leading zeros of the whole 256-bit number.
unfoldable pub documented_zeros : Blake2Hash → ℕ
documented_zeros h = int_leading_zeros max_power (value h.bytes) - 1

-- Further digits in front of a small number are zeros.
int_leading_zeros-skip :
    (k w v : ℕ) → v < 2 ^ w → int_leading_zeros (k + w) v ≡ k + int_leading_zeros w v
unfolding int_leading_zeros
int_leading_zeros-skip zero w v h = rw (zero-add, zero-add)
int_leading_zeros-skip (suc k) w v h =
    let small : v < 2 ^ (k + w) = rw pow-add (grind (arith, pow-pos k)) in
    rw (suc-add, lt→ltb v (2 ^ (k + w)) small) (omega (arith, int_leading_zeros-skip k w v h))

-- The leading digit decides, whatever follows.
int_leading_zeros-digit :
    (k w x v : ℕ)
    → 0 < x
    → x < 2 ^ k
    → v < 2 ^ w
    → int_leading_zeros (k + w) (x * 2 ^ w + v) ≡ int_leading_zeros k x
unfolding int_leading_zeros
int_leading_zeros-digit zero w x v p h hv = absurd (omega arith)
int_leading_zeros-digit (suc k) w x v p h hv = elim (Bool-cases (ltb x (2 ^ k))) [
  | inl lt ↦
      let below : x * 2 ^ w + v < 2 ^ (k + w) =
        rw pow-add (omega (arith, digit_lt x (2 ^ k) (2 ^ w) v 0 (ltb→lt x _ lt) hv)) in
      rw (suc-add, lt, lt→ltb _ _ below)
        (ap suc (int_leading_zeros-digit k w x v p (ltb→lt x _ lt) hv))
  | inr ge ↦
      let over : 2 ^ (k + w) ≤ x * 2 ^ w + v = rw pow-add (grind (arith, ltb→le x (2 ^ k) ge)) in
      rw (suc-add, ge, le→ltb _ _ over)
]

pow_bytes : (n : ℕ) → 256 ^ n ≡ 2 ^ (n * 8)
pow_bytes zero = refl
pow_bytes (suc n) = omega (
  arith,
  pow-suc 256 n,
  pow_bytes n,
  ap (λ (t : ℕ). 2 ^ t) {x = suc n * 8} {y = n * 8 + 8} (omega arith),
  pow-add (n * 8) 8,
)

-- The leading zeros of a number of bytes whose first byte is not zero are those of that byte.
zeros-value :
    (x : ℕ) (rest : List ℕ)
    → 0 < x
    → x < 256
    → All (λ b. b < 256) rest
    → int_leading_zeros (8 + length rest * 8) (value (x ∷ rest)) ≡ int_leading_zeros 8 x
unfolding value
zeros-value x rest p h hs = rw (pow_bytes (length rest)) (
    int_leading_zeros-digit 8 (length rest * 8) x (value rest) p h
      (subst (λ n. value rest < n) (pow_bytes (length rest)) (value-lt rest hs)))

value-replicate : (i : ℕ) (bs : List ℕ) → value (replicate i 0 ++ bs) ≡ value bs
unfolding value
value-replicate zero bs = refl
value-replicate (suc i) bs = omega (arith, value-replicate i bs)

documented_zeros_lem :
    (i x : ℕ) (rest : List ℕ)
    → i + suc (length rest) ≡ blake2_hash_size
    → x ≢ 0
    → x < 256
    → All (λ b. b < 256) rest
    → documented_zeros (record { bytes = replicate i 0 ++ x ∷ rest })
      ≡ 8 * i + int_leading_zeros 8 x - 1
unfolding documented_zeros
documented_zeros_lem i x rest e ne h hs =
    let width : max_power ≡ i * 8 + (8 + length rest * 8) = omega arith in
    let fits : value (x ∷ rest) < 2 ^ (8 + length rest * 8) =
      subst (λ n. value (x ∷ rest) < n)
        (pow_bytes (suc (length rest)) ∙ ap (λ (t : ℕ). 2 ^ t) (omega arith))
        (value-lt (x ∷ rest) (h, hs)) in
    rw (value-replicate i (x ∷ rest), width, int_leading_zeros-skip (i * 8) _ _ fits)
      (omega (arith, zeros-value x rest (omega arith) h hs))

replicate-u8s : (k : ℕ) → All (λ b. b < 256) (replicate k 0)
replicate-u8s zero = tt
replicate-u8s (suc k) = (omega arith, replicate-u8s k)

-- For 32 bytes with a single one that is not zero, `leading_zeros` is the documented number.
pub leading_zeros_single :
    (i x k : ℕ)
    → i + suc k ≡ blake2_hash_size
    → x ≢ 0
    → x < 256
    → let h : Blake2Hash = record { bytes = replicate i 0 ++ x ∷ replicate k 0 } in
      leading_zeros h ≡ documented_zeros h
leading_zeros_single i x k e ne h = omega (
  arith,
  leading_zeros_last (replicate i 0) x k (omega (arith, length-replicate {A = ℕ} i 0)) ne,
  documented_zeros_lem i x (replicate k 0) (omega (arith, length-replicate {A = ℕ} k 0)) ne h
      (replicate-u8s k),
  length-replicate {A = ℕ} i 0,
)

-- For 32 bytes with at least two that are not zero, `leading_zeros` is above the documented number.
pub documented-lt-leading_zeros :
    (i x : ℕ) (mid : List ℕ) (y k : ℕ)
    → i + suc (length mid + suc k) ≡ blake2_hash_size
    → x ≢ 0
    → y ≢ 0
    → All (λ b. b < 256) (x ∷ mid ++ y ∷ replicate k 0)
    → let h : Blake2Hash = record { bytes = replicate i 0 ++ x ∷ mid ++ y ∷ replicate k 0 } in
      documented_zeros h < leading_zeros h
documented-lt-leading_zeros i x mid y k e nx ny hs =
    let zeros : List ℕ = replicate k 0 in
    let wide = length-append mid (y ∷ zeros) in
    let before = length-append (replicate i 0) (x ∷ mid) in
    let read =
      leading_zeros_last (replicate i 0 ++ x ∷ mid) y k
        (omega (arith, length-replicate {A = ℕ} i 0)) ny in
    let said =
      documented_zeros_lem i x (mid ++ y ∷ zeros) (omega (arith, length-replicate {A = ℕ} k 0)) nx
        hs.0 hs.1 in
    rw (append_assoc (replicate i 0) (x ∷ mid) (y ∷ zeros)) (
      omega (
        arith,
        said,
        rw (append_assoc (replicate i 0) (x ∷ mid) (y ∷ zeros)) at read,
        length-replicate {A = ℕ} i 0,
        int_leading_zeros-lt 8 x nx hs.0,
      ))
