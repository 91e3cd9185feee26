-- ===== src/Hash/Zeros.antt =====
-- src/hash.rs: what `leading_zeros` returns.
use world_dat.Base.{
  ℕ, zero, suc, ◌+◌, ◌-◌, ◌*◌, ◌^◌, ◌≤◌, ◌<◌, ◌≡◌, refl, ◌∙◌, ◌≢◌, List, [], ◌∷◌, ◌++◌, length,
  replicate, arith,
}
use world_dat.Hash.{
  Blake2Hash, IsHash, blake2_hash_size, max_power, int_leading_zeros, bit_index, leading_zeros_loop,
  leading_zeros,
}

pub int_leading_zeros-le : (w x : ℕ) → int_leading_zeros w x ≤ w
unfolding int_leading_zeros
int_leading_zeros-le zero x = omega arith
int_leading_zeros-le (suc w) x = ground (arith, int_leading_zeros-le w x)

-- A byte that is not zero has fewer than eight leading zeros.
pub int_leading_zeros-lt : (w x : ℕ) → x ≢ 0 → x < 2 ^ w → int_leading_zeros w x < w
unfolding int_leading_zeros
int_leading_zeros-lt zero x h b = absurd (omega arith)
int_leading_zeros-lt (suc w) x h b = ground (arith, int_leading_zeros-lt w x)

bit_index_lem : (i z : ℕ) → i < 32 → z ≤ 8 → bit_index i z ≡ 8 * i + z
unfolding bit_index
bit_index_lem i z h k = omega arith

leading_zeros_loop-le :
    (i res : ℕ) (bs : List ℕ) → i + length bs ≤ 32 → res ≤ 256 → leading_zeros_loop i res bs ≤ 256
unfolding leading_zeros_loop
leading_zeros_loop-le i res [] h r = r
leading_zeros_loop-le i res (b ∷ bs) h r =
    leading_zeros_loop-le (i + 1) _ bs (omega arith)
      (ground (arith, bit_index_lem i (int_leading_zeros 8 b), int_leading_zeros-le 8 b))

-- `leading_zeros` of 32 bytes is below 256, so it is in range as an index of a bucket.
pub leading_zeros-lt : {h : Blake2Hash} → IsHash h → leading_zeros h < max_power
unfolding leading_zeros
leading_zeros-lt {h} v = omega (arith, leading_zeros_loop-le 0 256 h.bytes)

leading_zeros_loop-replicate : (i res k : ℕ) → leading_zeros_loop i res (replicate k 0) ≡ res
unfolding leading_zeros_loop
leading_zeros_loop-replicate i res zero = refl
leading_zeros_loop-replicate i res (suc k) = leading_zeros_loop-replicate (i + 1) res k

leading_zeros_loop-last :
    (i res : ℕ) (pre : List ℕ) (x k : ℕ)
    → i + length pre < 32
    → x ≢ 0
    → leading_zeros_loop i res (pre ++ x ∷ replicate k 0)
      ≡ 8 * (i + length pre) + int_leading_zeros 8 x
unfolding leading_zeros_loop
leading_zeros_loop-last i res [] x k h ne =
    rw leading_zeros_loop-replicate
      (ground (arith, bit_index_lem i (int_leading_zeros 8 x), int_leading_zeros-le 8 x))
leading_zeros_loop-last i res (p ∷ pre) x k h ne =
    leading_zeros_loop-last (i + 1) _ pre x k (omega arith) ne ∙ omega arith

-- If the last byte that is not zero is `x`, at one of the first 32 places, then `x` and its place
-- give `leading_zeros`: no byte before it counts.
pub leading_zeros_last :
    (pre : List ℕ) (x k : ℕ)
    → length pre < blake2_hash_size
    → x ≢ 0
    → leading_zeros (record { bytes = pre ++ x ∷ replicate k 0 })
      ≡ 8 * length pre + int_leading_zeros 8 x - 1
unfolding leading_zeros
leading_zeros_last pre x k h ne =
    omega (arith, leading_zeros_loop-last 0 max_power pre x k (omega arith) ne)
