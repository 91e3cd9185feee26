-- ===== src/Hash.antt =====
-- src/hash.rs: the 32-byte hash that names peers, its order, its XOR and its leading zeros.
pub mod Order
pub mod Xor
pub mod Zeros
pub mod Documented
pub mod Serde
mod Tests
use world_dat.Base.{
  ℕ, zero, suc, ◌+◌, ◌-◌, ◌*◌, ◌%◌, ◌^◌, ◌<◌, compare, Ordering, bit_xor, ◌≡◌, Bool, true, false,
  ◌&&◌, List, [], ◌∷◌, length, replicate, get_elem?, All, ltb, ◌==◌, if◌then◌else◌, Run, ok, panic,
  ◌>>=◌, ◌>>◌, assert, expect,
}

-- `BLAKE2_HASH_SIZE`
abbrev pub blake2_hash_size : ℕ
blake2_hash_size = 32

-- The most significant byte stands first. That there are 32 bytes is `IsHash`.
pub record Blake2Hash : Type 0 where
  pub bytes : List ℕ

-- What the Rust type `[u8; BLAKE2_HASH_SIZE]` guarantees.
pub record IsHash (h : Blake2Hash) : Type 0 where
  pub size : length h.bytes ≡ blake2_hash_size
  pub u8s : All (λ b. b < 256) h.bytes

-- `==` of two slices
unfoldable pub eq_bytes : List ℕ → List ℕ → Bool
eq_bytes [] [] = true
eq_bytes [] (y ∷ ys) = false
eq_bytes (x ∷ xs) [] = false
eq_bytes (x ∷ xs) (y ∷ ys) = x == y && eq_bytes xs ys

unfoldable pub eq : Blake2Hash → Blake2Hash → Bool
unfolding eq_bytes
eq a b = eq_bytes a.bytes b.bytes

-- `cmp` of two slices: the first difference decides, then the length.
unfoldable pub cmp_bytes : List ℕ → List ℕ → Ordering
cmp_bytes [] [] = Ordering.eq
cmp_bytes [] (y ∷ ys) = Ordering.lt
cmp_bytes (x ∷ xs) [] = Ordering.gt
cmp_bytes (x ∷ xs) (y ∷ ys) = elim (compare x y) [
  | Ordering.lt ↦ Ordering.lt
  | Ordering.eq ↦ cmp_bytes xs ys
  | Ordering.gt ↦ Ordering.gt
]

unfoldable pub cmp : Blake2Hash → Blake2Hash → Ordering
unfolding cmp_bytes
cmp a b = cmp_bytes a.bytes b.bytes

-- The loop of `bitxor`: `item` is `out[i]`, and `n` what `take` leaves.
unfoldable pub bitxor_loop : List ℕ → List ℕ → ℕ → List ℕ → ℕ → Run (List ℕ)
bitxor_loop a b i [] n = ok []
bitxor_loop a b i (item ∷ out) zero = ok (item ∷ out)
bitxor_loop a b i (item ∷ out) (suc n) = do
  x ← expect (get_elem? a i)
  y ← expect (get_elem? b i)
  rest ← bitxor_loop a b (i + 1) out n
  ok (bit_xor x y ∷ rest)

unfoldable pub bitxor : Blake2Hash → Blake2Hash → Run Blake2Hash
unfolding bitxor_loop
bitxor a b = do
  out ← bitxor_loop a.bytes b.bytes 0 (replicate blake2_hash_size 0) (length a.bytes)
  ok (record { bytes = out })

-- `u8::leading_zeros` at `w = 8`
unfoldable pub int_leading_zeros : ℕ → ℕ → ℕ
int_leading_zeros zero x = 0
int_leading_zeros (suc w) x = if ltb x (2 ^ w) then suc (int_leading_zeros w x) else 0

abbrev pub max_power : ℕ
max_power = blake2_hash_size * 8

-- `8 * i as u32 + z`
unfoldable pub bit_index : ℕ → ℕ → ℕ
bit_index i z = (8 * (i % 2 ^ 32) % 2 ^ 32 + z) % 2 ^ 32

-- The loop runs on after a byte that is not zero: there is no `break`.
unfoldable pub leading_zeros_loop : ℕ → ℕ → List ℕ → ℕ
unfolding bit_index int_leading_zeros
leading_zeros_loop i res [] = res
leading_zeros_loop i res (itm ∷ rest) =
    leading_zeros_loop (i + 1) (if itm == 0 then res else bit_index i (int_leading_zeros 8 itm))
      rest

unfoldable pub leading_zeros : Blake2Hash → ℕ
unfolding leading_zeros_loop
leading_zeros h = leading_zeros_loop 0 max_power h.bytes - 1

-- `out[..].copy_from_slice(value)` into 32 bytes: it panics if the lengths differ.
unfoldable pub copy_from_slice : List ℕ → Run Blake2Hash
copy_from_slice value = do assert (length value == blake2_hash_size); ok (record { bytes = value })

unfoldable pub new_raw : List ℕ → Run Blake2Hash
unfolding copy_from_slice
new_raw bytes = do assert (length bytes == blake2_hash_size); copy_from_slice bytes

-- `Blake2Hash::new`: the digest is that of the `blake2` crate, a parameter.
unfoldable pub new : (List ℕ → List ℕ) → List ℕ → Run Blake2Hash
unfolding copy_from_slice
new blake2s seed = copy_from_slice (blake2s seed)
