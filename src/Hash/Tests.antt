-- ===== src/Hash/Tests.antt =====
-- src/hash.rs: its tests, and its theorems at hashes of two bytes that are not zero.
use world_dat.Base.{compare, ℕ, ◌<◌, ◌≡◌, refl, List, [], ◌∷◌, ◌++◌, replicate, some, ok, arith}
use world_dat.Hash.{Blake2Hash, IsHash, leading_zeros, bitxor, cmp}
use world_dat.Hash.Documented.{documented_zeros, documented-lt-leading_zeros}
use world_dat.Hash.Order.{value, cmp-value}
use world_dat.Hash.Serde.{Format, serialize, deserialize, deserialize-serialize}
use world_dat.Hash.Xor.{xor_hash, bitxor-xor_hash, bitxor_comm}

abbrev hash_of : ℕ → ℕ → Blake2Hash
hash_of a b = record { bytes = a ∷ replicate 30 0 ++ b ∷ [] }

abbrev one : Blake2Hash
one = hash_of 0 1

abbrev two : Blake2Hash
two = hash_of 2 7

one-IsHash : IsHash one
one-IsHash = record { size = refl; u8s = omega arith }

two-IsHash : IsHash two
two-IsHash = record { size = refl; u8s = omega arith }

-- `test_leading_zeros`, and a hash on which the loop overwrites what the first byte gave.
leading_zeros_test :
    (leading_zeros (hash_of 0 0) ≡ 255)
    × (leading_zeros (hash_of 1 0) ≡ 6)
    × (leading_zeros (hash_of 1 1) ≡ 254)
unfolding leading_zeros
leading_zeros_test = (refl, refl, refl)

abbrev front : List ℕ
front = 1 ∷ 0 ∷ []

documented-lt-leading_zeros_example :
    documented_zeros (record { bytes = replicate 4 0 ++ 9 ∷ (0 ∷ 0 ∷ []) ++ 1 ∷ replicate 24 0 })
    < leading_zeros (record { bytes = replicate 4 0 ++ 9 ∷ (0 ∷ 0 ∷ []) ++ 1 ∷ replicate 24 0 })
documented-lt-leading_zeros_example =
    documented-lt-leading_zeros 4 9 (0 ∷ 0 ∷ []) 1 24 refl (omega arith) (omega arith) (omega arith)

cmp-value_example : cmp one two ≡ compare (value one.bytes) (value two.bytes)
cmp-value_example = cmp-value one-IsHash two-IsHash

bitxor-xor_hash_example : (bitxor one two ≡ ok (xor_hash one two)) × IsHash (xor_hash one two)
bitxor-xor_hash_example = bitxor-xor_hash one-IsHash two-IsHash

bitxor_comm_example : bitxor one two ≡ bitxor two one
bitxor_comm_example = bitxor_comm one-IsHash two-IsHash

-- A format that writes the bytes as they are.
abbrev plain : Format
plain = record { serialize_bytes = λ bytes. bytes; deserialize_bytes = λ bytes. some bytes }

deserialize-serialize_example : deserialize plain (serialize plain two) ≡ ok (some two)
deserialize-serialize_example = deserialize-serialize plain (λ bytes. refl) two-IsHash

abbrev two_bytes : List ℕ
two_bytes = 1 ∷ 2 ∷ []
