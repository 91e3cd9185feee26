-- ===== src/Types/Distance.antt =====
-- src/types.rs: `distance_rank` names a bucket.
use world_dat.Base.{ℕ, ◌<◌, ◌≡◌, ok}
use world_dat.Hash.{IsHash, max_power, leading_zeros}
use world_dat.Hash.Xor.{xor_hash, bitxor-xor_hash, bitxor_comm}
use world_dat.Hash.Zeros.{leading_zeros-lt}
use world_dat.Types.{PeerId, distance_rank}

-- 32 bytes, as the Rust type guarantees.
abbrev pub IsPeerId : PeerId → Type 0
IsPeerId p = IsHash p.hash

-- The rank that `distance_rank` returns.
unfoldable pub rank : PeerId → PeerId → ℕ
rank a b = leading_zeros (xor_hash a.hash b.hash)

-- `distance_rank` panics for no two ids of 32 bytes, and what it returns is below 256.
pub distance_rank-rank :
    {a b : PeerId}
    → IsPeerId a
    → IsPeerId b
    → (distance_rank a b ≡ ok (rank a b)) × (rank a b < max_power)
unfolding distance_rank rank
distance_rank-rank ha hb = let (e, good) = bitxor-xor_hash ha hb in (rw e, leading_zeros-lt good)

-- `distance_rank` is symmetric on ids of 32 bytes.
pub distance_rank_comm :
    {a b : PeerId} → IsPeerId a → IsPeerId b → distance_rank a b ≡ distance_rank b a
unfolding distance_rank
distance_rank_comm ha hb = rw (bitxor_comm ha hb)
