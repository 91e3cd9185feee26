-- ===== src/Types.antt =====
-- src/types.rs: peer ids and their distance, addresses, contacts and messages.
pub mod Distance
pub mod Samples
mod Tests
use world_dat.Base.{
  ℕ, zero, suc, ◌≡◌, ◌↔◌, Bool, true, false, ◌==◌, ◌&&◌, arith, List, [], ◌∷◌, Ordering, Run, ok,
  ◌>>=◌, Eq, ap,
}
use world_dat.Hash.{Blake2Hash, IsHash, blake2_hash_size}
use world_dat.Hash
use world_dat.Hash.Order.{eq_iff}

pub record PeerId : Type 0 where
  pub hash : Blake2Hash

-- `std::net::SocketAddr`: address and port; for V6 also the flow information and the scope.
pub data SocketAddr : Type 0 where
  v4 : ℕ → ℕ → SocketAddr
  v6 : ℕ → ℕ → ℕ → ℕ → SocketAddr

-- The derived `==` of addresses.
unfoldable pub addr_eq : SocketAddr → SocketAddr → Bool
addr_eq (v4 a p) (v4 b q) = a == b && p == q
addr_eq (v4 a p) (v6 b q f s) = false
addr_eq (v6 a p f s) (v4 b q) = false
addr_eq (v6 a p f s) (v6 b q g t) = a == b && p == q && f == g && s == t

pub addr_eq_iff : (a b : SocketAddr) → (addr_eq a b ≡ true) ↔ (a ≡ b)
unfolding addr_eq
addr_eq_iff (v4 a p) (v4 b q) = ((λ h. ground arith), (λ h. ground arith))
addr_eq_iff (v4 a p) (v6 b q g t) = ((λ h. cc), (λ h. cc))
addr_eq_iff (v6 a p f s) (v4 b q) = ((λ h. cc), (λ h. cc))
addr_eq_iff (v6 a p f s) (v6 b q g t) = ((λ h. ground arith), (λ h. ground arith))

instance abbrev pub socket_addr_eq : Eq SocketAddr
socket_addr_eq = record { equal = addr_eq; equal_iff = addr_eq_iff }

-- `Message`
pub data Message : Type 0 where
  ping : PeerId → Message
  pong : PeerId → Message
  find_peer : PeerId → Message
  find_peer_response_peer_found : PeerId → SocketAddr → Message
  find_peer_response_peer_not_found : PeerId → List (PeerId × SocketAddr) → Message

pub record Contact : Type 0 where
  pub peer_id : PeerId
  pub address : SocketAddr

-- `new`, over the digest of the `blake2` crate.
unfoldable pub new : (List ℕ → List ℕ) → List ℕ → Run PeerId
unfolding Hash.new
new blake2s seed = do h ← Hash.new blake2s seed; ok (record { hash = h })

unfoldable pub raw : List ℕ → PeerId
raw bytes = record { hash = record { bytes = bytes } }

-- What `new_insecure_random` calls: the generator of `oorandom`, and `bytemuck::bytes_of` on an
-- array of `u64`.
pub record Randomness : Type 1 where
  pub Rand64 : Type 0
  pub rand64 : ℕ → Rand64
  pub rand_u64 : Rand64 → ℕ × Rand64
  pub bytes_of : List ℕ → List ℕ

module _ (r : Randomness) where
  open r use {Rand64, rand_u64, bytes_of}

  -- The loop that fills `data`, `n` numbers in order.
  unfoldable pub rand_u64s : ℕ → Rand64 → List ℕ × Rand64
  rand_u64s zero rng = ([], rng)
  rand_u64s (suc n) rng =
      let (v, rng') = rand_u64 rng in let (vs, rng'') = rand_u64s n rng' in (v ∷ vs, rng'')

  -- The id, and the generator after its calls.
  unfoldable pub new_insecure_random : (List ℕ → List ℕ) → Rand64 → Run (PeerId × Rand64)
  unfolding new rand_u64s
  new_insecure_random blake2s rng =
      let (values, rng') = rand_u64s blake2_hash_size rng in
      do id ← new blake2s (bytes_of values); ok (id, rng')

-- The derived `==` and `cmp` of `PeerId`.
unfoldable pub id_eq : PeerId → PeerId → Bool
unfolding Hash.eq
id_eq a b = Hash.eq a.hash b.hash

unfoldable pub id_cmp : PeerId → PeerId → Ordering
unfolding Hash.cmp
id_cmp a b = Hash.cmp a.hash b.hash

pub id_eq_iff : (a b : PeerId) → (id_eq a b ≡ true) ↔ (a ≡ b)
unfolding id_eq
id_eq_iff a b = (
  (λ h. ap (λ x. record { hash = x }) ((eq_iff a.hash b.hash).0 h)),
  (λ h. (eq_iff a.hash b.hash).1 (ap (λ p. p.hash) h)),
)

instance abbrev pub peer_id_eq : Eq PeerId
peer_id_eq = record { equal = id_eq; equal_iff = id_eq_iff }

-- `floor(log2(distance))` by its documentation; the code takes the hash's leading zeros.
unfoldable pub distance_rank : PeerId → PeerId → Run ℕ
unfolding Hash.bitxor Hash.leading_zeros
distance_rank self other = do
  distance ← Hash.bitxor self.hash other.hash
  ok (Hash.leading_zeros distance)

unfoldable pub new_dummy : PeerId → Contact
new_dummy peer_id = record { peer_id = peer_id; address = v6 1 1234 0 0 }

-- `cmp` of contacts looks at the ids alone.
unfoldable pub contact_cmp : Contact → Contact → Ordering
unfolding id_cmp
contact_cmp a b = id_cmp a.peer_id b.peer_id
