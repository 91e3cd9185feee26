-- ===== src/PeerMap/Invariant.antt =====
-- src/types.rs: the invariant of `PeerMap`, and what it reads.
use world_dat.Base.{
  ℕ, zero, suc, ◌+◌, ◌%◌, ◌^◌, ◌<◌, ◌≡◌, refl, Option, none, some, List, [], ◌∷◌, length, replicate,
  get_or, get_elem?-get_or, length-replicate, All, ok, ◌>>=◌, arith,
}
use world_dat.Hash.{max_power}
use world_dat.HashMap.{get}
use world_dat.HashMap.Laws.{keys, IsMap}
use world_dat.Types.{PeerId, SocketAddr, peer_id_eq}
use world_dat.Types.Distance.{IsPeerId, rank, distance_rank-rank}
use world_dat.PeerMap.{
  PeerMap, Bucket, new_bucket, default, bucket_at, bucket_contains, contains, count_loop, count,
}

abbrev pub Entry : Type 0
Entry = PeerId × SocketAddr

abbrev pub bucket : PeerMap → ℕ → Bucket
bucket m r = get_or m.buckets r new_bucket

-- A peer that belongs in the bucket of rank `r`.
abbrev pub BelongsAt : PeerId → ℕ → PeerId → Type 0
BelongsAt self r p = IsPeerId p × (rank self p ≡ r)

pub record IsBucket (self : PeerId) (r : ℕ) (b : Bucket) : Type 0 where
  pub placed : All (λ e. BelongsAt self r e.0) b.known_peers
  pub once : IsMap b.known_peers

-- 256 buckets; each peer stands in the bucket of its rank, once.
pub record IsValid (self : PeerId) (m : PeerMap) : Type 0 where
  pub own : IsPeerId self
  pub width : length m.buckets ≡ max_power
  pub buckets : (r : ℕ) → r < max_power → IsBucket self r (bucket m r)

new_bucket-IsBucket : (self : PeerId) (r : ℕ) → IsBucket self r new_bucket
unfolding keys
new_bucket-IsBucket self r = record { placed = tt; once = λ q. omega arith }

pub get_or-replicate : (n i : ℕ) → get_or (replicate n new_bucket) i new_bucket ≡ new_bucket
get_or-replicate zero i = refl
get_or-replicate (suc n) zero = refl
get_or-replicate (suc n) (suc i) = get_or-replicate n i

-- The map of `default` is valid for every own id of 32 bytes.
pub default-IsValid : {self : PeerId} → IsPeerId self → IsValid self default
unfolding default
default-IsValid {self} own = record {
  own = own;
  width = length-replicate max_power new_bucket;
  buckets = λ r _. rw (get_or-replicate max_power r) (new_bucket-IsBucket self r);
}

-- The address that a map holds of a peer.
unfoldable pub view : PeerMap → PeerId → PeerId → Option SocketAddr
view m self p = get p (bucket m (rank self p)).known_peers

-- An address with the peer in front, as `contains` returns it.
abbrev pub named : PeerId → Option SocketAddr → Option Entry
named p none = none
named p (some addr) = some (p, addr)

-- How many peers a list of buckets holds.
abbrev pub total : List Bucket → ℕ
total [] = 0
total (b ∷ bs) = length b.known_peers + total bs

count_loop-total :
    (acc : ℕ) (bs : List Bucket) → acc < 2 ^ 32 → count_loop acc bs ≡ (acc + total bs) % 2 ^ 32
unfolding count_loop
count_loop-total acc [] h = omega arith
count_loop-total acc (b ∷ bs) h =
    omega (arith, count_loop-total ((acc + length b.known_peers % 2 ^ 32) % 2 ^ 32) bs)

-- `count` is the number of peers in all buckets, as a `u32`.
pub count-total : (m : PeerMap) → count m ≡ total m.buckets % 2 ^ 32
unfolding count
count-total m = omega (arith, count_loop-total 0 m.buckets)

module _ {self : PeerId} {m : PeerMap} (v : IsValid self m) where
  pub bucket_at-bucket : (r : ℕ) → r < max_power → bucket_at m r ≡ ok (bucket m r)
  bucket_at-bucket r h = rw (get_elem?-get_or m.buckets r new_bucket (omega (arith, v.width)))

  pub home-lt : {p : PeerId} → IsPeerId p → rank self p < max_power
  home-lt good = (distance_rank-rank v.own good).1

  -- On a valid map `contains` panics for no id of 32 bytes, and returns the peer with the address that
  -- the bucket of its rank holds.
  pub contains-named : {p : PeerId} → IsPeerId p → contains m self p ≡ ok (named p (view m self p))
  unfolding contains view bucket_contains
  contains-named {p} good =
      rw ((distance_rank-rank v.own good).0, ◌>>=◌, bucket_at-bucket (rank self p) (home-lt good))
        (ground arith)
