-- ===== src/PeerMap.antt =====
-- src/types.rs: `Bucket` and `PeerMap`, the table of peers as 256 hash maps.
pub mod Invariant
pub mod Insert
pub mod Widen
pub mod Closest
pub mod Samples
mod Tests
use world_dat.Base.{
  ℕ, zero, suc, ◌+◌, ◌-◌, ◌%◌, ◌^◌, Bool, true, false, ◌&&◌, Option, none, some, List, [], ◌∷◌,
  ◌++◌, length, take, set, get_elem?, replicate, ltb, if◌then◌else◌, Run, ok, panic, ◌>>=◌, expect,
  ◌⊎◌, inl, inr, add_usize,
}
use world_dat.Hash.{max_power}
use world_dat.HashMap
use world_dat.HashMap.{HashMap, IterationOrder}
use world_dat.Types.{PeerId, SocketAddr, Contact, distance_rank, peer_id_eq}

pub record Bucket : Type 0 where
  pub known_peers : HashMap PeerId SocketAddr

abbrev pub new_bucket : Bucket
new_bucket = record { known_peers = [] }

-- `Bucket::insert`
unfoldable pub bucket_insert : Bucket → Contact → Bucket
unfolding HashMap.insert
bucket_insert b peer = record {
  known_peers = HashMap.insert peer.peer_id peer.address b.known_peers;
}

-- `Bucket::contains`
unfoldable pub bucket_contains : Bucket → PeerId → Option (PeerId × SocketAddr)
unfolding HashMap.get
bucket_contains b peer = elim (HashMap.get peer b.known_peers) [
  | none ↦ none
  | some addr ↦ some (peer, addr)
]

pub record PeerMap : Type 0 where
  pub buckets : List Bucket
  pub bucket_size : ℕ

unfoldable pub default : PeerMap
default = record { buckets = replicate max_power new_bucket; bucket_size = 16 }

-- `self.buckets[i]`, which panics out of range.
abbrev pub bucket_at : PeerMap → ℕ → Run Bucket
bucket_at m i = expect (get_elem? m.buckets i)

unfoldable pub insert : PeerMap → PeerId → SocketAddr → PeerId → Run PeerMap
unfolding distance_rank bucket_insert
insert m self_id address peer_id = do
  let new_peer : Contact = record { peer_id = peer_id; address = address }
  rank ← distance_rank self_id peer_id
  bucket ← bucket_at m rank
  ok (record m { buckets = set m.buckets rank (bucket_insert bucket new_peer) })

unfoldable pub contains : PeerMap → PeerId → PeerId → Run (Option (PeerId × SocketAddr))
unfolding distance_rank bucket_contains
contains m self_id peer_id = do
  search_bucket ← distance_rank self_id peer_id
  bucket ← bucket_at m search_bucket
  ok (bucket_contains bucket peer_id)

-- The sum of `u32`s that wraps.
unfoldable pub count_loop : ℕ → List Bucket → ℕ
count_loop acc [] = acc
count_loop acc (b ∷ bs) = count_loop ((acc + length b.known_peers % 2 ^ 32) % 2 ^ 32) bs

unfoldable pub count : PeerMap → ℕ
unfolding count_loop
count m = count_loop 0 m.buckets

module _ (order : IterationOrder (PeerId × SocketAddr)) where
  -- `search_results.extend(self.buckets[i].known_peers.iter())`, if the test before it passes
  unfoldable pub extend_if :
      Bool → PeerMap → ℕ → List (PeerId × SocketAddr) → Run (List (PeerId × SocketAddr))
  extend_if false m i results = ok results
  extend_if true m i results = do b ← bucket_at m i; ok (results ++ order.arrange b.known_peers)

  -- The loop of `find_closest_peers`, by the widths left: `search_width` is `max_power - rounds`.
  unfoldable pub closest_loop :
      PeerMap → ℕ → ℕ → List (PeerId × SocketAddr) → Run (List (PeerId × SocketAddr))
  unfolding extend_if
  closest_loop m search_bucket zero results = ok results
  closest_loop m search_bucket (suc rounds) results =
      let search_width : ℕ = max_power - suc rounds in
      elim (ltb (length results) m.bucket_size) [
        | false ↦ ok results
        | true ↦ do
          let target_behind = search_bucket - search_width
          let target_ahead = add_usize search_bucket search_width
          results' ← extend_if (ltb search_bucket search_width) m target_behind results
          results'' ← extend_if (ltb target_ahead max_power) m target_ahead results'
          closest_loop m search_bucket rounds results''
      ]

  unfoldable pub find_closest_peers : PeerMap → PeerId → PeerId → Run (List (PeerId × SocketAddr))
  unfolding distance_rank extend_if closest_loop
  find_closest_peers m self_id peer_id = do
    search_bucket ← distance_rank self_id peer_id
    search_results ← extend_if true m search_bucket []
    results ← closest_loop m search_bucket (max_power - 1) search_results
    ok (take m.bucket_size results)

  -- `Ok` is `inl`, `Err` is `inr`.
  unfoldable pub lookup :
      PeerMap → PeerId → PeerId → Run ((PeerId × SocketAddr) ⊎ List (PeerId × SocketAddr))
  unfolding contains find_closest_peers
  lookup m self_id peer_id = do
    known ← contains m self_id peer_id
    elim known [
      | some res ↦ ok (inl res)
      | none ↦ do closest ← find_closest_peers m self_id peer_id; ok (inr closest)
    ]
