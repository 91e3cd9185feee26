-- ===== src/FlatMap.antt =====
-- src/types.rs: `FlatPeerMap`, the table of contacts as one flat vector of 256 buckets.
pub mod Bucket
pub mod Eviction
pub mod Invariant
pub mod Write
pub mod Insert
pub mod Reads
pub mod Cursor
pub mod Total
pub mod Widen
pub mod Closest
pub mod Samples
mod Tests
use world_dat.Base.{
  ℕ, zero, suc, ◌+◌, ◌-◌, ◌*◌, ◌%◌, Bool, true, false, Option, none, some, List, [], ◌∷◌, ◌++◌,
  length, take, drop, set, replicate, ltb, leb, ◌==◌, if◌then◌else◌, Run, ok, panic, ◌>>=◌, ◌>>◌,
  assert, ◌⊎◌, inl, inr, add_usize, sub_usize, mul_usize, slice, splice,
}
use world_dat.Hash.{max_power}
use world_dat.Types.{PeerId, Contact, id_eq, distance_rank}

pub record FlatPeerMap : Type 0 where
  pub contacts : List (Option Contact)
  pub count : ℕ
  pub bucket_size : ℕ
  pub peer_id : PeerId
  pub next_eviction : ℕ

unfoldable pub new : PeerId → ℕ → FlatPeerMap
new peer_id bucket_size = record {
  contacts = replicate (mul_usize max_power bucket_size) none;
  count = 0;
  bucket_size = bucket_size;
  peer_id = peer_id;
  next_eviction = 0;
}

unfoldable pub default : PeerId → FlatPeerMap
unfolding new
default peer_id = new peer_id 16

-- `bucket_start`, for the bucket of a rank
abbrev pub bucket_start : FlatPeerMap → ℕ → ℕ
bucket_start m rank = mul_usize rank m.bucket_size

-- `&self.contacts[bucket_start..bucket_end]`
unfoldable pub bucket_at : FlatPeerMap → ℕ → Run (List (Option Contact))
unfolding slice
bucket_at m rank =
    slice m.contacts (bucket_start m rank) (add_usize (bucket_start m rank) m.bucket_size)

unfoldable pub bucket_for : FlatPeerMap → PeerId → Run (List (Option Contact))
unfolding distance_rank bucket_at
bucket_for m peer_id = do rank ← distance_rank m.peer_id peer_id; bucket_at m rank

-- The mutable slice: its content, and the map once the content has been written.
abbrev pub SliceMut : Type 0
SliceMut = List (Option Contact) × (List (Option Contact) → FlatPeerMap)

unfoldable pub bucket_for_mut : FlatPeerMap → PeerId → Run SliceMut
unfolding distance_rank bucket_at splice
bucket_for_mut m peer_id = do
  rank ← distance_rank m.peer_id peer_id
  bucket ← bucket_at m rank
  ok (bucket, λ written. record m { contacts = splice m.contacts (bucket_start m rank) written })

-- The loop of `insert`: the bucket as it leaves it and what it adds to `count`, or `none` if it runs
-- to the end of a full bucket.
unfoldable pub insert_loop : Contact → List (Option Contact) → Option (List (Option Contact) × ℕ)
insert_loop new_peer [] = none
insert_loop new_peer (none ∷ bucket) = some (some new_peer ∷ bucket, 1)
insert_loop new_peer (some entry ∷ bucket) =
    let rest = insert_loop new_peer bucket in
    if id_eq entry.peer_id new_peer.peer_id
    then some (some new_peer ∷ bucket, 0)
    else (elim rest [ none ↦ none | some (written, more) ↦ some (some entry ∷ written, more) ])

abbrev pub all_some : List (Option Contact) → Bool
all_some [] = true
all_some (none ∷ bucket) = false
all_some (some c ∷ bucket) = all_some bucket

-- The loop of `debug_assert!`s is that of a debug build.
unfoldable pub item_to_evict : FlatPeerMap → List (Option Contact) → Run ℕ
item_to_evict m bucket = do
  assert (length bucket == m.bucket_size)
  assert (all_some bucket)
  ok m.next_eviction

-- The end of `insert`, on a full bucket.
unfoldable pub evict : FlatPeerMap → Contact → Run FlatPeerMap
unfolding bucket_for item_to_evict bucket_for_mut
evict m new_peer = do
  bucket ← bucket_for m new_peer.peer_id
  old_item ← item_to_evict m bucket
  (slots, write) ← bucket_for_mut m new_peer.peer_id
  assert (ltb old_item (length slots))
  ok (write (set slots old_item (some new_peer)))

unfoldable pub insert : FlatPeerMap → Contact → Run FlatPeerMap
unfolding bucket_for_mut insert_loop evict
insert m new_peer = do
  (bucket, write) ← bucket_for_mut m new_peer.peer_id
  elim (insert_loop new_peer bucket) [
    | none ↦ evict m new_peer
    | some (written, more) ↦
        let m' = write written in ok (record m' { count = add_usize m.count more })
  ]

-- `filter_map` over the slots that are filled
unfoldable pub known : List (Option Contact) → List Contact
known [] = []
known (none ∷ bucket) = known bucket
known (some c ∷ bucket) = c ∷ known bucket

unfoldable pub find : PeerId → List Contact → Option Contact
find peer_id [] = none
find peer_id (c ∷ cs) = if id_eq c.peer_id peer_id then some c else find peer_id cs

unfoldable pub contains : FlatPeerMap → PeerId → Run (Option Contact)
unfolding bucket_for known find
contains m peer_id = do bucket ← bucket_for m peer_id; ok (find peer_id (known bucket))

-- The loop of `find_closest_peers`, by the widths left: `search_width` is `max_power - rounds`.
unfoldable pub closest_loop : FlatPeerMap → ℕ → ℕ → ℕ → List Contact → Run (List Contact)
unfolding bucket_at known
closest_loop m count target_bucket zero results = ok results
closest_loop m count target_bucket (suc rounds) results =
    let search_width : ℕ = max_power - suc rounds in
    elim (ltb (length results) count) [
      | false ↦ ok results
      | true ↦ do
        ahead ← bucket_at m (add_usize target_bucket search_width % max_power)
        let results' = results ++ known ahead
        behind ← bucket_at m (sub_usize target_bucket search_width % max_power)
        closest_loop m count target_bucket rounds (results' ++ known behind)
    ]

unfoldable pub find_closest_peers : FlatPeerMap → PeerId → ℕ → Run (List Contact)
unfolding bucket_for distance_rank known closest_loop
find_closest_peers m needle count = do
  assert (leb count (length m.contacts))
  own ← bucket_for m needle
  target_bucket ← distance_rank m.peer_id needle
  results ← closest_loop m count target_bucket (max_power - 1) (known own)
  ok (take count results)

-- `Ok` is `inl`, `Err` is `inr`.
unfoldable pub lookup : FlatPeerMap → PeerId → Run (Contact ⊎ List Contact)
unfolding contains find_closest_peers
lookup m peer_id = do
  found ← contains m peer_id
  elim found [
    | some res ↦ ok (inl res)
    | none ↦ do closest ← find_closest_peers m peer_id m.bucket_size; ok (inr closest)
  ]
