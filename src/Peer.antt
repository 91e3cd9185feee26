-- ===== src/Peer.antt =====
-- src/peer.rs: the peer before the worker: its map, what it does with messages, and its streams.
pub mod Accept
pub mod Insert
pub mod Listen
pub mod Session
pub mod Start
pub mod Starting
pub mod Streams
pub mod Talk
mod Tests
use world_dat.Base.{
  ℕ, zero, suc, Bool, true, false, ◌&&◌, Option, none, some, List, [], ◌∷◌, ◌++◌, Run, ok, panic,
  ◌>>=◌, ◌>>◌, assert, expect, ltb, get_elem?, set, inl, inr, ◌⊎◌, if◌then◌else◌, Ordering, Eq,
}
use world_dat.Hash.{max_power}
use world_dat.Types.{PeerId, SocketAddr, id_eq, id_cmp, addr_eq}

pub record ContactInfo : Type 0 where
  pub peer_id : PeerId
  pub address : SocketAddr

pub data Message : Type 0 where
  ping : PeerId → Message
  pong : PeerId → Message
  find_peer : PeerId → Message
  find_peer_response_peer_found : ContactInfo → Message
  find_peer_response_peer_not_found : PeerId → List ContactInfo → Message

pub record Bucket : Type 0 where
  pub known_peers : List ContactInfo
  pub address_range : ℕ × ℕ

-- `Bucket::new`; the capacity is the vector's affair.
unfoldable pub new_bucket : ℕ → ℕ → Run Bucket
new_bucket min_address max_address = do
  assert (ltb min_address max_address)
  ok (record { known_peers = []; address_range = (min_address, max_address) })

pub record PeerMap : Type 0 where
  pub buckets : List Bucket
  pub bucket_size : ℕ

unfoldable pub new : Run PeerMap
unfolding new_bucket
new = do
  initial_bucket ← new_bucket 0 max_power
  ok (record { buckets = initial_bucket ∷ []; bucket_size = 8 })

-- `iter().position(...)`
unfoldable pub position : PeerId → List ContactInfo → Option ℕ
position p [] = none
position p (ci ∷ cs) =
    let rest = position p cs in
    if id_eq ci.peer_id p then some 0 else (elim rest [ none ↦ none | some i ↦ some (suc i) ])

-- The stable `sort` of `std`, by the ids.
unfoldable pub insert_sorted : ContactInfo → List ContactInfo → List ContactInfo
insert_sorted c [] = c ∷ []
insert_sorted c (x ∷ xs) =
    let rest = insert_sorted c xs in
    elim (id_cmp c.peer_id x.peer_id) [ Ordering.gt ↦ x ∷ rest | _ ↦ c ∷ x ∷ xs ]

unfoldable pub sort : List ContactInfo → List ContactInfo
unfolding insert_sorted
sort [] = []
sort (x ∷ xs) = insert_sorted x (sort xs)

-- `known_peers[i].peer_id = new_peer.peer_id`
unfoldable pub rename : List ContactInfo → ℕ → PeerId → Run (List ContactInfo)
rename cs i p = do ci ← expect (get_elem? cs i); ok (set cs i (record ci { peer_id = p }))

unfoldable pub insert : PeerMap → ContactInfo → Run PeerMap
unfolding position sort rename
insert m new_peer = do
  bucket ← expect (get_elem? m.buckets 0)
  known_peers ← elim (position new_peer.peer_id bucket.known_peers) [
    | some i ↦ rename bucket.known_peers i new_peer.peer_id
    | none ↦ ok (sort (bucket.known_peers ++ new_peer ∷ []))
  ]
  ok (record m { buckets = set m.buckets 0 (record bucket { known_peers = known_peers }) })

-- `Ok` is `inl`, `Err` is `inr`.
unfoldable pub lookup : PeerMap → PeerId → ContactInfo ⊎ List ContactInfo
lookup m peer_id = inr []

-- `PeerSharedState`
pub record SharedState : Type 0 where
  pub id : PeerId
  pub peermap : PeerMap

-- The calls of `send_to_peer`, whose body is empty.
abbrev pub Calls : Type 0
Calls = List (PeerId × Message)

-- The loop over the neighbors.
unfoldable pub ask_all : PeerId → List ContactInfo → Calls
ask_all id [] = []
ask_all id (neighbor ∷ neighbors) = (neighbor.peer_id, find_peer id) ∷ ask_all id neighbors

unfoldable pub handle_message_from : SharedState → SocketAddr → Message → Run (SharedState × Calls)
unfolding insert lookup ask_all
handle_message_from state addr (ping id) = ok (state, (id, pong state.id) ∷ [])
handle_message_from state addr (pong id) = do
  peermap ← insert state.peermap (record { peer_id = id; address = addr })
  ok (record state { peermap = peermap }, [])
handle_message_from state addr (find_peer id) =
    let resp : Message = elim (lookup state.peermap id) [
      | inl contact ↦ find_peer_response_peer_found contact
      | inr neighbors ↦ find_peer_response_peer_not_found id neighbors
    ] in
    ok (state, (id, resp) ∷ [])
handle_message_from state addr (find_peer_response_peer_found contact) =
    ok (state, (contact.peer_id, ping state.id) ∷ [])
handle_message_from state addr (find_peer_response_peer_not_found id neighbors) =
    ok (state, ask_all id neighbors)

-- The derived `==` of contacts and messages.
unfoldable pub contacts_eq : List ContactInfo → List ContactInfo → Bool
contacts_eq [] [] = true
contacts_eq [] (d ∷ ds) = false
contacts_eq (c ∷ cs) [] = false
contacts_eq (c ∷ cs) (d ∷ ds) =
    id_eq c.peer_id d.peer_id && addr_eq c.address d.address && contacts_eq cs ds

unfoldable pub message_eq : Message → Message → Bool
unfolding contacts_eq
message_eq (ping a) (ping b) = id_eq a b
message_eq (pong a) (pong b) = id_eq a b
message_eq (find_peer a) (find_peer b) = id_eq a b
message_eq (find_peer_response_peer_found c) (find_peer_response_peer_found d) =
    contacts_eq (c ∷ []) (d ∷ [])
message_eq (find_peer_response_peer_not_found a cs) (find_peer_response_peer_not_found b ds) =
    id_eq a b && contacts_eq cs ds
message_eq _ _ = false

-- `rmp_serde` on messages: what it writes, and what it reads (`none` is its error; reading
-- panics where the visitor of src/hash.rs does, which it calls).
pub record Codec : Type 0 where
  pub to_vec : Message → List ℕ
  pub from_slice : List ℕ → Run (Option Message)

module _ (codec : Codec) where
  -- What is written to the stream.
  unfoldable pub send_message : Message → Run (List ℕ)
  unfolding message_eq
  send_message message = do
    let serialized_message = codec.to_vec message
    read ← codec.from_slice serialized_message
    de ← expect read
    assert (message_eq message de)
    ok serialized_message

  -- What is written back for what has been read, if anything.
  unfoldable pub receive_message : List ℕ → Run (Option (List ℕ))
  receive_message req = do
    msg ← codec.from_slice req
    elim msg [
      | some (ping id) ↦ ok (some (codec.to_vec (pong id)))
      | some _ ↦ ok none
      | none ↦ ok none
    ]
