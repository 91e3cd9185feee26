-- ===== src/Peer/Talk.antt =====
-- src/peer.rs: what a peer does with messages, and what goes over a stream.
use world_dat.Base.{
  ℕ, ◌≡◌, refl, ap, true, Option, none, some, List, [], ◌∷◌, map, ok, ◌>>=◌, Returns,
}
use world_dat.Types.{PeerId, SocketAddr, id_eq_iff, addr_eq_iff}
use world_dat.Types.Distance.{IsPeerId}
use world_dat.Peer.{
  ContactInfo, Message, ping, pong, find_peer, find_peer_response_peer_found,
  find_peer_response_peer_not_found, Calls, ask_all, SharedState, handle_message_from, lookup,
  contacts_eq, message_eq, Codec, send_message, receive_message,
}
use world_dat.Peer.Insert.{IsValid, insert-Keeps, peers, find, or_else, alone}

-- The documented round trip of the serializer, for a message.
abbrev pub RoundTrips : Codec → Message → Type 0
RoundTrips codec message = codec.from_slice (codec.to_vec message) ≡ ok (some message)

contacts_eq_refl : (cs : List ContactInfo) → contacts_eq cs cs ≡ true
unfolding contacts_eq
contacts_eq_refl [] = refl
contacts_eq_refl (c ∷ cs) =
    rw ((id_eq_iff c.peer_id c.peer_id).1 refl, (addr_eq_iff c.address c.address).1 refl)
      (contacts_eq_refl cs)

message_eq_refl : (m : Message) → message_eq m m ≡ true
unfolding message_eq
message_eq_refl (ping a) = (id_eq_iff a a).1 refl
message_eq_refl (pong a) = (id_eq_iff a a).1 refl
message_eq_refl (find_peer a) = (id_eq_iff a a).1 refl
message_eq_refl (find_peer_response_peer_found c) = contacts_eq_refl (c ∷ [])
message_eq_refl (find_peer_response_peer_not_found a cs) =
    rw ((id_eq_iff a a).1 refl) (contacts_eq_refl cs)

-- The answer over a stream to a message: a pong with the id of the ping, and nothing else.
abbrev pub reply : Message → Option Message
reply (ping id) = some (pong id)
reply _ = none

abbrev pub written : Codec → Option Message → Option (List ℕ)
written codec none = none
written codec (some m) = some (codec.to_vec m)

module _ (codec : Codec) where
  receive_message-reply :
      (message : Message)
      → RoundTrips codec message
      → receive_message codec (codec.to_vec message) ≡ ok (written codec (reply message))
  unfolding receive_message
  receive_message-reply (ping a) trips = rw (receive_message, trips, ◌>>=◌)
  receive_message-reply (pong a) trips = rw (receive_message, trips, ◌>>=◌)
  receive_message-reply (find_peer a) trips = rw (receive_message, trips, ◌>>=◌)
  receive_message-reply (find_peer_response_peer_found c) trips = rw (receive_message, trips, ◌>>=◌)
  receive_message-reply (find_peer_response_peer_not_found a cs) trips =
      rw (receive_message, trips, ◌>>=◌)

  -- With a serializer that reads back what it writes of a message, the assertion of `send_message`
  -- holds, and the
  -- other peer writes back a pong for a ping, with the id of the ping, and nothing for any other
  -- message.
  pub receive_message-send_message :
      (message : Message)
      → RoundTrips codec message
      → (send_message codec message ≡ ok (codec.to_vec message))
        × (receive_message codec (codec.to_vec message) ≡ ok (written codec (reply message)))
  unfolding send_message
  receive_message-send_message message trips =
      (rw (trips, ◌>>=◌, message_eq_refl message), receive_message-reply message trips)

-- The ids in a message.
abbrev pub IsMessage : Message → Type 0
IsMessage (ping p) = IsPeerId p
IsMessage (pong p) = IsPeerId p
IsMessage (find_peer p) = IsPeerId p
IsMessage (find_peer_response_peer_found c) = IsPeerId c.peer_id
IsMessage (find_peer_response_peer_not_found p cs) = IsPeerId p

-- The messages that are to be sent.
abbrev pub wanted : PeerId → Message → Calls
wanted self (ping id) = (id, pong self) ∷ []
wanted self (pong id) = []
wanted self (find_peer id) = (id, find_peer_response_peer_not_found id []) ∷ []
wanted self (find_peer_response_peer_found c) = (c.peer_id, ping self) ∷ []
wanted self (find_peer_response_peer_not_found id cs) = map (λ c. (c.peer_id, find_peer id)) cs

-- What a pong adds to what the map finds.
abbrev pub learned :
    (PeerId → Option ContactInfo) → SocketAddr → Message → PeerId → Option ContactInfo
learned f addr (pong p) q = or_else (f q) (alone (record { peer_id = p; address = addr }) q)
learned f addr _ q = f q

-- What the peer does about a message.
pub record Handles (s : SharedState) (addr : SocketAddr) (msg : Message) (r : SharedState × Calls)
    : Type 0 where
  pub valid : IsValid r.0.peermap
  pub same_id : r.0.id ≡ s.id
  pub calls : r.1 ≡ wanted s.id msg
  pub learns :
      (q : PeerId) → find q (peers r.0.peermap) ≡ learned (λ p. find p (peers s.peermap)) addr msg q

ask_all-map :
    (id : PeerId) (cs : List ContactInfo) → ask_all id cs ≡ map (λ c. (c.peer_id, find_peer id)) cs
unfolding ask_all
ask_all-map id [] = refl
ask_all-map id (c ∷ cs) = ap (λ t. (c.peer_id, find_peer id) ∷ t) (ask_all-map id cs)

-- A peer with a valid map panics on no message with ids of 32 bytes, and its map stays valid. It wants
-- to answer a ping by a pong with its own id, to ask each neighbor of a response, and to ping a peer
-- that was found; it answers every request for a peer by "not found" and no neighbors, even if it
-- knows the peer. Only a pong changes the map: it adds the peer if it is new.
pub handle_message_from-Handles :
    (s : SharedState) (addr : SocketAddr) (msg : Message)
    → IsValid s.peermap
    → IsMessage msg
    → Returns (handle_message_from s addr msg) (Handles s addr msg)
unfolding handle_message_from lookup
handle_message_from-Handles s addr (ping id) v good =
    (_, refl, record { valid = v; same_id = refl; calls = refl; learns = λ q. refl })
handle_message_from-Handles s addr (pong id) v good =
    let (m, run, k) = insert-Keeps v (record { peer_id = id; address = addr }) good in
    (_, rw run, record { valid = k.valid; same_id = refl; calls = refl; learns = k.reads })
handle_message_from-Handles s addr (find_peer id) v good =
    (_, refl, record { valid = v; same_id = refl; calls = refl; learns = λ q. refl })
handle_message_from-Handles s addr (find_peer_response_peer_found c) v good =
    (_, refl, record { valid = v; same_id = refl; calls = refl; learns = λ q. refl })
handle_message_from-Handles s addr (find_peer_response_peer_not_found id cs) v good =
    (_, refl, record { valid = v; same_id = refl; calls = ask_all-map id cs; learns = λ q. refl })
