-- ===== src/Peer/Tests.antt =====
-- src/peer.rs: the theorems at a map with one contact, with a serializer made for the messages at hand.
use world_dat.Base.{
  panic, zero, suc, ℕ, Bool, true, false, List, ◌++◌, ◌+◌, ◌*◌, ◌<◌, leb, ◌==◌, arith, length,
  replicate, length-replicate, if◌then◌else◌, ◌≡◌, refl, none, some, [], ◌∷◌, ok, Returns,
}
use world_dat.Peer.{
  ContactInfo, PeerMap, ping, pong, SharedState, Codec, insert, handle_message_from, send_message,
}
use world_dat.Hash.{blake2_hash_size}
use world_dat.Peer.{message_eq}
use world_dat.Peer.Accept.{listen-stops}
use world_dat.Peer.Listen.{start, Conversation, talk_to_peer, listen}
use world_dat.Peer.Session.{send_on, write_and_close}
use world_dat.Peer.Start.{Resolver}
use world_dat.Peer2.Samples.{files, quinn, options}
use world_dat.Program.Results.{Result, done}
use world_dat.Types.{SocketAddr}
use world_dat.Peer.Insert.{IsValid, Keeps, insert-Keeps}
use world_dat.Peer.Session.{Transport, bi, uni, receive_on, outgoing_stream, incoming_streams}
use world_dat.Peer.Streams.{Link, Holds, incoming_streams-pong}
use world_dat.Peer.Talk.{Handles, handle_message_from-Handles}
use world_dat.Types.{id_eq}
use world_dat.Types.Samples.{id1, id2, id3, id2-IsPeerId, id3-IsPeerId, home, away}

abbrev info : ContactInfo
info = record { peer_id = id2; address = home }

abbrev one_contact : PeerMap
one_contact = record {
  buckets = record { known_peers = info ∷ []; address_range = (0, 256) } ∷ [];
  bucket_size = 8;
}

one_contact-IsValid : IsValid one_contact
one_contact-IsValid = record { width = refl; goods = (id2-IsPeerId, tt); sorted = (tt, tt) }

insert-Keeps_example :
    Returns
      (insert one_contact (record { peer_id = id2; address = away }))
      (Keeps one_contact (record { peer_id = id2; address = away }))
insert-Keeps_example =
    insert-Keeps one_contact-IsValid (record { peer_id = id2; address = away }) id2-IsPeerId

abbrev state : SharedState
state = record { id = id1; peermap = one_contact }

handle_message_from-Handles_example :
    Returns (handle_message_from state away (pong id3)) (Handles state away (pong id3))
handle_message_from-Handles_example =
    handle_message_from-Handles state away (pong id3) one_contact-IsValid id3-IsPeerId

-- It writes the ids of pings and pongs, and reads them; it panics on ids of another length.
abbrev codec : Codec
codec = record {
  to_vec = λ m. elim m [ ping p ↦ 0 ∷ p.hash.bytes | pong p ↦ 1 ∷ p.hash.bytes | _ ↦ [] ];
  from_slice = λ bytes. elim bytes [
    | [] ↦ ok none
    | tag ∷ id ↦ elim (length id == blake2_hash_size) [
      | false ↦ panic
      | true ↦ elim tag [
        | zero ↦ ok (some (ping (record { hash = record { bytes = id } })))
        | suc k ↦ ok (some (pong (record { hash = record { bytes = id } })))
      ]
    ]
  ];
}

-- What this end has written, whether it is shut down, and what the other end has written.
abbrev Wire : Type 0
Wire = List ℕ × Bool × List ℕ

abbrev wires : Transport
wires = record {
  Stream = Wire;
  write_all = λ s bytes. some (s.0 ++ bytes, s.1, s.2);
  shutdown = λ s. some (s.0, true, s.2);
  read_to_end = λ s limit. if leb (length s.2) limit then some (s, s.2) else none;
}

abbrev link : Link wires
link = record {
  written = λ s. s.0;
  closed = λ s. s.1;
  other_end = λ s. ([], false, s.0);
  writes = λ s bytes h. (_, refl, refl, h);
  closes = λ s h. (_, refl, refl, refl);
  reads = λ s limit h short.
      let fits : leb (length s.0) limit ≡ true = ground (arith, short) in
      (([], false, s.0), rw fits, refl, refl);
}

incoming_streams-pong_example :
    (asked : Wire) × (answered : Wire) × (outgoing_stream codec wires state (some ([], false, []))
      ≡ ok (some asked))
    × Holds codec wires link (codec.to_vec (ping state.id)) asked
    × (incoming_streams codec wires (some (bi (link.other_end asked)) ∷ [])
        ≡ ok (answered ∷ [], true))
    × Holds codec wires link (codec.to_vec (pong state.id)) answered
incoming_streams-pong_example =
    incoming_streams-pong codec wires link state ([], false, []) refl refl refl (omega arith)

-- What the other end has written is too long.
receive_on_long :
    (bytes : List ℕ)
    → 1024 * 64 < length bytes
    → receive_on codec wires ([], false, bytes) ≡ ok none
unfolding receive_on
receive_on_long bytes h =
    let fits : leb (length bytes) (1024 * 64) ≡ false = ground (arith, h) in rw (receive_on, fits)

abbrev long : Wire
long = ([], false, replicate (1024 * 64 + 1) 0)

-- A peer that sends one stream, which is too long, and one that comes later.
abbrev rude : Conversation codec wires
rude = record { opened = some ([], false, []); incoming = some (bi long) ∷ [] }

abbrev polite : Conversation codec wires
polite = record { opened = some ([], false, []); incoming = [] }

abbrev pinged : Wire
pinged = (codec.to_vec (ping id1), true, [])

polite-talks : talk_to_peer codec wires state polite ≡ ok true
unfolding talk_to_peer outgoing_stream incoming_streams send_on send_message write_and_close
    message_eq id_eq
polite-talks = refl

rude-pinged : outgoing_stream codec wires state (some ([], false, [])) ≡ ok (some pinged)
unfolding outgoing_stream send_on send_message write_and_close message_eq id_eq
rude-pinged = refl

listen-stops_example :
    listen codec wires state (polite ∷ rude ∷ polite ∷ []) ≡ ok (polite ∷ rude ∷ [], false)
listen-stops_example =
    listen-stops codec wires state (polite ∷ []) (polite ∷ []) rude pinged [] (some (bi long)) []
      (polite-talks, tt) rude-pinged refl tt
      (receive_on_long long.2 (omega (arith, length-replicate {A = ℕ} (1024 * 64 + 1) 0)))

abbrev resolver : Resolver
resolver = record {
  Url = SocketAddr;
  HostAndPort = SocketAddr;
  Error = Unit {0};
  with_default_port = λ url port. done url;
  to_socket_addrs = λ host. done (host ∷ []);
}

abbrev no_error : Result (Unit {0}) (Unit {0})
no_error = done tt

start_test :
    start files quinn resolver codec wires state (options 1) (some away) (some polite) [] (done tt)
    ≡ ok (done tt)
unfolding start outgoing_stream incoming_streams send_on send_message write_and_close message_eq
    id_eq
start_test = refl

-- A peer that opens a stream in one direction makes `start` panic.
start_uni_test :
    start files quinn resolver codec wires state
      (options 1)
      none
      none
      (record { opened = some ([], false, []); incoming = some uni ∷ [] } ∷ [])
      (done tt)
    ≡ panic
unfolding start outgoing_stream incoming_streams send_on send_message write_and_close message_eq
    id_eq
start_uni_test = refl
