-- ===== src/Peer2/Tests.antt =====
-- src/peer2.rs: `escaped` on a few bytes, and a peer with one connection.
use world_dat.Base.{
  true, false, ◌≡◌, refl, some, [], ◌∷◌, All, ok, panic, ◌++◌, inl, Returns, arith,
}
use world_dat.Peer2.{escaped}
use world_dat.Peer2.Escape.{unescape, IsPrintable, unescape-escaped}
use world_dat.Peer2.Node.{raw, task_ended, worker_takes, handle_events}
use world_dat.Peer2.Requests.{Handled, handle_events-Handled, handle_events_gone}
use world_dat.Peer2.Samples.{files, quinn, peer, events}
use world_dat.Types.Samples.{home, away}

escaped_test : escaped (65 ∷ 10 ∷ 255 ∷ []) ≡ 65 ∷ 92 ∷ 110 ∷ 92 ∷ 120 ∷ 102 ∷ 102 ∷ []
unfolding escaped
escaped_test = refl

unescape-escaped_example :
    (unescape 3 (escaped (65 ∷ 10 ∷ 255 ∷ [])) ≡ some (65 ∷ 10 ∷ 255 ∷ []))
    × All IsPrintable (escaped (65 ∷ 10 ∷ 255 ∷ []))
unescape-escaped_example = unescape-escaped 3 (65 ∷ 10 ∷ 255 ∷ []) (omega arith) (omega arith)

handle_events-Handled_example :
    Returns (handle_events files quinn events peer) (Handled files quinn events peer)
handle_events-Handled_example =
    handle_events-Handled files quinn events peer (([], refl), (inl refl, (inl refl, tt)))

-- A request that is read after the worker's thread has ended.
handle_events_gone_example :
    handle_events files quinn (events ++ task_ended (home, 104 ∷ []) ∷ worker_takes ∷ []) peer
    ≡ panic
handle_events_gone_example =
    handle_events_gone files quinn events peer (([], refl), (inl refl, (inl refl, tt))) refl home
      (104 ∷ []) [] (104 ∷ []) refl (worker_takes ∷ [])

-- What the worker has taken: the request that was read first.
handle_events_test :
    handle_events files quinn events peer
    ≡ ok (
      record peer {
        connections = (away, away) ∷ [];
        peer_state = record {
          queue = raw away (104 ∷ 105 ∷ []) ∷ [];
          sender_alive = true;
          receiver_alive = false;
        };
      },
      raw away (104 ∷ []) ∷ [],
    )
unfolding handle_events
handle_events_test = refl
