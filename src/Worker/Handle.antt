-- ===== src/Worker/Handle.antt =====
-- src/worker.rs: what the worker answers to each message, and what it learns from it.
use world_dat.Base.{
  ◌≡◌, refl, sym, ap, ◌∙◌, true, Bool-cases, Option-cases, Option, none, some, some_inj, is_some,
  List, [], ◌∷◌, ◌++◌, append_assoc, append-nil, ok, Returns, ◌>>=◌, inl, inr, if◌then◌else◌, arith,
}
use world_dat.Channel
use world_dat.Channel.{Channel}
use world_dat.HashMap.{IterationOrder}
use world_dat.PeerMap.Invariant.{Entry, view, named, contains-named}
use world_dat.PeerMap.Invariant as Map
use world_dat.PeerMap.Insert.{insert-Updates}
use world_dat.PeerMap.Closest.{Neighbors, lookup-Neighbors}
use world_dat.Types.{
  PeerId, SocketAddr, Message, ping, pong, find_peer, find_peer_response_peer_found,
  find_peer_response_peer_not_found, id_eq,
}
use world_dat.Types.Distance.{IsPeerId}
use world_dat.Worker.{WorkerState, send, handle}

-- The peer map is that of the worker's own id, and the handle still has the other end of the outgoing
-- channel.
pub record IsValid (s : WorkerState) : Type 0 where
  pub map : Map.IsValid s.peer_id s.peer_map
  pub listened : s.message_sender.receiver_alive ≡ true

-- What a worker knows: the address that its map holds of a peer.
abbrev pub knows : WorkerState → PeerId → Option SocketAddr
knows s q = view s.peer_map s.peer_id q

-- The messages that wait for the handle, oldest first.
abbrev pub outbox : WorkerState → List (SocketAddr × Message)
outbox s = s.message_sender.queue

-- The Rust type of the ids in a message.
abbrev pub IsMessage : Message → Type 0
IsMessage (ping p) = IsPeerId p
IsMessage (pong p) = IsPeerId p
IsMessage (find_peer p) = IsPeerId p
IsMessage (find_peer_response_peer_found p a) = IsPeerId p
IsMessage (find_peer_response_peer_not_found p ns) = IsPeerId p

-- What is known after a message: a pong puts the sender's address under the pong's id.
abbrev pub learn : (PeerId → Option SocketAddr) → SocketAddr → Message → PeerId → Option SocketAddr
learn f addr (pong p) q = if id_eq p q then some addr else f q
learn f addr (ping p) q = f q
learn f addr (find_peer p) q = f q
learn f addr (find_peer_response_peer_found p a) q = f q
learn f addr (find_peer_response_peer_not_found p ns) q = f q

abbrev pub learned : WorkerState → SocketAddr → Message → PeerId → Option SocketAddr
learned s = learn (knows s)

-- The worker with more messages in its outbox.
abbrev pub posted : WorkerState → List (SocketAddr × Message) → WorkerState
posted s out = record s { message_sender = record s.message_sender { queue = outbox s ++ out } }

posted_twice :
    (s : WorkerState) (a b : SocketAddr × Message)
    → posted (posted s (a ∷ [])) (b ∷ []) ≡ posted s (a ∷ b ∷ [])
posted_twice s a b =
    ap (λ q. record s { message_sender = record s.message_sender { queue = q } })
      (append_assoc (outbox s) (a ∷ []) (b ∷ []))

send-posted :
    (s : WorkerState) (dest : SocketAddr) (msg : Message)
    → s.message_sender.receiver_alive ≡ true
    → send s dest msg ≡ ok (posted s ((dest, msg) ∷ []))
unfolding send Channel.send
send-posted s dest msg h = ground (arith, h)

is_some-named : (p : PeerId) (o : Option SocketAddr) → is_some (named p o) ≡ is_some o
is_some-named p none = refl
is_some-named p (some a) = refl

module _ (order : IterationOrder Entry) {s : WorkerState} (v : IsValid s) (addr : SocketAddr) where
  -- The answers to a message, in order.
  abbrev pub Answers : (msg : Message) → IsMessage msg → List (SocketAddr × Message) → Type 0
  Answers (ping p) good out =
      out
      ≡ (addr, pong s.peer_id) ∷ (if is_some (knows s p) then [] else (addr, ping s.peer_id) ∷ [])
  Answers (find_peer p) good out =
      ((a : SocketAddr) → knows s p ≡ some a → out ≡ (addr, find_peer_response_peer_found p a) ∷ [])
      × (knows s p ≡ none
          → (l : List Entry) × (out ≡ (addr, find_peer_response_peer_not_found p l) ∷ [])
            × Neighbors order v.map good l)
  Answers _ good out = out ≡ []

  pub record Handles (msg : Message) (good : IsMessage msg) (s' : WorkerState) : Type 0 where
    pub valid : IsValid s'
    pub same_id : s'.peer_id ≡ s.peer_id
    pub same_inbox : s'.control_receiver ≡ s.control_receiver
    pub out : List (SocketAddr × Message)
    pub sends : outbox s' ≡ outbox s ++ out
    pub answers : Answers msg good out
    pub learns : (q : PeerId) → knows s' q ≡ learned s addr msg q

  posted-Handles :
      (msg : Message) (good : IsMessage msg) (out : List (SocketAddr × Message))
      → Answers msg good out
      → ((q : PeerId) → learned s addr msg q ≡ knows s q)
      → Handles msg good (posted s out)
  posted-Handles msg good out a same = record {
    valid = record { map = v.map; listened = v.listened };
    same_id = refl;
    same_inbox = refl;
    out = out;
    sends = refl;
    answers = a;
    learns = λ q. sym (same q);
  }

  handle_ping :
      (p : PeerId) (good : IsPeerId p)
      → Returns (handle order s addr (ping p)) (Handles (ping p) good)
  unfolding handle
  handle_ping p good =
      let first = send-posted s addr (pong s.peer_id) v.listened in
      let asked = contains-named v.map good in
      let test = is_some-named p (knows s p) in
      elim (Bool-cases (is_some (knows s p))) [
        | inl known ↦ (
          posted s ((addr, pong s.peer_id) ∷ []),
          rw (first, ◌>>=◌, asked, ◌>>=◌, test, known),
          posted-Handles (ping p) good _ (rw known) (λ q. refl),
        )
        | inr unknown ↦
            let pong_sent : WorkerState = posted s ((addr, pong s.peer_id) ∷ []) in
            (
              posted s ((addr, pong s.peer_id) ∷ (addr, ping s.peer_id) ∷ []),
              rw
                  (
                    first,
                    ◌>>=◌,
                    asked,
                    ◌>>=◌,
                    test,
                    unknown,
                    send-posted pong_sent addr (ping s.peer_id) v.listened,
                  )
                  (ap ok (posted_twice s (addr, pong s.peer_id) (addr, ping s.peer_id))),
              posted-Handles (ping p) good _ (rw unknown) (λ q. refl),
            )
      ]

  handle_find_peer :
      (p : PeerId) (good : IsPeerId p)
      → Returns (handle order s addr (find_peer p)) (Handles (find_peer p) good)
  unfolding handle
  handle_find_peer p good =
      let (r, run, (found, missing)) = lookup-Neighbors order v.map good in
      elim (Option-cases (knows s p)) [
        | inr (a, e) ↦ (
          posted s ((addr, find_peer_response_peer_found p a) ∷ []),
          rw (run, found a e, ◌>>=◌)
              (send-posted s addr (find_peer_response_peer_found p a) v.listened),
          posted-Handles (find_peer p) good _
              (
                (λ b f.
                    ap (λ x. (addr, find_peer_response_peer_found p x) ∷ [])
                      (some_inj (sym e ∙ f))),
                (λ f. absurd (cc (sym e ∙ f))),
              )
              (λ q. refl),
        )
        | inl e ↦
            let (l, same, closest) = missing e in
            (
              posted s ((addr, find_peer_response_peer_not_found p l) ∷ []),
              rw (run, same, ◌>>=◌)
                  (send-posted s addr (find_peer_response_peer_not_found p l) v.listened),
              posted-Handles (find_peer p) good _
                  ((λ b f. absurd (cc (sym e ∙ f))), (λ _. (l, refl, closest))) (λ q. refl),
            )
      ]

  handle_pong :
      (p : PeerId) (good : IsPeerId p)
      → Returns (handle order s addr (pong p)) (Handles (pong p) good)
  unfolding handle
  handle_pong p good =
      let (m, run, i) = insert-Updates v.map addr good in
      (
        record s { peer_map = m },
        rw run,
        record {
          valid = record { map = i.valid; listened = v.listened };
          same_id = refl;
          same_inbox = refl;
          out = [];
          sends = sym (append-nil (outbox s));
          answers = refl;
          learns = i.reads;
        },
      )

  quiet :
      (msg : Message) (good : IsMessage msg)
      → Answers msg good []
      → ((q : PeerId) → learned s addr msg q ≡ knows s q)
      → Handles msg good s
  quiet msg good a same = record {
    valid = v;
    same_id = refl;
    same_inbox = refl;
    out = [];
    sends = sym (append-nil (outbox s));
    answers = a;
    learns = λ q. sym (same q);
  }

  -- A valid worker panics on no message with ids of 32 bytes and stays valid. It answers a ping by a pong, and by a ping
  -- of its own exactly if it does not know the peer; it answers a request for a peer by the address
  -- that it knows, or else by peers as `find_closest_peers` returns them; it answers nothing else. A
  -- pong puts the sender's address under the pong's id, and nothing else changes what it knows.
  pub handle-Handles :
      (msg : Message) (good : IsMessage msg) → Returns (handle order s addr msg) (Handles msg good)
  unfolding handle
  handle-Handles (ping p) good = handle_ping p good
  handle-Handles (pong p) good = handle_pong p good
  handle-Handles (find_peer p) good = handle_find_peer p good
  handle-Handles (find_peer_response_peer_found p a) good =
      (s, refl, quiet (find_peer_response_peer_found p a) good refl (λ q. refl))
  handle-Handles (find_peer_response_peer_not_found p ns) good =
      (s, refl, quiet (find_peer_response_peer_not_found p ns) good refl (λ q. refl))
