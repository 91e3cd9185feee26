-- ===== src/Sim/Carry.antt =====
-- src/bin/sim.rs: which messages arrive where.
use world_dat.Base.{
  ℕ, zero, suc, ◌≡◌, ◌≤◌, refl, sym, ap, ◌∙◌, true, Option, none, some, some_inj, Option-cases,
  Bool-cases, List, [], ◌∷◌, ◌++◌, append_assoc, append-nil, length, ◌>>=◌, Returns, if◌then◌else◌,
  inl, inr, arith, subst,
}
use world_dat.Channel
use world_dat.HashMap
use world_dat.HashMap.Laws.{get-insert}
use world_dat.Types.{SocketAddr, socket_addr_eq, addr_eq, addr_eq_iff, Message}
use world_dat.Worker
use world_dat.Worker.{WorkerState, WorkerMessage, incoming}
use world_dat.Worker.Handle.{outbox}
use world_dat.Sim.{Parcel, Workers, collect, deliver}

-- The worker that has got these messages as well.
abbrev pub with_mail : WorkerState → List WorkerMessage → WorkerState
with_mail w q = record w {
  control_receiver = record w.control_receiver { queue = w.control_receiver.queue ++ q };
}

-- The messages for an address, in order.
abbrev pub sent_to : SocketAddr → List Parcel → List WorkerMessage
sent_to a [] = []
sent_to a ((src, dest, msg) ∷ ms) =
    if addr_eq dest a then incoming src msg ∷ sent_to a ms else sent_to a ms

abbrev pub mailed : List WorkerMessage → Option WorkerState → Option WorkerState
mailed q none = none
mailed q (some w) = some (with_mail w q)

-- Every worker in the map still runs.
abbrev pub Running : Workers → Type 0
Running ws =
    (a : SocketAddr) (w : WorkerState)
    → HashMap.get a ws ≡ some w
    → w.control_receiver.receiver_alive ≡ true

pub message-with_mail :
    (w : WorkerState) (src : SocketAddr) (msg : Message)
    → w.control_receiver.receiver_alive ≡ true
    → Worker.message w src msg ≡ some (with_mail w (incoming src msg ∷ []))
unfolding Worker.message Channel.send
message-with_mail w src msg h = ground (arith, h)

mailed-none : (o : Option WorkerState) → mailed [] o ≡ o
mailed-none none = refl
mailed-none (some w) =
    ap (λ q. some (record w { control_receiver = record w.control_receiver { queue = q } }))
      (append-nil w.control_receiver.queue)

mailed-mailed :
    (p q : List WorkerMessage) (o : Option WorkerState) → mailed q (mailed p o) ≡ mailed (p ++ q) o
mailed-mailed p q none = refl
mailed-mailed p q (some w) =
    ap (λ r. some (record w { control_receiver = record w.control_receiver { queue = r } }))
      (append_assoc w.control_receiver.queue p q)

pub insert-Running :
    (ws : Workers) (dest : SocketAddr) (w : WorkerState)
    → Running ws
    → w.control_receiver.receiver_alive ≡ true
    → Running (HashMap.insert dest w ws)
insert-Running ws dest w h alive a w' e = elim (Bool-cases (addr_eq dest a)) [
  | inl same ↦
      ap (λ x. x.control_receiver.receiver_alive)
        (some_inj {x = w'} {y = w} (sym e ∙ get-insert dest a w ws ∙ rw same))
      ∙ alive
  | inr other ↦ h a w' (rw other at (sym (get-insert dest a w ws) ∙ e))
]

-- The next message, for its address and for the others.
sent_next :
    (ws : Workers) (src dest : SocketAddr) (msg : Message) (ms : List Parcel) (w : WorkerState)
    → HashMap.get dest ws ≡ some w
    → (a : SocketAddr)
    → mailed
        (sent_to a ms)
        (HashMap.get a (HashMap.insert dest (with_mail w (incoming src msg ∷ [])) ws))
      ≡ mailed (sent_to a ((src, dest, msg) ∷ ms)) (HashMap.get a ws)
sent_next ws src dest msg ms w here a =
    let first : List WorkerMessage = incoming src msg ∷ [] in
    elim (Bool-cases (addr_eq dest a)) [
      | inl same ↦
          let there : HashMap.get a ws ≡ some w =
            subst (λ x. HashMap.get x ws ≡ some w) ((addr_eq_iff dest a).0 same) here in
          let now : HashMap.get a (HashMap.insert dest (with_mail w first) ws)
              ≡ some (with_mail w first) =
            get-insert dest a (with_mail w first) ws
            ∙ ap (λ b. if b then some (with_mail w first) else HashMap.get a ws) same in
          rw (now, there, same) (mailed-mailed first (sent_to a ms) (some w))
      | inr other ↦
          let now : HashMap.get a (HashMap.insert dest (with_mail w first) ws) ≡ HashMap.get a ws =
            get-insert dest a (with_mail w first) ws
            ∙ ap (λ b. if b then some (with_mail w first) else HashMap.get a ws) other in
          rw (now, other)
    ]

-- If all workers run, the delivery panics for no messages: the worker of each address gets the
-- messages to that address behind those that it had, in order, and no others; messages to an address
-- without a worker are dropped, and no worker is added or removed.
pub deliver-mailed :
    (ws : Workers) (ms : List Parcel)
    → Running ws
    → Returns
        (deliver ws ms)
        λ ws'. (a : SocketAddr) → HashMap.get a ws' ≡ mailed (sent_to a ms) (HashMap.get a ws)
unfolding deliver
deliver-mailed ws [] h = (ws, refl, λ a. sym (mailed-none (HashMap.get a ws)))
deliver-mailed ws ((src, dest, msg) ∷ ms) h = elim (Option-cases (HashMap.get dest ws)) [
  | inl absent ↦
      let (ws', run, get) = deliver-mailed ws ms h in
      (
        ws',
        rw (deliver, absent) run,
        λ a. get a ∙ elim (Bool-cases (addr_eq dest a)) [
          | inl same ↦
              let there : HashMap.get a ws ≡ none =
                subst (λ x. HashMap.get x ws ≡ none) ((addr_eq_iff dest a).0 same) absent in
              rw there
          | inr other ↦ rw other
        ],
      )
  | inr (w, here) ↦
      let next : WorkerState = with_mail w (incoming src msg ∷ []) in
      let (ws', run, get) =
        deliver-mailed (HashMap.insert dest next ws) ms
          (insert-Running ws dest next h (h dest w here)) in
      (
        ws',
        rw (deliver, here, message-with_mail w src msg (h dest w here), ◌>>=◌) run,
        λ a. get a ∙ sent_next ws src dest msg ms w here a,
      )
]

-- The worker whose messages have been taken.
abbrev pub emptied : WorkerState → WorkerState
emptied w = record w { message_sender = record w.message_sender { queue = [] } }

abbrev pub parcels : SocketAddr → List (SocketAddr × Message) → List Parcel
parcels src [] = []
parcels src ((dst, msg) ∷ ms) = (src, dst, msg) ∷ parcels src ms

abbrev with_outbox : WorkerState → List (SocketAddr × Message) → WorkerState
with_outbox w q = record w { message_sender = record w.message_sender { queue = q } }

recv_message-none : (w : WorkerState) → Worker.recv_message (with_outbox w []) ≡ none
unfolding Worker.recv_message Channel.recv
recv_message-none w = elim (Bool-cases w.message_sender.sender_alive) [
  | inl alive ↦ rw (Worker.recv_message, Channel.recv, alive)
  | inr gone ↦ rw (Worker.recv_message, Channel.recv, gone)
]

collect-with_outbox :
    (q : List (SocketAddr × Message)) (n : ℕ) (src : SocketAddr) (w : WorkerState)
    → length q ≤ n
    → collect n src (with_outbox w q) ≡ (parcels src q, emptied w)
unfolding collect Worker.recv_message Channel.recv
collect-with_outbox [] zero src w h = refl
collect-with_outbox (x ∷ q) zero src w h = absurd (omega arith)
collect-with_outbox [] (suc n) src w h = rw (collect, recv_message-none w)
collect-with_outbox ((dst, msg) ∷ q) (suc n) src w h =
    ap (λ r. ((src, dst, msg) ∷ r.0, r.1)) (collect-with_outbox q n src w (omega arith))

-- Enough turns, as many as there are messages, take all messages that a worker has sent, in order
-- and with the worker's address as their source, and leave none.
pub collect-parcels :
    (n : ℕ) (src : SocketAddr) (w : WorkerState)
    → length (outbox w) ≤ n
    → collect n src w ≡ (parcels src (outbox w), emptied w)
collect-parcels n src w h = collect-with_outbox (outbox w) n src w h
