-- ===== src/Sim/Load.antt =====
-- src/bin/sim.rs and src/worker.rs: how many actions the messages of a worker can still cause.
use world_dat.Base.{
  ltb, ℕ, Option, none, ok, ok_inj, expect, ◌>>=◌, Option-cases, Bool-cases, ◌+◌, ◌<◌, ◌≤◌, ◌≡◌, ap,
  ◌∙◌, some, is_some, List, [], ◌∷◌, total, total-append, inl, inr, if◌then◌else◌, arith,
}
use world_dat.Channel
use world_dat.HashMap
use world_dat.HashMap.{IterationOrder}
use world_dat.PeerMap.Invariant.{Entry}
use world_dat.Sim.{Queued, Workers, Parcel, deliver}
use world_dat.Sim.Carry.{with_mail}
use world_dat.Sim.Sound.{Mail, Mail-IsMessage, Sound, Served, idle, serves}
use world_dat.Sim.World.{rest}
use world_dat.Types.{
  PeerId, SocketAddr, socket_addr_eq, addr_eq, Message, ping, pong, find_peer,
  find_peer_response_peer_found, find_peer_response_peer_not_found,
}
use world_dat.Worker
use world_dat.Worker.{WorkerState, WorkerMessage, quit, incoming, Turn}
use world_dat.Worker.Handle.{knows, outbox, Answers}
use world_dat.Worker.Queue.{inbox}

-- A message is handled, its answer is collected and delivered, and that is handled.
abbrev pub message_load : Message → ℕ
message_load (ping p) = 4
message_load (pong p) = 1
message_load (find_peer p) = 4
message_load (find_peer_response_peer_found p a) = 1
message_load (find_peer_response_peer_not_found p l) = 1

abbrev pub control_load : WorkerMessage → ℕ
control_load quit = 1
control_load (incoming src msg) = message_load msg

-- A message that is to be collected and delivered.
abbrev pub sent_load : SocketAddr × Message → ℕ
sent_load m = message_load m.1 + 2

abbrev pub worker_load : WorkerState → ℕ
worker_load s = total control_load (inbox s) + total sent_load (outbox s)

-- 1 for a list with an element.
abbrev pub some_left {ℓ} : {A : Type ℓ} → List A → ℕ
some_left [] = 0
some_left (x ∷ xs) = 1

module _ (owner : SocketAddr → PeerId) (boot : SocketAddr) (entries : IterationOrder Entry)
    (a : SocketAddr) {s : WorkerState} (k : Sound owner boot a s) (src : SocketAddr) where
  -- An answer causes less than what it answers.
  Answers-load :
      (msg : Message) (m : Mail owner boot src a msg) (out : List (SocketAddr × Message))
      → Answers entries k.valid src msg (Mail-IsMessage owner boot src a msg m) out
      → total sent_load out < message_load msg
  Answers-load (ping p) m out e =
      let known : knows s p ≡ some k.itself.0 = ap (knows s) m.1 ∙ k.itself.1 in
      let one : out ≡ (src, pong s.peer_id) ∷ [] =
        e
        ∙ ap (λ o. (src, pong s.peer_id) ∷ (if is_some o then [] else (src, ping s.peer_id) ∷ []))
            known in
      omega (arith, ap (total sent_load) one)
  Answers-load (pong p) m out e = omega (arith, ap (total sent_load) e)
  Answers-load (find_peer p) m out e =
      let known : knows s p ≡ some k.itself.0 = ap (knows s) m.1 ∙ k.itself.1 in
      omega (arith, ap (total sent_load) (e.0 k.itself.0 known))
  Answers-load (find_peer_response_peer_found p x) m out e = omega (arith, ap (total sent_load) e)
  Answers-load (find_peer_response_peer_not_found p l) m out e = absurd m

-- A turn that serves a message takes away from the load.
pub turn-load :
    (owner : SocketAddr → PeerId) (boot : SocketAddr) (entries : IterationOrder Entry)
    (a : SocketAddr) {s : WorkerState} {t : Turn}
    → Served owner boot entries a s t
    → some_left (inbox s) + worker_load (rest t) ≤ worker_load s
turn-load owner boot entries a {s} (idle e how) =
    omega (arith, ap some_left e, ap (λ x. worker_load (rest x)) how)
turn-load owner boot entries a {s} (serves src msg q s' e m k h how) = omega (
  arith,
  ap some_left e,
  ap (λ x. worker_load (rest x)) how,
  ap (total control_load) e,
  ap (λ c. total control_load c.queue) h.same_inbox,
  ap (total sent_load) h.sends,
  total-append sent_load (outbox s) h.out,
  Answers-load owner boot entries a k src msg m h.out h.answers,
)

abbrev pub parcel_load : Parcel → ℕ
parcel_load p = message_load p.2 + 1

abbrev pub workers_load : Workers → ℕ
workers_load = total (λ e. worker_load e.1)

abbrev pub queue_load : List Queued → ℕ
queue_load = total (λ q. worker_load q.worker)

-- What is left at an address.
abbrev pub load_at : Option WorkerState → ℕ
load_at none = 0
load_at (some s) = worker_load s

pub insert-load :
    (a : SocketAddr) (s : WorkerState) (ws : Workers)
    → workers_load (HashMap.insert a s ws) + load_at (HashMap.get a ws)
      ≡ workers_load ws + worker_load s
unfolding HashMap.get HashMap.insert
insert-load a s [] = omega arith
insert-load a s (e ∷ ws) = elim (Bool-cases (addr_eq e.0 a)) [
  | inl same ↦ rw (HashMap.get, HashMap.insert, same) (omega arith)
  | inr other ↦ rw (HashMap.get, HashMap.insert, other) (omega (arith, insert-load a s ws))
]

abbrev pub collects : Option WorkerState → ℕ
collects none = 0
collects (some s) = some_left (outbox s)

pub deliver-load :
    (ws : Workers) (m : Parcel) {ws' : Workers}
    → deliver ws (m ∷ []) ≡ ok ws'
    → workers_load ws' ≤ workers_load ws + message_load m.2
unfolding deliver Worker.message Channel.send
deliver-load ws (src, dst, msg) {ws'} h = elim (Option-cases (HashMap.get dst ws)) [
  | inl e ↦ omega (arith, ap workers_load (ok_inj (rw (deliver, e) at h)))
  | inr (s, e) ↦ elim (Bool-cases s.control_receiver.receiver_alive) [
    | inl alive ↦
        let got : WorkerState = with_mail s (incoming src msg ∷ []) in
        let there : HashMap.insert dst got ws ≡ ws' =
          ok_inj (rw (deliver, e, Worker.message, Channel.send, alive, expect, ◌>>=◌) at h) in
        omega (
          arith,
          ap workers_load there,
          insert-load dst got ws,
          ap load_at e,
          total-append control_load (inbox s) (incoming src msg ∷ []),
        )
    | inr gone ↦
        absurd (cc (rw (deliver, e, Worker.message, Channel.send, gone, expect, ◌>>=◌) at h))
  ]
]

-- Whether the first in the queue is added.
abbrev pub adds : ℕ → Option (List Queued × Queued) → ℕ
adds elapsed none = 0
adds elapsed (some (queue, q)) = if ltb q.delay elapsed then 1 else 0
