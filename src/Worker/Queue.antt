-- ===== src/Worker/Queue.antt =====
-- src/worker.rs: what the control messages in a channel ask of the worker.
use world_dat.Base.{
  ℕ, suc, ◌+◌, ◌≡◌, Bool, true, false, not, refl, ap, Option, List, [], ◌∷◌, ◌++◌, arith,
}
use world_dat.Types.{
  PeerId, SocketAddr, Message, ping, pong, find_peer, find_peer_response_peer_found,
  find_peer_response_peer_not_found,
}
use world_dat.Worker.{WorkerMessage, quit, incoming, WorkerState}
use world_dat.Worker.Handle.{IsMessage, learn}

-- The control messages that wait, oldest first.
abbrev pub inbox : WorkerState → List WorkerMessage
inbox s = s.control_receiver.queue

-- The messages before the first `quit`.
abbrev pub served : List WorkerMessage → List (SocketAddr × Message)
served [] = []
served (quit ∷ q) = []
served (incoming addr msg ∷ q) = (addr, msg) ∷ served q

-- The control messages behind the first `quit`.
abbrev pub unread : List WorkerMessage → List WorkerMessage
unread [] = []
unread (quit ∷ q) = q
unread (incoming addr msg ∷ q) = unread q

-- Whether the loop ends: at a `quit`, or at the end of the queue if no sender is left.
abbrev pub ends : List WorkerMessage → Bool → Bool
ends [] alive = not alive
ends (quit ∷ q) alive = true
ends (incoming addr msg ∷ q) alive = ends q alive

abbrev pub learn_all :
    (PeerId → Option SocketAddr) → List (SocketAddr × Message) → PeerId → Option SocketAddr
learn_all f [] = f
learn_all f ((addr, msg) ∷ ms) = learn_all (learn f addr msg) ms

abbrev pub pings : List (SocketAddr × Message) → ℕ
pings [] = 0
pings ((a, ping p) ∷ ms) = suc (pings ms)
pings ((a, pong p) ∷ ms) = pings ms
pings ((a, find_peer p) ∷ ms) = pings ms
pings ((a, find_peer_response_peer_found p b) ∷ ms) = pings ms
pings ((a, find_peer_response_peer_not_found p l) ∷ ms) = pings ms

pub pings-cons :
    (a : SocketAddr) (msg : Message) (ms : List (SocketAddr × Message))
    → pings ((a, msg) ∷ ms) ≡ pings ((a, msg) ∷ []) + pings ms
pings-cons a (ping p) ms = omega arith
pings-cons a (pong p) ms = omega arith
pings-cons a (find_peer p) ms = omega arith
pings-cons a (find_peer_response_peer_found p b) ms = omega arith
pings-cons a (find_peer_response_peer_not_found p l) ms = omega arith

abbrev pub pongs : List (SocketAddr × Message) → ℕ
pongs [] = 0
pongs ((a, pong p) ∷ ms) = suc (pongs ms)
pongs ((a, ping p) ∷ ms) = pongs ms
pongs ((a, find_peer p) ∷ ms) = pongs ms
pongs ((a, find_peer_response_peer_found p b) ∷ ms) = pongs ms
pongs ((a, find_peer_response_peer_not_found p l) ∷ ms) = pongs ms

pub pongs-append : (a b : List (SocketAddr × Message)) → pongs (a ++ b) ≡ pongs a + pongs b
pongs-append [] b = omega arith
pongs-append ((x, ping p) ∷ a) b = pongs-append a b
pongs-append ((x, pong p) ∷ a) b = omega (arith, pongs-append a b)
pongs-append ((x, find_peer p) ∷ a) b = pongs-append a b
pongs-append ((x, find_peer_response_peer_found p y) ∷ a) b = pongs-append a b
pongs-append ((x, find_peer_response_peer_not_found p l) ∷ a) b = pongs-append a b

abbrev pub IsControl : WorkerMessage → Type 0
IsControl quit = Unit
IsControl (incoming addr msg) = IsMessage msg

-- The worker once `recv` has taken a message and left `q`.
abbrev pub taken : WorkerState → List WorkerMessage → WorkerState
taken s q = record s { control_receiver = record s.control_receiver { queue = q } }

-- Behind a queue that does not end the loop, the rest of the messages is served as if it came alone.
pub ends-append :
    (q r : List WorkerMessage) (alive : Bool)
    → ends q alive ≡ false
    → ends (q ++ r) alive ≡ ends r alive
ends-append [] r alive h = refl
ends-append (quit ∷ q) r alive h = absurd (cc h)
ends-append (incoming addr msg ∷ q) r alive h = ends-append q r alive h

pub served-append :
    (q r : List WorkerMessage) (alive : Bool)
    → ends q alive ≡ false
    → served (q ++ r) ≡ served q ++ served r
served-append [] r alive h = refl
served-append (quit ∷ q) r alive h = absurd (cc h)
served-append (incoming addr msg ∷ q) r alive h =
    ap (λ ms. (addr, msg) ∷ ms) (served-append q r alive h)

pub learn_all-append :
    (f : PeerId → Option SocketAddr) (a b : List (SocketAddr × Message))
    → learn_all f (a ++ b) ≡ learn_all (learn_all f a) b
learn_all-append f [] b = refl
learn_all-append f ((addr, msg) ∷ a) b = learn_all-append (learn f addr msg) a b
