-- ===== src/Worker.antt =====
-- src/worker.rs: the thread that decides what to answer, its channels and its handle.
pub mod Handle
pub mod Loop
pub mod Queue
pub mod Start
pub mod Stop
pub mod Turns
pub mod Samples
mod Tests
use world_dat.Base.{
  ℕ, zero, suc, Bool, true, false, Option, none, some, List, [], ◌∷◌, Run, ok, panic, ◌>>=◌, expect,
  inl, inr, is_some,
}
use world_dat.Channel
use world_dat.Channel.{Channel, got, empty, disconnected, channel}
use world_dat.HashMap.{IterationOrder}
use world_dat.PeerMap
use world_dat.PeerMap.{PeerMap}
use world_dat.Types.{
  PeerId, SocketAddr, Message, ping, pong, find_peer, find_peer_response_peer_found,
  find_peer_response_peer_not_found,
}

pub data WorkerMessage : Type 0 where
  quit : WorkerMessage
  incoming : SocketAddr → Message → WorkerMessage

-- Each channel stands for both of its ends; the handle's ends are those of `WorkerHandle`.
pub record WorkerState : Type 0 where
  pub message_sender : Channel (SocketAddr × Message)
  pub control_receiver : Channel WorkerMessage
  pub peer_id : PeerId
  pub peer_map : PeerMap

-- `WorkerState::start`, up to the thread that it spawns.
unfoldable pub start : PeerId → SocketAddr → Run WorkerState
unfolding PeerMap.insert PeerMap.default
start peer_id addr = do
  peer_map ← PeerMap.insert PeerMap.default peer_id addr peer_id
  ok (record {
    message_sender = channel;
    control_receiver = channel;
    peer_id = peer_id;
    peer_map = peer_map;
  })

unfoldable pub send : WorkerState → SocketAddr → Message → Run WorkerState
unfolding Channel.send
send s dest msg = do
  c ← expect (Channel.send s.message_sender (dest, msg))
  ok (record s { message_sender = c })

-- `WorkerMessageHandle::message`; `none` is `SendError`.
unfoldable pub message : WorkerState → SocketAddr → Message → Option WorkerState
unfolding Channel.send
message s source msg = elim (Channel.send s.control_receiver (incoming source msg)) [
  | none ↦ none
  | some c ↦ some (record s { control_receiver = c })
]

-- `WorkerHandle::recv_message`; `none` is `TryRecvError`.
unfoldable pub recv_message : WorkerState → Option ((SocketAddr × Message) × WorkerState)
unfolding Channel.recv
recv_message s = elim (Channel.recv s.message_sender) [
  | got m c ↦ some (m, record s { message_sender = c })
  | empty ↦ none
  | disconnected ↦ none
]

-- One turn of the loop of `run`: it goes on, has ended, or waits in `recv`.
pub data Turn : Type 0 where
  again : WorkerState → Turn
  ended : WorkerState → Turn
  waiting : WorkerState → Turn

-- The worker after a turn: once its thread has ended, its receiver is gone.
unfoldable pub left : Turn → WorkerState
left (again s) = s
left (ended s) = record s {
  control_receiver = record s.control_receiver { receiver_alive = false };
}
left (waiting s) = s

module _ (order : IterationOrder (PeerId × SocketAddr)) where
  -- The inner `match`: what the worker does about an incoming message.
  unfoldable pub handle : WorkerState → SocketAddr → Message → Run WorkerState
  unfolding send PeerMap.contains PeerMap.insert PeerMap.lookup
  handle s addr (ping other_id) = do
    s' ← send s addr (pong s.peer_id)
    known ← PeerMap.contains s'.peer_map s'.peer_id other_id
    elim (is_some known) [ true ↦ ok s' | false ↦ send s' addr (ping s'.peer_id) ]
  handle s addr (pong other_id) = do
    peer_map ← PeerMap.insert s.peer_map s.peer_id addr other_id
    ok (record s { peer_map = peer_map })
  handle s addr (find_peer desired_id) = do
    found ← PeerMap.lookup order s.peer_map s.peer_id desired_id
    elim found [
      | inl (peer_id, socket_addr) ↦ send s addr (find_peer_response_peer_found peer_id socket_addr)
      | inr neighbors ↦ send s addr (find_peer_response_peer_not_found desired_id neighbors)
    ]
  handle s addr (find_peer_response_peer_found id peer_addr) = ok s
  handle s addr (find_peer_response_peer_not_found id neighbors) = ok s

  -- What a turn does with a control message.
  unfoldable pub obey : WorkerState → WorkerMessage → Run Turn
  unfolding handle
  obey s quit = ok (ended s)
  obey s (incoming addr msg) = do s' ← handle s addr msg; ok (again s')

  unfoldable pub turn : WorkerState → Run Turn
  unfolding Channel.recv obey
  turn s = elim (Channel.recv s.control_receiver) [
    | got m c ↦ obey (record s { control_receiver = c }) m
    | empty ↦ ok (waiting s)
    | disconnected ↦ ok (ended s)
  ]

  -- The loop, for at most so many turns; `again` means that it would go on.
  unfoldable pub run : ℕ → WorkerState → Run Turn
  unfolding turn
  run zero s = ok (again s)
  run (suc n) s = do
    t ← turn s
    elim t [ again s' ↦ run n s' | ended s' ↦ ok (ended s') | waiting s' ↦ ok (waiting s') ]

  -- `WorkerHandle::quit`: `join` waits for the thread, so it runs here for at most so many turns; a
  -- panic of the thread is one of `expect`. `none` is `SendError`.
  unfoldable pub stop : ℕ → WorkerState → Run (Option Turn)
  unfolding Channel.send run
  stop n s = elim (Channel.send s.control_receiver quit) [
    | none ↦ ok none
    | some c ↦ do t ← run n (record s { control_receiver = c }); ok (some t)
  ]
