-- ===== src/Worker/Samples.antt =====
-- src/worker.rs: a worker for the tests, with one peer and three control messages.
use world_dat.Base.{refl, List, [], ◌∷◌, All}
use world_dat.Channel.{channel}
use world_dat.PeerMap.Samples.{one_peer, one_peer-IsValid}
use world_dat.Types.{ping, pong, find_peer}
use world_dat.Types.Samples.{id0, id1, id3, id1-IsPeerId, id3-IsPeerId, away}
use world_dat.Worker.{WorkerMessage, WorkerState, quit, incoming}
use world_dat.Worker.Handle.{IsValid}
use world_dat.Worker.Queue.{IsControl}

-- A ping from a peer it does not know, a pong, a request, the end, and a message behind it.
abbrev messages : List WorkerMessage
messages =
    incoming away (ping id3)
    ∷ incoming away (pong id1)
    ∷ incoming away (find_peer id3)
    ∷ quit
    ∷ incoming away (ping id1)
    ∷ []

abbrev pub worker : WorkerState
worker = record {
  message_sender = channel;
  control_receiver = record channel { queue = messages };
  peer_id = id0;
  peer_map = one_peer;
}

pub worker-IsValid : IsValid worker
worker-IsValid = record { map = one_peer-IsValid; listened = refl }

pub messages-IsControl : All IsControl worker.control_receiver.queue
messages-IsControl = (id3-IsPeerId, (id1-IsPeerId, (id3-IsPeerId, (tt, (id1-IsPeerId, tt)))))
