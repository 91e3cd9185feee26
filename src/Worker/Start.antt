-- ===== src/Worker/Start.antt =====
-- src/worker.rs: a worker that has just been started.
use world_dat.Base.{◌≡◌, refl, ◌∙◌, ap, none, some, Returns, ◌>>=◌, if◌then◌else◌}
use world_dat.Channel.{channel}
use world_dat.HashMap
use world_dat.Hash.{max_power}
use world_dat.PeerMap
use world_dat.PeerMap.{PeerMap, new_bucket}
use world_dat.PeerMap.Invariant.{view, default-IsValid, get_or-replicate}
use world_dat.PeerMap.Insert.{insert-Updates}
use world_dat.Types.{PeerId, SocketAddr, id_eq}
use world_dat.Types.Distance.{IsPeerId, rank}
use world_dat.Worker.{WorkerState, start}
use world_dat.Worker.Handle.{IsValid, knows}

default-view : (self q : PeerId) → view PeerMap.default self q ≡ none
unfolding view PeerMap.default HashMap.get
default-view self q = rw (get_or-replicate max_power (rank self q))

-- A worker as `start` leaves it.
pub record Starts (p : PeerId) (addr : SocketAddr) (s : WorkerState) : Type 0 where
  pub valid : IsValid s
  pub own_id : s.peer_id ≡ p
  pub control : s.control_receiver ≡ channel
  pub sender : s.message_sender ≡ channel
  pub knows_itself : (q : PeerId) → knows s q ≡ (if id_eq p q then some addr else none)

-- `start` panics for no id of 32 bytes. The worker has empty channels, and knows exactly itself,
-- under its own address.
pub start-Starts :
    {p : PeerId} (addr : SocketAddr) → IsPeerId p → Returns (start p addr) (Starts p addr)
unfolding start
start-Starts {p} addr good =
    let (m, run, i) = insert-Updates (default-IsValid good) addr good in
    (
      record { message_sender = channel; control_receiver = channel; peer_id = p; peer_map = m },
      rw (run, ◌>>=◌),
      record {
        valid = record { map = i.valid; listened = refl };
        own_id = refl;
        control = refl;
        sender = refl;
        knows_itself =
            λ q. i.reads q ∙ ap (λ o. if id_eq p q then some addr else o) (default-view p q);
      },
    )
