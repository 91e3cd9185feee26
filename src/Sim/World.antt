-- ===== src/Sim/World.antt =====
-- src/bin/sim.rs and src/worker.rs together: the simulator's thread and the threads of the workers,
-- one atomic action at a time, in any order.
use world_dat.Base.{
  ℕ, ◌≡◌, none, some, List, [], ◌∷◌, ◌++◌, map, Run, ok, ◌>>=◌, get_elem?, set, false,
}
use world_dat.HashMap
use world_dat.HashMap.{IterationOrder}
use world_dat.PeerMap.Invariant.{Entry}
use world_dat.Sim.{Workers, Parcel, Queued, WorkerSim, sort_queue, add_due, deliver}
use world_dat.Types.{SocketAddr, socket_addr_eq}
use world_dat.Worker
use world_dat.Worker.{WorkerState, Turn, again, ended, waiting, turn}

-- Where the simulator's thread stands in a round of `run`; `collecting` has the workers that the
-- loop over them has yet to visit.
pub data Phase : Type 0 where
  adding : Phase
  collecting : List SocketAddr → Phase
  delivering : Phase

pub record World (Rand64 : Type 0) : Type 0 where
  pub sim : WorkerSim Rand64
  pub messages : List Parcel
  pub phase : Phase

-- `run` up to its loop.
abbrev pub begin : {Rand64 : Type 0} → WorkerSim Rand64 → World Rand64
begin sim = record {
  sim = record sim { worker_add_queue = sort_queue sim.worker_add_queue };
  messages = [];
  phase = adding;
}

-- What is left of a worker after a turn: a thread that has ended drops its ends of the channels.
abbrev pub rest : Turn → WorkerState
rest (again s) = s
rest (waiting s) = s
rest (ended s) = record s {
  message_sender = record s.message_sender { sender_alive = false };
  control_receiver = record s.control_receiver { receiver_alive = false };
}

module _ {Rand64 : Type 0} where
  abbrev pub with_workers : World Rand64 → Workers → World Rand64
  with_workers w workers = record w { sim = record w.sim { workers = workers } }

  -- One message of the worker at `a` is taken, or the loop goes on to the next worker.
  unfoldable pub collect_one :
      World Rand64 → SocketAddr → List SocketAddr → WorkerState → World Rand64
  unfolding Worker.recv_message HashMap.insert
  collect_one w a later worker = elim (Worker.recv_message worker) [
    | none ↦ record w { phase = collecting later }
    | some ((dst, msg), worker') ↦
        record (with_workers w (HashMap.insert a worker' w.sim.workers)) {
          messages = w.messages ++ (a, dst, msg) ∷ [];
        }
  ]

  -- The next message is delivered, or the round is over.
  unfoldable pub deliver_one : World Rand64 → List Parcel → Run (World Rand64)
  unfolding deliver
  deliver_one w [] = ok (record w { phase = adding })
  deliver_one w (m ∷ ms) = do
    workers ← deliver w.sim.workers (m ∷ [])
    ok (record (with_workers w workers) { messages = ms })

  -- The next action of the simulator's thread, at the time that has passed.
  unfoldable pub main_step :
      IterationOrder (SocketAddr × WorkerState) → ℕ → World Rand64 → Phase → Run (World Rand64)
  unfolding add_due collect_one HashMap.get deliver_one
  main_step order elapsed w adding =
      let sim = add_due elapsed w.sim in
      let keys = map (λ e. e.0) (order.arrange sim.workers) in
      ok (record w { sim = sim; phase = collecting keys })
  main_step order elapsed w (collecting []) = ok (record w { phase = delivering })
  main_step order elapsed w (collecting (a ∷ later)) = elim (HashMap.get a w.sim.workers) [
    | none ↦ ok (record w { phase = collecting later })
    | some worker ↦ ok (collect_one w a later worker)
  ]
  main_step order elapsed w delivering = deliver_one w w.messages

  module _ (order : IterationOrder (SocketAddr × WorkerState))
      (entries : IterationOrder Entry) where
    -- The simulator's thread acts, or a worker's thread takes a turn, also if it waits to be added.
    pub data Step (w w' : World Rand64) : Type 0 where
      main : (elapsed : ℕ) → main_step order elapsed w w.phase ≡ ok w' → Step w w'
      thread :
          (a : SocketAddr) (s : WorkerState) (t : Turn)
          → HashMap.get a w.sim.workers ≡ some s
          → turn entries s ≡ ok t
          → w' ≡ with_workers w (HashMap.insert a (rest t) w.sim.workers)
          → Step w w'
      queued :
          (i : ℕ) (q : Queued) (t : Turn)
          → get_elem? w.sim.worker_add_queue i ≡ some q
          → turn entries q.worker ≡ ok t
          → w' ≡ record w {
            sim = record w.sim {
              worker_add_queue = set w.sim.worker_add_queue i (record q { worker = rest t });
            };
          }
          → Step w w'

    pub data Reach (w₀ : World Rand64) : World Rand64 → Type 0 where
      here : Reach w₀ w₀
      next : {w w' : World Rand64} → Reach w₀ w → Step w w' → Reach w₀ w'
