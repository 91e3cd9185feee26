-- ===== src/Worker/Tests.antt =====
-- src/worker.rs: the theorems on the worker at a concrete one.
use world_dat.Base.{Returns, arith, refl, ◌≡◌, some, [], ◌∷◌}
use world_dat.Channel.{channel}
use world_dat.PeerMap.Samples.{in_order}
use world_dat.Types.{find_peer, ping, pong}
use world_dat.Types.Samples.{id0, id3, id0-IsPeerId, id3-IsPeerId, home, away}
use world_dat.Worker.{WorkerState, incoming, ended, start, stop, handle, run}
use world_dat.Worker.Handle.{IsValid, Handles, handle-Handles}
use world_dat.Worker.Loop.{Finishes, run-Finishes}
use world_dat.Worker.Queue.{inbox}
use world_dat.Worker.Samples.{worker, worker-IsValid, messages-IsControl}
use world_dat.Worker.Stop.{Stops, stop-Stops}
use world_dat.Worker.Start.{Starts, start-Starts}

handle-Handles_example :
    Returns
      (handle in_order worker away (find_peer id3))
      (Handles in_order worker-IsValid away (find_peer id3) id3-IsPeerId)
handle-Handles_example = handle-Handles in_order worker-IsValid away (find_peer id3) id3-IsPeerId

run-Finishes_example : Returns (run in_order 6 worker) (Finishes worker (inbox worker))
run-Finishes_example = run-Finishes in_order 6 worker-IsValid messages-IsControl (omega arith)

-- The worker with a ping, a pong and no `quit` in its inbox.
abbrev listening : WorkerState
listening = record worker {
  control_receiver = record channel {
    queue = incoming away (ping id3) ∷ incoming away (pong id3) ∷ [];
  };
}

listening-IsValid : IsValid listening
listening-IsValid = record { map = worker-IsValid.map; listened = refl }

stop-Stops_example :
    Returns
      (stop in_order 4 listening)
      (λ r. (final : WorkerState) × (r ≡ some (ended final)) × Stops listening final)
stop-Stops_example =
    stop-Stops in_order 4 listening-IsValid refl (id3-IsPeerId, (id3-IsPeerId, tt)) (omega arith)

start-Starts_example : Returns (start id0 home) (Starts id0 home)
start-Starts_example = start-Starts home id0-IsPeerId
