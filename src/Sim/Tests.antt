-- ===== src/Sim/Tests.antt =====
-- src/bin/sim.rs: the simulator's first worker, which is introduced to itself, and its second.
use world_dat.Base.{
  ◌≤◌, ◌⊎◌, ℕ, none, All, if◌then◌else◌, some, ◌≡◌, refl, List, [], ◌∷◌, Returns, arith,
}
use world_dat.Channel.{channel}
use world_dat.HashMap
use world_dat.PeerMap.Samples.{in_order}
use world_dat.Sim.{Queued, WorkerSim, add_due, quit, Workers, Parcel}
use world_dat.Sim.Carry.{Running, insert-Running}
use world_dat.Types.{SocketAddr, socket_addr_eq, addr_eq, id_eq, ping, pong}
use world_dat.Types.Samples.{id_of, id2, id2-IsPeerId, home, away}
use world_dat.Worker.{WorkerState, turn, incoming}
use world_dat.Sim.Network.{GoesOn, reached-Runs, reached-honest, reached-alone}
use world_dat.Sim.Bound.{run_ends}
use world_dat.Sim.Traffic.{efforts}
use world_dat.Sim.Convergence.{Met, Quiet, reached-Met}
use world_dat.Sim.Gathering.{reached-gathers}
use world_dat.Sim.Schedules.{two_workers}
use world_dat.Sim.Schedules.{
  two_jobs, two_workers-run, two_owners, two_workers-Owns, settled, settled-Reach, settled-Quiet,
  visitor, visitor-found,
}
use world_dat.Sim.Handshake.{visit, Meets, visit-Meets}
use world_dat.Sim.Delays.{Descending, Adds, add_due-Adds, rounds, Added, rounds-Added}
use world_dat.Sim.Quit.{AllStopped, quit-AllStopped}
use world_dat.Sim.Rounds.{Rounds, round-Rounds}
use world_dat.Sim.Safety.{IsSound}
use world_dat.Sim.World.{World, Reach, here, begin, main_step, rest}
use world_dat.Sim.Samples.{
  counter, digest, digest-IsHash, jobs, sim-run, owner, sim-Owns, addresses, second, second-Reach,
  turned, turned-found, turned-knows, away-ne-home,
}
use world_dat.Worker.Handle.{knows}
use world_dat.Worker.Samples.{worker, worker-IsValid}

-- The worker of `Worker.Samples` at one address, and two messages for it and one for nobody.
abbrev workers : Workers
workers = (home, worker) ∷ []

abbrev messages : List Parcel
messages = (away, home, ping id2) ∷ (away, away, ping id2) ∷ (home, home, pong id2) ∷ []

workers-Running : Running workers
unfolding HashMap.get HashMap.insert
workers-Running = insert-Running [] home worker (λ a w e. absurd (cc e)) refl

abbrev sender : WorkerState
sender = record worker { message_sender = record channel { queue = (away, pong id2) ∷ [] } }

reached-Runs_example :
    ((elapsed : ℕ) → Returns (main_step addresses elapsed second second.phase) (IsSound owner home))
    × ((a : SocketAddr) (s : WorkerState)
        → HashMap.get a second.sim.workers ≡ some s
        → Returns (turn in_order s) GoesOn)
reached-Runs_example =
    reached-Runs counter digest digest-IsHash home jobs sim-run owner sim-Owns addresses in_order
      second-Reach

reached-honest_example : ((rest turned).peer_id ≡ owner away) × (id_of 0 89 ≡ owner away)
reached-honest_example =
    reached-honest counter digest digest-IsHash home jobs sim-run owner sim-Owns addresses in_order
      second-Reach away (rest turned) (id_of 0 89) away turned-found turned-knows

reached-alone_example :
    knows (rest turned) id2 ≡ (if id_eq (rest turned).peer_id id2 then some away else none)
reached-alone_example =
    reached-alone counter digest digest-IsHash home jobs sim-run owner sim-Owns addresses in_order
      second-Reach away (rest turned) turned-found away-ne-home id2

-- A worker that waits, with nothing in its inbox.
abbrev idle : WorkerState
idle = record worker { control_receiver = channel }

visit-Meets_example :
    Returns (visit in_order id2 away home ((home, idle) ∷ []) 3) (Meets in_order id2 away home idle)
unfolding HashMap.get HashMap.insert addr_eq
visit-Meets_example =
    visit-Meets in_order id2 away home id2-IsPeerId ((home, idle) ∷ []) 3
      (insert-Running [] home idle (λ a w e. absurd (cc e)) refl) refl
      (record { map = worker-IsValid.map; listened = refl }) tt refl refl (omega arith)

-- Two that wait, of which one is due.
abbrev queue : List Queued
queue =
    record { addr = away; worker = worker; delay = 2000 }
    ∷ record { addr = home; worker = worker; delay = 0 }
    ∷ []

abbrev waiting_sim : WorkerSim ℕ
waiting_sim = record { workers = []; bootstrap = some home; worker_add_queue = queue; rng = 0 }

add_due-Adds_example :
    Descending (add_due 1 waiting_sim).worker_add_queue
    × (((add_due 1 waiting_sim ≡ waiting_sim) × All (λ q. 1 ≤ q.delay) queue)
        ⊎ Adds 1 waiting_sim (add_due 1 waiting_sim))
add_due-Adds_example = add_due-Adds 1 waiting_sim ((omega arith, tt), (tt, tt))

rounds-Added_example :
    ((rounds (2001 ∷ 2002 ∷ []) waiting_sim).worker_add_queue ≡ [])
    × All (Added (rounds (2001 ∷ 2002 ∷ []) waiting_sim)) queue
rounds-Added_example = rounds-Added (2001 ∷ 2002 ∷ []) waiting_sim (omega arith) (omega arith)

abbrev running_sim : WorkerSim ℕ
running_sim = record waiting_sim { workers = workers }

-- The worker with a ping, a pong and no `quit` in its inbox.
abbrev listening : WorkerState
listening = record worker {
  control_receiver = record channel {
    queue = incoming away (ping id2) ∷ incoming away (pong id2) ∷ [];
  };
}

abbrev listening_sim : WorkerSim ℕ
listening_sim = record waiting_sim { workers = (home, listening) ∷ [] }

-- Its thread takes one turn before the `quit`.
quit-AllStopped_example :
    Returns
      (quit addresses in_order (λ a. 1) 4 listening_sim)
      (AllStopped (addresses.arrange ((home, listening) ∷ [])))
quit-AllStopped_example =
    quit-AllStopped in_order (λ a. 1) 4 addresses listening_sim
      (
        record {
          valid = record { map = worker-IsValid.map; listened = refl };
          runs = refl;
          sends = refl;
          going = refl;
          controls = (id2-IsPeerId, (id2-IsPeerId, tt));
          short = omega arith;
        },
        tt,
      )

-- A worker that has sent a message to itself.
abbrev talking_sim : WorkerSim ℕ
talking_sim = record running_sim { workers = (home, sender) ∷ []; worker_add_queue = [] }

round-Rounds_example : Rounds addresses 1 talking_sim
unfolding add_due HashMap.get HashMap.insert
round-Rounds_example =
    round-Rounds addresses 1 talking_sim
      (insert-Running [] home sender (λ a w e. absurd (cc e)) refl)

reached-Met_example : Met two_owners home settled visitor.peer_id
reached-Met_example =
    reached-Met counter digest digest-IsHash home 0 ((away, 2000) ∷ [])
      ((away-ne-home, omega arith), tt) two_workers-run two_owners two_workers-Owns addresses
      in_order settled-Reach settled-Quiet away visitor visitor-found

run_ends_example : efforts addresses in_order settled-Reach ≤ 18
run_ends_example =
    run_ends counter digest digest-IsHash home two_jobs two_workers-run two_owners two_workers-Owns
      addresses in_order settled-Reach

reached-gathers_example :
    (w' : World ℕ) × Reach addresses in_order (begin two_workers) w'
    × Quiet w'
    × All
        (λ job.
          (s : WorkerState) × (HashMap.get job.0 w'.sim.workers ≡ some s)
          × Met two_owners home w' s.peer_id)
        two_jobs
reached-gathers_example =
    reached-gathers counter digest digest-IsHash home 0 ((away, 2000) ∷ [])
      ((away-ne-home, omega arith), tt) two_workers-run two_owners two_workers-Owns addresses
      in_order here
