-- ===== src/Sim.antt =====
-- src/bin/sim.rs: what the simulator does with the workers.
pub mod Bootstrap
pub mod Bound
pub mod Carry
pub mod Convergence
pub mod Delays
pub mod FirstOut
pub mod Gathering
pub mod Handshake
pub mod Heard
pub mod InPlay
pub mod Jobs
pub mod Load
pub mod Meeting
pub mod Network
pub mod Placed
pub mod Post
pub mod Progress
pub mod Quit
pub mod Rest
pub mod Rounds
pub mod Safety
pub mod Samples
pub mod Settling
pub mod Setup
pub mod Schedules
pub mod Sound
pub mod Steps
pub mod Tracked
pub mod Traffic
pub mod World
mod Tests
use world_dat.Base.{
  ℕ, zero, suc, Option, none, some, List, [], ◌∷◌, ◌++◌, Run, ok, panic, ◌>>=◌, expect, ltb,
  if◌then◌else◌,
}
use world_dat.HashMap
use world_dat.HashMap.{HashMap, IterationOrder}
use world_dat.Types.{
  PeerId, SocketAddr, socket_addr_eq, Message, ping, find_peer, Randomness, new_insecure_random,
}
use world_dat.Worker
use world_dat.Worker.{WorkerState, Turn}

-- `add_new_worker`, once the id and the address are known and up to the queue: the new worker, and
-- with a bootstrap address the messages that are put into its own control channel.
unfoldable pub new_worker : PeerId → SocketAddr → Option SocketAddr → Run WorkerState
unfolding Worker.start Worker.message
new_worker w_id w_addr none = Worker.start w_id w_addr
new_worker w_id w_addr (some bootstrap) = do
  w ← Worker.start w_id w_addr
  w' ← expect (Worker.message w bootstrap (ping w_id))
  expect (Worker.message w' bootstrap (find_peer w_id))

-- A worker waits to be added until its delay, in milliseconds, is over.
pub record Queued : Type 0 where
  pub addr : SocketAddr
  pub worker : WorkerState
  pub delay : ℕ

-- `sort_by(|a, b| b.delay.cmp(a.delay))`, which is stable: the longest delay comes first.
unfoldable pub insert_queued : Queued → List Queued → List Queued
insert_queued q [] = q ∷ []
insert_queued q (x ∷ xs) =
    let rest = insert_queued q xs in if ltb q.delay x.delay then x ∷ rest else q ∷ x ∷ xs

unfoldable pub sort_queue : List Queued → List Queued
unfolding insert_queued
sort_queue [] = []
sort_queue (q ∷ qs) = insert_queued q (sort_queue qs)

-- `pop`: the elements before the last one, and the last one.
unfoldable pub pop {ℓ} : {A : Type ℓ} → List A → Option (List A × A)
pop [] = none
pop (x ∷ xs) = elim (pop xs) [ none ↦ some ([], x) | some (ys, y) ↦ some (x ∷ ys, y) ]

-- A message on its way: source, destination, message.
abbrev pub Parcel : Type 0
Parcel = SocketAddr × SocketAddr × Message

abbrev pub Workers : Type 0
Workers = HashMap SocketAddr WorkerState

-- `add_worker`
unfoldable pub add_worker : Workers → SocketAddr → WorkerState → Workers
unfolding HashMap.insert
add_worker workers addr worker = HashMap.insert addr worker workers

-- The `while let` that takes the messages of one worker, at most so many.
unfoldable pub collect : ℕ → SocketAddr → WorkerState → List Parcel × WorkerState
unfolding Worker.recv_message
collect zero src w = ([], w)
collect (suc n) src w = elim (Worker.recv_message w) [
  | none ↦ ([], w)
  | some ((dst, msg), w') ↦
      let (messages, w'') = collect n src w' in ((src, dst, msg) ∷ messages, w'')
]

-- The loop over the messages that have been collected. The handle in the map is that of the same
-- worker before and after.
unfoldable pub deliver : Workers → List Parcel → Run Workers
unfolding HashMap.get HashMap.insert Worker.message
deliver workers [] = ok workers
deliver workers ((src, dest, msg) ∷ messages) = elim (HashMap.get dest workers) [
  | none ↦ deliver workers messages
  | some worker ↦ do
    worker' ← expect (Worker.message worker src msg)
    deliver (HashMap.insert dest worker' workers) messages
]

-- `WorkerSim`, over the random generator.
pub record WorkerSim (Rand64 : Type 0) : Type 0 where
  pub workers : Workers
  pub bootstrap : Option SocketAddr
  pub worker_add_queue : List Queued
  pub rng : Rand64

-- The first part of a round of `run`, at the time that has passed since its start.
unfoldable pub add_due : {Rand64 : Type 0} → ℕ → WorkerSim Rand64 → WorkerSim Rand64
unfolding pop add_worker
add_due elapsed sim = elim (pop sim.worker_add_queue) [
  | none ↦ sim
  | some (queue, q) ↦
      if ltb q.delay elapsed
      then record sim { workers = add_worker sim.workers q.addr q.worker; worker_add_queue = queue }
      else record sim { worker_add_queue = queue ++ q ∷ [] }
]

-- `quit`: each worker in the order of `drain`. Before its `quit` is sent, while the workers before it
-- stop, the thread at an address takes any number of turns, `before`; it may end in them. After that it
-- runs for at most `n` turns.
unfoldable pub quit_each :
    IterationOrder (PeerId × SocketAddr)
    → (SocketAddr → ℕ)
    → ℕ
    → List (SocketAddr × WorkerState)
    → Run (List Turn)
unfolding Worker.run Worker.left Worker.stop
quit_each entries before n [] = ok []
quit_each entries before n ((addr, worker) ∷ workers) = do
  t ← Worker.run entries (before addr) worker
  stopped ← Worker.stop entries n (Worker.left t)
  thread ← expect stopped
  threads ← quit_each entries before n workers
  ok (thread ∷ threads)

unfoldable pub quit :
    {Rand64 : Type 0}
    → IterationOrder (SocketAddr × WorkerState)
    → IterationOrder (PeerId × SocketAddr)
    → (SocketAddr → ℕ)
    → ℕ
    → WorkerSim Rand64
    → Run (List Turn)
unfolding quit_each
quit order entries before n sim = quit_each entries before n (order.arrange sim.workers)

module _ (r : Randomness) (blake2s : List ℕ → List ℕ) where
  open r use {Rand64, rand64}

  unfoldable pub new : WorkerSim Rand64
  new = record { workers = []; bootstrap = none; worker_add_queue = []; rng = rand64 12345 }

  -- The address is the parsed text.
  unfoldable pub set_bootstrap : WorkerSim Rand64 → SocketAddr → WorkerSim Rand64
  set_bootstrap sim bootstrap = record sim { bootstrap = some bootstrap }

  unfoldable pub add_new_worker : WorkerSim Rand64 → SocketAddr → ℕ → Run (WorkerSim Rand64)
  unfolding new_insecure_random new_worker
  add_new_worker sim addr delay = do
    (w_id, rng) ← new_insecure_random r blake2s sim.rng
    w ← new_worker w_id addr sim.bootstrap
    let queued : Queued = record { addr = addr; worker = w; delay = delay }
    ok (record sim { rng = rng; worker_add_queue = sim.worker_add_queue ++ queued ∷ [] })

  -- The calls of `add_new_worker` of `heckin_simulator`, for any addresses and delays.
  unfoldable pub add_new_workers : WorkerSim Rand64 → List (SocketAddr × ℕ) → Run (WorkerSim Rand64)
  unfolding add_new_worker
  add_new_workers sim [] = ok sim
  add_new_workers sim ((addr, delay) ∷ rest) = do
    sim' ← add_new_worker sim addr delay
    add_new_workers sim' rest
