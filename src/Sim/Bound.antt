-- ===== src/Sim/Bound.antt =====
-- src/bin/sim.rs: the load of the simulator that is set up.
use world_dat.Base.{
  ℕ, suc, ◌+◌, ◌*◌, ◌≤◌, ◌≡◌, refl, ap, ◌∙◌, List, [], ◌∷◌, length, All-map, total, total_constant,
  inl, inr, Bool-cases, ltb, ok, Returns-value, arith,
}
use world_dat.HashMap.{IterationOrder}
use world_dat.Hash.{IsHash}
use world_dat.PeerMap.Invariant.{Entry}
use world_dat.Sim.{Queued, WorkerSim, insert_queued, sort_queue, new, set_bootstrap}
use world_dat.Sim.Jobs.{jobs_of, add_new_workers-jobs}
use world_dat.Sim.Load.{worker_load, sent_load, workers_load}
use world_dat.Sim.Network.{setup}
use world_dat.Sim.Setup.{Fresh, Ready, setup-Ready, Owns, begin-IsSound}
use world_dat.Sim.Traffic.{world_load, efforts, Reach-load}
use world_dat.Sim.World.{World, Reach, begin}
use world_dat.Types.{PeerId, SocketAddr, Randomness}
use world_dat.Worker.{WorkerState}

-- Sorting changes no sum.
insert_queued-total :
    (f : Queued → ℕ) (q : Queued) (qs : List Queued)
    → total f (insert_queued q qs) ≡ f q + total f qs
unfolding insert_queued
insert_queued-total f q [] = refl
insert_queued-total f q (x ∷ qs) = elim (Bool-cases (ltb q.delay x.delay)) [
  | inl e ↦ rw (insert_queued, e) (omega (arith, insert_queued-total f q qs))
  | inr e ↦ rw (insert_queued, e)
]

sort_queue-total : (f : Queued → ℕ) (qs : List Queued) → total f (sort_queue qs) ≡ total f qs
unfolding sort_queue
sort_queue-total f [] = refl
sort_queue-total f (q ∷ qs) =
    omega (arith, insert_queued-total f q (sort_queue qs), sort_queue-total f qs)

length-total : (qs : List Queued) → total (λ q. 1) qs ≡ length qs
length-total [] = refl
length-total (q ∷ qs) = omega (arith, length-total qs)

-- The two messages of its introduction.
Fresh-load : (boot : SocketAddr) (q : Queued) → Fresh boot q → worker_load q.worker ≡ 8
Fresh-load boot q f =
    ap worker_load f.is_told ∙ ap (λ c. 8 + total sent_load c.queue) f.starts.sender

length-jobs_of : (qs : List Queued) → length (jobs_of qs) ≡ length qs
length-jobs_of [] = refl
length-jobs_of (q ∷ qs) = ap suc (length-jobs_of qs)

begin-load :
    {Rand64 : Type 0} (boot : SocketAddr) (sim : WorkerSim Rand64)
    → Ready boot sim
    → world_load (begin sim) ≡ 9 * length (jobs_of sim.worker_add_queue)
begin-load boot sim i = omega (
  arith,
  ap workers_load i.nobody,
  sort_queue-total (λ q. worker_load q.worker) sim.worker_add_queue,
  sort_queue-total (λ q. 1) sim.worker_add_queue,
  length-total sim.worker_add_queue,
  length-total (sort_queue sim.worker_add_queue),
  total_constant (λ q. worker_load q.worker) 8 sim.worker_add_queue
      (All-map sim.worker_add_queue (Fresh-load boot) i.fresh),
  length-jobs_of sim.worker_add_queue,
)

module _ (r : Randomness) (blake2s : List ℕ → List ℕ)
    (hash : (seed : List ℕ) → IsHash (record { bytes = blake2s seed })) (boot : SocketAddr)
    (jobs : List (SocketAddr × ℕ)) {sim : WorkerSim r.Rand64}
    (made : setup r blake2s hash boot jobs ≡ ok sim) (owner : SocketAddr → PeerId)
    (owns : Owns owner sim) (order : IterationOrder (SocketAddr × WorkerState))
    (entries : IterationOrder Entry) {w : World r.Rand64}
    (reach : Reach order entries (begin sim) w) where
  -- In every run of the simulator that the setup returns, whatever the order of the threads and the
  -- time that passes, at most nine actions for each worker add it, or handle, collect or deliver a
  -- message: the exchange of messages ends. The digest gives 32 bytes and `owner` maps the workers'
  -- addresses to their ids.
  pub run_ends : efforts order entries reach ≤ 9 * length jobs
  unfolding new set_bootstrap
  run_ends =
      let ready = Returns-value made (setup-Ready r blake2s hash boot jobs) in
      omega (
        arith,
        Reach-load order entries owner boot reach (begin-IsSound owner boot sim ready owns),
        begin-load boot sim ready,
        ap length (
            add_new_workers-jobs r blake2s (set_bootstrap r blake2s (new r blake2s) boot) jobs
              made),
      )
