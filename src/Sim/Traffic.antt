-- ===== src/Sim/Traffic.antt =====
-- src/bin/sim.rs: how many actions handle, collect or deliver a message.
use world_dat.Base.{
  length-append, length-set, length, ℕ, ◌+◌, ◌≤◌, ◌≡◌, refl, ap, some, List, [], ◌∷◌, total,
  total-append, total-set, inl, inr, Bool-cases, Option-cases, ltb, ok, ok_inj, ◌>>=◌,
  Returns-value, Run-cases, arith,
}
use world_dat.HashMap
use world_dat.HashMap.{IterationOrder}
use world_dat.PeerMap.Invariant.{Entry}
use world_dat.Sim.{pop, Parcel, WorkerSim, add_due, deliver}
use world_dat.Sim.Delays.{pop-cases}
use world_dat.Sim.Load.{
  sent_load, worker_load, some_left, turn-load, parcel_load, workers_load, queue_load, load_at,
  insert-load, collects, adds, deliver-load,
}
use world_dat.Sim.Post.{All-get_elem?}
use world_dat.Sim.Safety.{IsSound, Reach-IsSound}
use world_dat.Sim.Sound.{Sound, turn-Served}
use world_dat.Sim.Steps.{holding, recv_message_empty, recv_message_next}
use world_dat.Sim.World.{
  World, Phase, adding, collecting, delivering, rest, collect_one, deliver_one, main_step, Step,
  main, thread, queued, Reach, here, next,
}
use world_dat.Types.{PeerId, SocketAddr, socket_addr_eq, Message}
use world_dat.Worker.{WorkerState}
use world_dat.Worker.Handle.{outbox}
use world_dat.Worker.Queue.{inbox}

module _ {Rand64 : Type 0} where
  abbrev pub world_load : World Rand64 → ℕ
  world_load w =
      workers_load w.sim.workers
      + queue_load w.sim.worker_add_queue
      + length w.sim.worker_add_queue
      + total parcel_load w.messages

  -- Whether the next action of the simulator's thread adds a worker, or collects or delivers a message.
  abbrev pub moves : ℕ → World Rand64 → Phase → ℕ
  moves elapsed w adding = adds elapsed (pop w.sim.worker_add_queue)
  moves elapsed w (collecting []) = 0
  moves elapsed w (collecting (a ∷ later)) = collects (HashMap.get a w.sim.workers)
  moves elapsed w delivering = some_left w.messages

  add_due-load :
      (elapsed : ℕ) (sim : WorkerSim Rand64)
      → adds elapsed (pop sim.worker_add_queue)
          + workers_load (add_due elapsed sim).workers
          + queue_load (add_due elapsed sim).worker_add_queue
          + length (add_due elapsed sim).worker_add_queue
        ≤ workers_load sim.workers + queue_load sim.worker_add_queue + length sim.worker_add_queue
  unfolding add_due pop
  add_due-load elapsed sim = elim (pop-cases sim.worker_add_queue) [
    | inl (e, p) ↦ rw (add_due, p) (omega arith)
    | inr (xs, q, e, p) ↦
        let before = ap queue_load e in
        let split = total-append (λ x. worker_load x.worker) xs (q ∷ []) in
        let longer = ap length e in
        let one = length-append xs (q ∷ []) in
        elim (Bool-cases (ltb q.delay elapsed)) [
          | inl due ↦
              rw (add_due, p, due)
                (omega (arith, before, split, longer, one, insert-load q.addr q.worker sim.workers))
          | inr early ↦ rw (add_due, p, early) (omega (arith, before, split, longer, one))
        ]
  ]

  collect_one-load :
      (w : World Rand64) (a : SocketAddr) (later : List SocketAddr) (s : WorkerState)
      (q : List (SocketAddr × Message))
      → outbox s ≡ q
      → HashMap.get a w.sim.workers ≡ some s
      → some_left q + world_load (collect_one w a later s) ≤ world_load w
  unfolding collect_one
  collect_one-load w a later s [] e at_a = rw (collect_one, recv_message_empty s e) (omega arith)
  collect_one-load w a later s ((dst, msg) ∷ q) e at_a =
      rw (collect_one, recv_message_next s (dst, msg) q e)
        (omega (
          arith,
          insert-load a (holding s q) w.sim.workers,
          ap load_at at_a,
          ap (total sent_load) e,
          total-append parcel_load w.messages ((a, dst, msg) ∷ []),
        ))

  deliver_one-load :
      (w : World Rand64) (ms : List Parcel) {w' : World Rand64}
      → w.messages ≡ ms
      → deliver_one w ms ≡ ok w'
      → some_left ms + world_load w' ≤ world_load w
  unfolding deliver_one
  deliver_one-load w [] e h = omega (arith, ap world_load (ok_inj h))
  deliver_one-load w (m ∷ ms) e h = elim (Run-cases (deliver w.sim.workers (m ∷ []))) [
    | inl f ↦ absurd (cc (rw (deliver_one, f, ◌>>=◌) at h))
    | inr (ws, f) ↦ omega (
      arith,
      ap world_load (ok_inj (rw (deliver_one, f, ◌>>=◌) at h)),
      deliver-load w.sim.workers m f,
      ap (total parcel_load) e,
    )
  ]

  main_step-load :
      (order : IterationOrder (SocketAddr × WorkerState)) (elapsed : ℕ) (w : World Rand64)
      (phase : Phase) {w' : World Rand64}
      → main_step order elapsed w phase ≡ ok w'
      → moves elapsed w phase + world_load w' ≤ world_load w
  unfolding main_step
  main_step-load order elapsed w adding h =
      omega (arith, ap world_load (ok_inj h), add_due-load elapsed w.sim)
  main_step-load order elapsed w (collecting []) h = omega (arith, ap world_load (ok_inj h))
  main_step-load order elapsed w (collecting (a ∷ later)) h =
      elim (Option-cases (HashMap.get a w.sim.workers)) [
        | inl e ↦ omega (arith, ap world_load (ok_inj (rw (main_step, e) at h)), ap collects e)
        | inr (s, e) ↦ omega (
          arith,
          ap world_load (ok_inj (rw (main_step, e) at h)),
          ap collects e,
          collect_one-load w a later s (outbox s) refl e,
        )
      ]
  main_step-load order elapsed w delivering h = deliver_one-load w w.messages refl h

  module _ (order : IterationOrder (SocketAddr × WorkerState))
      (entries : IterationOrder Entry) where
    -- Whether an action adds a worker, or handles, collects or delivers a message.
    abbrev pub effort : {w w' : World Rand64} → Step order entries w w' → ℕ
    effort {w} (main elapsed h) = moves elapsed w w.phase
    effort (thread a s t at_a run e) = some_left (inbox s)
    effort (queued i q t at_i run e) = some_left (inbox q.worker)

    abbrev pub efforts : {w₀ w : World Rand64} → Reach order entries w₀ w → ℕ
    efforts here = 0
    efforts (next r st) = efforts r + effort st

    module _ (owner : SocketAddr → PeerId) (boot : SocketAddr) where
      pub Step-load :
          {w w' : World Rand64} (st : Step order entries w w')
          → IsSound owner boot w
          → effort st + world_load w' ≤ world_load w
      Step-load {w} (main elapsed h) i = main_step-load order elapsed w w.phase h
      Step-load {w} (thread a s t at_a run e) i =
          let served = Returns-value run (turn-Served owner boot entries a (i.workers a s at_a)) in
          omega (
            arith,
            ap world_load e,
            insert-load a (rest t) w.sim.workers,
            ap load_at at_a,
            turn-load owner boot entries a served,
          )
      Step-load {w} (queued n q t at_n run e) i =
          let k =
            All-get_elem? (λ x. Sound owner boot x.addr x.worker) w.sim.worker_add_queue n at_n
              i.waits in
          let served = Returns-value run (turn-Served owner boot entries q.addr k) in
          omega (
            arith,
            ap world_load e,
            total-set (λ x. worker_load x.worker) w.sim.worker_add_queue n
                (record q { worker = rest t }) at_n,
            length-set w.sim.worker_add_queue n (record q { worker = rest t }),
            turn-load owner boot entries q.addr served,
          )

      pub Reach-load :
          {w₀ w : World Rand64} (r : Reach order entries w₀ w)
          → IsSound owner boot w₀
          → efforts r + world_load w ≤ world_load w₀
      Reach-load here i = omega arith
      Reach-load (next r st) i =
          omega (arith, Reach-load r i, Step-load st (Reach-IsSound owner boot order entries i r))
