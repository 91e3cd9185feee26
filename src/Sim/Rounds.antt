-- ===== src/Sim/Rounds.antt =====
-- src/bin/sim.rs: a whole round of `run`.
use world_dat.Base.{
  ℕ, suc, ◌+◌, ◌≡◌, ap, ◌∙◌, List, [], ◌∷◌, length, map, ok, ◌>>=◌, Option-cases, inl, inr,
}
use world_dat.HashMap
use world_dat.HashMap.{IterationOrder}
use world_dat.Sim.{Parcel, Workers, WorkerSim, add_due, deliver}
use world_dat.Sim.Carry.{emptied, Running, insert-Running, mailed, sent_to, deliver-mailed}
use world_dat.Sim.Steps.{
  collect_all, at, main_steps, main_steps-bind, collecting_all-steps, delivering-steps,
}
use world_dat.Sim.World.{adding, collecting, main_step}
use world_dat.Types.{SocketAddr, socket_addr_eq}
use world_dat.Worker.{WorkerState}

collect_all-Running :
    (keys : List SocketAddr) (ws : Workers) → Running ws → Running (collect_all keys ws).0
collect_all-Running [] ws h = h
collect_all-Running (a ∷ later) ws h = elim (Option-cases (HashMap.get a ws)) [
  | inl e ↦ rw (collect_all, e) (collect_all-Running later ws h)
  | inr (s, e) ↦
      rw (collect_all, e)
        (collect_all-Running later (HashMap.insert a (emptied s) ws)
          (insert-Running ws a (emptied s) h (h a s e)))
]

module _ {Rand64 : Type 0} where
  module _ (order : IterationOrder (SocketAddr × WorkerState)) (elapsed : ℕ) where
    round-steps :
        (sim : WorkerSim Rand64) (ws : Workers)
        → (let sim' = add_due elapsed sim in
            let (left, ms) =
              collect_all (map (λ e. e.0) (order.arrange sim'.workers)) sim'.workers in
            deliver left ms ≡ ok ws)
        → (n : ℕ) × (main_steps order elapsed n
              (record { sim = sim; messages = []; phase = adding })
            ≡ ok (record {
              sim = record (add_due elapsed sim) { workers = ws };
              messages = [];
              phase = adding;
            }))
    unfolding main_step
    round-steps sim ws h =
        let sim' = add_due elapsed sim in
        let keys : List SocketAddr = map (λ e. e.0) (order.arrange sim'.workers) in
        let (left, ms) = collect_all keys sim'.workers in
        let (n, collects) = collecting_all-steps order elapsed keys sim' sim'.workers [] in
        let last = suc (length ms) in
        (
          suc (n + last),
          main_steps-bind order elapsed n last (at sim' sim'.workers [] (collecting keys))
              ∙ ap (λ r. r >>= main_steps order elapsed last) collects
              ∙ delivering-steps order elapsed ms sim' left ws h,
        )

    -- The workers without the messages that they have sent, and these messages.
    abbrev pub gathered : WorkerSim Rand64 → Workers × List Parcel
    gathered sim =
        collect_all (map (λ e. e.0) (order.arrange (add_due elapsed sim).workers))
          (add_due elapsed sim).workers

    -- What a whole round leaves.
    pub record Rounds (sim : WorkerSim Rand64) : Type 0 where
      pub actions : ℕ
      pub workers : Workers
      pub round :
          main_steps order elapsed actions (record { sim = sim; messages = []; phase = adding })
          ≡ ok (record {
            sim = record (add_due elapsed sim) { workers = workers };
            messages = [];
            phase = adding;
          })
      pub mail :
          (a : SocketAddr)
          → HashMap.get a workers
            ≡ mailed (sent_to a (gathered sim).1) (HashMap.get a (gathered sim).0)

    -- Some number of actions of the simulator's thread, with none of another thread between them, is a
    -- whole round of `run`, and panics nowhere, if all workers run. It is a step of the queue, then the
    -- loop that takes all messages of each worker, in the order of the iteration, then the loop that
    -- delivers: each worker gets the messages to its address, in the order in which they were taken.
    pub round-Rounds : (sim : WorkerSim Rand64) → Running (add_due elapsed sim).workers → Rounds sim
    round-Rounds sim alive =
        let keys : List SocketAddr = map (λ e. e.0) (order.arrange (add_due elapsed sim).workers) in
        let (ws, run, get) =
          deliver-mailed (gathered sim).0 (gathered sim).1
            (collect_all-Running keys (add_due elapsed sim).workers alive) in
        let (n, steps) = round-steps sim ws run in
        record { actions = n; workers = ws; round = steps; mail = get }
