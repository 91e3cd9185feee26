-- ===== src/Sim/Safety.antt =====
-- src/bin/sim.rs: what no action of the simulator or of a worker breaks.
use world_dat.Base.{
  ℕ, ◌≡◌, refl, sym, Option, none, some, List, [], ◌∷◌, All, All-append, ◌>>=◌, Returns,
  Returns-value, inl, inr, Bool-cases, Option-cases, subst, ltb,
}
use world_dat.HashMap
use world_dat.HashMap.{IterationOrder}
use world_dat.PeerMap.Invariant.{Entry}
use world_dat.Sim.{Parcel, WorkerSim, add_due}
use world_dat.Sim.Post.{
  pop-All, All-set, All-get_elem?, AllSound, IsCarried, IsQueued, insert-AllSound, Received,
  recv_message-Received, deliver-AllSound,
}
use world_dat.Sim.Sound.{turn-Sound}
use world_dat.Sim.World.{
  World, Phase, adding, collecting, delivering, rest, with_workers, collect_one, deliver_one,
  main_step, Step, main, thread, queued, Reach, here, next,
}
use world_dat.Types.{PeerId, SocketAddr, socket_addr_eq, Message}
use world_dat.Worker
use world_dat.Worker.{WorkerState, WorkerMessage, incoming, Turn, turn}

module _ (owner : SocketAddr → PeerId) (boot : SocketAddr) where
  module _ {Rand64 : Type 0} where
    -- All workers, added or not, and all messages on their way.
    pub record IsSound (w : World Rand64) : Type 0 where
      pub workers : AllSound owner boot w.sim.workers
      pub waits : All (IsQueued owner boot) w.sim.worker_add_queue
      pub parcels : All (IsCarried owner boot) w.messages

    add_due-IsSound :
        (elapsed : ℕ) (sim : WorkerSim Rand64)
        → AllSound owner boot sim.workers
        → All (IsQueued owner boot) sim.worker_add_queue
        → AllSound owner boot (add_due elapsed sim).workers
          × All (IsQueued owner boot) (add_due elapsed sim).worker_add_queue
    unfolding add_due
    add_due-IsSound elapsed sim h k = elim (pop-All (IsQueued owner boot) sim.worker_add_queue k) [
      | inl e ↦ rw (add_due, e) (h, k)
      | inr (qs, q, e, ks, kq) ↦ elim (Bool-cases (ltb q.delay elapsed)) [
        | inl due ↦
            rw (add_due, e, due) (insert-AllSound owner boot sim.workers q.addr q.worker h kq, ks)
        | inr early ↦
            rw (add_due, e, early) (h, All-append (IsQueued owner boot) qs (q ∷ []) ks (kq, tt))
      ]
    ]

    collect_one-IsSound :
        (w : World Rand64) (a : SocketAddr) (later : List SocketAddr) (s : WorkerState)
        → (o : Option ((SocketAddr × Message) × WorkerState)) → Worker.recv_message s ≡ o
        → Received owner boot a o
        → IsSound w
        → IsSound (collect_one w a later s)
    unfolding collect_one Received
    collect_one-IsSound w a later s none e r i =
        rw (collect_one, e) (record { workers = i.workers; waits = i.waits; parcels = i.parcels })
    collect_one-IsSound w a later s (some ((dst, msg), s')) e r i =
        rw (collect_one, e)
          (record {
            workers = insert-AllSound owner boot w.sim.workers a s' i.workers r.1;
            waits = i.waits;
            parcels =
                All-append (IsCarried owner boot) w.messages ((a, dst, msg) ∷ []) i.parcels
                  (r.0, tt);
          })

    deliver_one-IsSound :
        (w : World Rand64) (ms : List Parcel)
        → IsSound w
        → All (IsCarried owner boot) ms
        → Returns (deliver_one w ms) IsSound
    unfolding deliver_one
    deliver_one-IsSound w [] i k = (
      record w { phase = adding },
      refl,
      record { workers = i.workers; waits = i.waits; parcels = i.parcels },
    )
    deliver_one-IsSound w (m ∷ ms) i k =
        let (ws, run, h) = deliver-AllSound owner boot w.sim.workers (m ∷ []) i.workers (k.0, tt) in
        (
          record (with_workers w ws) { messages = ms },
          rw (deliver_one, run, ◌>>=◌),
          record { workers = h; waits = i.waits; parcels = k.1 },
        )

    module _ (order : IterationOrder (SocketAddr × WorkerState)) (elapsed : ℕ) where
      -- The simulator's thread panics nowhere.
      pub main_step-IsSound :
          (w : World Rand64) (phase : Phase)
          → IsSound w
          → Returns (main_step order elapsed w phase) IsSound
      unfolding main_step
      main_step-IsSound w adding i =
          let (workers, waits) = add_due-IsSound elapsed w.sim i.workers i.waits in
          (_, refl, record { workers = workers; waits = waits; parcels = i.parcels })
      main_step-IsSound w (collecting []) i =
          (_, refl, record { workers = i.workers; waits = i.waits; parcels = i.parcels })
      main_step-IsSound w (collecting (a ∷ later)) i =
          elim (Option-cases (HashMap.get a w.sim.workers)) [
            | inl e ↦ (
              record w { phase = collecting later },
              rw (main_step, e),
              record { workers = i.workers; waits = i.waits; parcels = i.parcels },
            )
            | inr (s, e) ↦ (
              collect_one w a later s,
              rw (main_step, e),
              collect_one-IsSound w a later s (Worker.recv_message s) refl
                  (recv_message-Received owner boot a (i.workers a s e)) i,
            )
          ]
      main_step-IsSound w delivering i = deliver_one-IsSound w w.messages i i.parcels

    module _ (order : IterationOrder (SocketAddr × WorkerState))
        (entries : IterationOrder Entry) where
      pub Step-IsSound : {w w' : World Rand64} → Step order entries w w' → IsSound w → IsSound w'
      Step-IsSound {w} (main elapsed e) i =
          Returns-value e (main_step-IsSound order elapsed w w.phase i)
      Step-IsSound {w} (thread a s t at_a run e) i = subst IsSound (sym e) (record {
        workers =
            insert-AllSound owner boot w.sim.workers a (rest t) i.workers
              (Returns-value run (turn-Sound owner boot entries a (i.workers a s at_a)));
        waits = i.waits;
        parcels = i.parcels;
      })
      Step-IsSound {w} (queued n q t at_n run e) i =
          let k : IsQueued owner boot q =
            All-get_elem? (IsQueued owner boot) w.sim.worker_add_queue n at_n i.waits in
          subst IsSound (sym e) (record {
            workers = i.workers;
            waits =
                All-set (IsQueued owner boot) w.sim.worker_add_queue n
                  (record q { worker = rest t }) i.waits
                  (Returns-value run (turn-Sound owner boot entries q.addr k));
            parcels = i.parcels;
          })

      pub Reach-IsSound : {w₀ w : World Rand64} → IsSound w₀ → Reach order entries w₀ w → IsSound w
      Reach-IsSound i here = i
      Reach-IsSound i (next r st) = Step-IsSound st (Reach-IsSound i r)
