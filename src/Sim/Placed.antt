-- ===== src/Sim/Placed.antt =====
-- src/bin/sim.rs: the workers in the queue and in the map, over the actions of all threads.
use mathlib.Core.List.Memᴰ.{Memᴰ}
use world_dat.Base.{
  ℕ, ◌<◌, ◌≡◌, refl, sym, ap, ◌∙◌, is_some, List, [], ◌∷◌, All, All-split, All-map, inl, inr,
  Bool-cases, Option-cases, subst, ltb, ok, ok_inj, ◌>>=◌,
}
use world_dat.HashMap
use world_dat.HashMap.{IterationOrder}
use world_dat.PeerMap.Invariant.{Entry}
use world_dat.Sim.{Queued, Workers, Parcel, WorkerSim, add_due}
use world_dat.Sim.Carry.{Running, sent_to, deliver-mailed}
use world_dat.Sim.Delays.{pop-cases}
use world_dat.Sim.InPlay.{
  HasWorker, InPlay, Placed, insert-HasWorker, mailed-is_some, addresses-set, added-InPlay,
}
use world_dat.Sim.Post.{All-set, All-get_elem?}
use world_dat.Sim.Safety.{IsSound, Reach-IsSound}
use world_dat.Sim.Steps.{recv_message_empty, recv_message_next, holding}
use world_dat.Sim.World.{
  World, Phase, adding, collecting, delivering, rest, with_workers, collect_one, deliver_one,
  main_step, Step, main, thread, queued, Reach, here, next,
}
use world_dat.Types.{PeerId, SocketAddr, socket_addr_eq, Message}
use world_dat.Worker.{WorkerState}
use world_dat.Worker.Handle.{outbox}

module _ {Rand64 : Type 0} (time : ℕ) (addrs : List SocketAddr) where
  add_due-Placed :
      (elapsed : ℕ) (sim : WorkerSim Rand64)
      → Placed time addrs sim
      → Placed time addrs (add_due elapsed sim)
  unfolding add_due
  add_due-Placed elapsed sim p = elim (pop-cases sim.worker_add_queue) [
    | inl (e, f) ↦ rw (add_due, f) (record { due = p.due; play = p.play })
    | inr (xs, q, e, f) ↦
        let split =
          All-split (λ x. x.delay < time) xs (q ∷ []) (subst (All (λ x. x.delay < time)) e p.due) in
        elim (Bool-cases (ltb q.delay elapsed)) [
          | inl due ↦
              rw (add_due, f, due)
                (record {
                  due = split.0;
                  play =
                      All-map addrs
                        (λ a h. added-InPlay sim.workers sim.worker_add_queue xs q a e h) p.play;
                })
          | inr early ↦
              rw (add_due, f, early)
                (record {
                  due = subst (All (λ x. x.delay < time)) e p.due;
                  play = subst (λ qs. All (InPlay sim.workers qs) addrs) e p.play;
                })
        ]
  ]

  -- Who has a worker still has one in these.
  workers-Placed :
      (sim : WorkerSim Rand64) (ws : Workers)
      → ((a : SocketAddr) → HasWorker sim.workers a → HasWorker ws a)
      → Placed time addrs sim
      → Placed time addrs (record sim { workers = ws })
  workers-Placed sim ws keeps p = record {
    due = p.due;
    play =
        All-map addrs (λ a h. elim h [ inl here_ ↦ inl (keeps a here_) | inr waits ↦ inr waits ])
          p.play;
  }

  insert-Placed :
      (sim : WorkerSim Rand64) (a : SocketAddr) (s : WorkerState)
      → Placed time addrs sim
      → Placed time addrs (record sim { workers = HashMap.insert a s sim.workers })
  insert-Placed sim a s p =
      workers-Placed sim (HashMap.insert a s sim.workers) (insert-HasWorker a s sim.workers) p

  collect_one-Placed :
      (w : World Rand64) (a : SocketAddr) (later : List SocketAddr) (s : WorkerState)
      (q : List (SocketAddr × Message))
      → outbox s ≡ q
      → Placed time addrs w.sim
      → Placed time addrs (collect_one w a later s).sim
  unfolding collect_one
  collect_one-Placed w a later s [] e p = rw (collect_one, recv_message_empty s e) p
  collect_one-Placed w a later s ((dst, msg) ∷ q) e p =
      rw (collect_one, recv_message_next s (dst, msg) q e) (insert-Placed w.sim a (holding s q) p)

  deliver_one-Placed :
      (w : World Rand64) (ms : List Parcel) {w' : World Rand64}
      → Running w.sim.workers
      → deliver_one w ms ≡ ok w'
      → Placed time addrs w.sim
      → Placed time addrs w'.sim
  unfolding deliver_one
  deliver_one-Placed w [] runs h p = subst (λ x. Placed time addrs x.sim) (ok_inj h) p
  deliver_one-Placed w (m ∷ ms) runs h p =
      let (ws, run, get) = deliver-mailed w.sim.workers (m ∷ []) runs in
      let w₁ : World Rand64 = record (with_workers w ws) { messages = ms } in
      let there : deliver_one w (m ∷ ms) ≡ ok w₁ = rw (deliver_one, run, ◌>>=◌) in
      subst (λ x. Placed time addrs x.sim) (ok_inj (sym there ∙ h))
        (workers-Placed w.sim ws
          (λ a has.
            ap is_some (get a)
            ∙ mailed-is_some (sent_to a (m ∷ [])) (HashMap.get a w.sim.workers)
            ∙ has)
          p)

  main_step-Placed :
      (order : IterationOrder (SocketAddr × WorkerState)) (elapsed : ℕ) (w : World Rand64)
      (phase : Phase) {w' : World Rand64}
      → Running w.sim.workers
      → main_step order elapsed w phase ≡ ok w'
      → Placed time addrs w.sim
      → Placed time addrs w'.sim
  unfolding main_step
  main_step-Placed order elapsed w adding runs h p =
      subst (λ x. Placed time addrs x.sim) (ok_inj h) (add_due-Placed elapsed w.sim p)
  main_step-Placed order elapsed w (collecting []) runs h p =
      subst (λ x. Placed time addrs x.sim) (ok_inj h) p
  main_step-Placed order elapsed w (collecting (a ∷ later)) runs h p =
      elim (Option-cases (HashMap.get a w.sim.workers)) [
        | inl e ↦ subst (λ x. Placed time addrs x.sim) (ok_inj (rw (main_step, e) at h)) p
        | inr (s, e) ↦
            subst (λ x. Placed time addrs x.sim) (ok_inj (rw (main_step, e) at h))
              (collect_one-Placed w a later s (outbox s) refl p)
      ]
  main_step-Placed order elapsed w delivering runs h p = deliver_one-Placed w w.messages runs h p

  module _ (order : IterationOrder (SocketAddr × WorkerState)) (entries : IterationOrder Entry)
      (owner : SocketAddr → PeerId) (boot : SocketAddr) where
    Step-Placed :
        {w w' : World Rand64}
        → IsSound owner boot w
        → Step order entries w w'
        → Placed time addrs w.sim
        → Placed time addrs w'.sim
    Step-Placed {w} i (main elapsed h) p =
        main_step-Placed order elapsed w w.phase (λ a s e. (i.workers a s e).runs) h p
    Step-Placed {w} i (thread a s t at_a run e) p =
        subst (λ x. Placed time addrs x.sim) (sym e) (insert-Placed w.sim a (rest t) p)
    Step-Placed {w} i (queued n q t at_n run e) p =
        let x : Queued = record q { worker = rest t } in
        let same = addresses-set w.sim.worker_add_queue n x at_n refl in
        subst (λ x. Placed time addrs x.sim) (sym e)
          (record {
            due =
                All-set (λ y. y.delay < time) w.sim.worker_add_queue n x p.due
                  (All-get_elem? (λ y. y.delay < time) w.sim.worker_add_queue n at_n p.due);
            play =
                All-map addrs
                  (λ a h. elim h [
                    | inl has ↦ inl has
                    | inr waits ↦ inr (subst (Memᴰ a) (sym same) waits)
                  ])
                  p.play;
          })

    pub Reach-Placed :
        {w₀ w : World Rand64}
        → IsSound owner boot w₀
        → Placed time addrs w₀.sim
        → Reach order entries w₀ w
        → Placed time addrs w.sim
    Reach-Placed i p here = p
    Reach-Placed i p (next r st) =
        Step-Placed (Reach-IsSound owner boot order entries i r) st (Reach-Placed i p r)
