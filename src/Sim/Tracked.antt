-- ===== src/Sim/Tracked.antt =====
-- src/bin/sim.rs: the introductions, over the actions of all threads.
use world_dat.Base.{
  ℕ, ◌≡◌, refl, sym, ◌∙◌, some, List, [], ◌∷◌, set, All, All-append, inl, inr, Bool-cases,
  Option-cases, subst, ltb, ok, ok_inj, ◌>>=◌, Returns-value,
}
use world_dat.HashMap
use world_dat.HashMap.{IterationOrder}
use world_dat.PeerMap.Invariant.{Entry}
use world_dat.Sim.{Queued, Parcel, add_due}
use world_dat.Sim.Carry.{Running, deliver-mailed}
use world_dat.Sim.FirstOut.{Waits, FirstOut, FirstOut-append, FirstOut-pop, FirstOut-set}
use world_dat.Sim.Heard.{Announces-turn}
use world_dat.Sim.Meeting.{first-Formed, added-Formed, collected-Formed, turned-Formed}
use world_dat.Sim.Post.{pop-All, All-set, All-get_elem?}
use world_dat.Sim.Progress.{Formed, deliver-Formed}
use world_dat.Sim.Safety.{IsSound}
use world_dat.Sim.Sound.{Sound, turn-Served}
use world_dat.Sim.Steps.{recv_message_empty, recv_message_next}
use world_dat.Sim.World.{
  World, Phase, adding, collecting, delivering, rest, with_workers, collect_one, deliver_one,
  main_step, Step, main, thread, queued,
}
use world_dat.Types.{PeerId, SocketAddr, socket_addr_eq, Message}
use world_dat.Worker.{WorkerState}
use world_dat.Worker.Handle.{outbox}

module _ (owner : SocketAddr → PeerId) (boot : SocketAddr) where
  module _ {Rand64 : Type 0} where
    -- Nobody has been added, or the worker at the bootstrap address has.
    pub data Tracked (w : World Rand64) : Type 0 where
      before :
          w.sim.workers ≡ []
          → w.messages ≡ []
          → FirstOut owner boot w.sim.worker_add_queue
          → Tracked w
      formed :
          Formed owner boot w.sim.workers w.messages
          → All (Waits owner boot) w.sim.worker_add_queue
          → Tracked w

    -- Only the workers, the queue and the messages matter.
    pub Tracked-phase :
        (w : World Rand64) (phase : Phase) → Tracked w → Tracked (record w { phase = phase })
    Tracked-phase w phase (before e f h) = before e f h
    Tracked-phase w phase (formed f h) = formed f h

    add_due-Tracked :
        (elapsed : ℕ) (w : World Rand64) (phase : Phase)
        → Tracked w
        → Tracked (record w { sim = add_due elapsed w.sim; phase = phase })
    unfolding add_due
    add_due-Tracked elapsed w phase (before e f h) =
        let (xs, q, last, waits, at_boot) = FirstOut-pop owner boot w.sim.worker_add_queue h in
        elim (Bool-cases (ltb q.delay elapsed)) [
          | inl due ↦ rw (add_due, last, due) (formed (first-Formed owner boot w q e at_boot) waits)
          | inr early ↦
              rw (add_due, last, early) (before e f (FirstOut-append owner boot xs q waits at_boot))
        ]
    add_due-Tracked elapsed w phase (formed f h) =
        elim (pop-All (Waits owner boot) w.sim.worker_add_queue h) [
          | inl e ↦ rw (add_due, e) (formed f h)
          | inr (xs, q, last, waits, mine) ↦ elim (Bool-cases (ltb q.delay elapsed)) [
            | inl due ↦ rw (add_due, last, due) (formed (added-Formed owner boot w q f mine) waits)
            | inr early ↦
                rw (add_due, last, early)
                  (formed f (All-append (Waits owner boot) xs (q ∷ []) waits (mine, tt)))
          ]
        ]

    collect_one-Tracked :
        (w : World Rand64) (a : SocketAddr) (later : List SocketAddr) (s : WorkerState)
        (q : List (SocketAddr × Message))
        → outbox s ≡ q
        → HashMap.get a w.sim.workers ≡ some s
        → Tracked w
        → Tracked (collect_one w a later s)
    unfolding collect_one HashMap.get
    collect_one-Tracked w a later s q e here (before nobody f h) = absurd (cc (rw nobody at here))
    collect_one-Tracked w a later s [] e here (formed f h) =
        rw (collect_one, recv_message_empty s e) (formed f h)
    collect_one-Tracked w a later s ((dst, msg) ∷ q) e here (formed f h) =
        rw (collect_one, recv_message_next s (dst, msg) q e)
          (formed (collected-Formed owner boot w a s dst msg q e here f) h)

    deliver_one-Tracked :
        {w w' : World Rand64} (ms : List Parcel)
        → Running w.sim.workers
        → w.messages ≡ ms
        → deliver_one w ms ≡ ok w'
        → Tracked w
        → Tracked w'
    unfolding deliver_one
    deliver_one-Tracked {w} [] runs e h t = subst Tracked (ok_inj h) (Tracked-phase w adding t)
    deliver_one-Tracked (m ∷ ms) runs e h (before nobody none_yet k) =
        absurd (cc (sym e ∙ none_yet))
    deliver_one-Tracked {w} (m ∷ ms) runs e h (formed f k) =
        let (ws, run, get) = deliver-mailed w.sim.workers (m ∷ []) runs in
        let w₁ : World Rand64 = record (with_workers w ws) { messages = ms } in
        let there : deliver_one w (m ∷ ms) ≡ ok w₁ = rw (deliver_one, run, ◌>>=◌) in
        subst Tracked (ok_inj (sym there ∙ h)) (
          formed
            (deliver-Formed owner boot w.sim.workers ws m ms get
              (subst (Formed owner boot w.sim.workers) e f))
            k)

    main_step-Tracked :
        (order : IterationOrder (SocketAddr × WorkerState)) (elapsed : ℕ) {w w' : World Rand64}
        (phase : Phase)
        → Running w.sim.workers
        → main_step order elapsed w phase ≡ ok w'
        → Tracked w
        → Tracked w'
    unfolding main_step
    main_step-Tracked order elapsed {w} adding runs h t =
        subst Tracked (ok_inj h) (add_due-Tracked elapsed w _ t)
    main_step-Tracked order elapsed {w} (collecting []) runs h t =
        subst Tracked (ok_inj h) (Tracked-phase w delivering t)
    main_step-Tracked order elapsed {w} (collecting (a ∷ later)) runs h t =
        elim (Option-cases (HashMap.get a w.sim.workers)) [
          | inl e ↦
              subst Tracked (ok_inj (rw (main_step, e) at h)) (Tracked-phase w (collecting later) t)
          | inr (s, e) ↦
              subst Tracked (ok_inj (rw (main_step, e) at h))
                (collect_one-Tracked w a later s (outbox s) refl e t)
        ]
    main_step-Tracked order elapsed {w} delivering runs h t =
        deliver_one-Tracked w.messages runs refl h t

    -- `owner` and `boot` as in `Sound`.
    pub Step-Tracked :
        (order : IterationOrder (SocketAddr × WorkerState)) (entries : IterationOrder Entry)
        {w w' : World Rand64}
        → IsSound owner boot w
        → Step order entries w w'
        → Tracked w
        → Tracked w'
    unfolding HashMap.get
    Step-Tracked order entries {w} i (main elapsed h) t =
        main_step-Tracked order elapsed w.phase (λ a s e. (i.workers a s e).runs) h t
    Step-Tracked order entries {w} i (thread a s turned here run e) (before nobody f h) =
        absurd (cc (rw nobody at here))
    Step-Tracked order entries {w} i (thread a s turned here run e) (formed f h) =
        let served = Returns-value run (turn-Served owner boot entries a (i.workers a s here)) in
        subst Tracked (sym e)
          (formed (turned-Formed owner boot entries w a s turned here served f) h)
    Step-Tracked order entries {w} i (queued n q turned here run e) t =
        let sound =
          All-get_elem? (λ x. Sound owner boot x.addr x.worker) w.sim.worker_add_queue n here
            i.waits in
        let served = Returns-value run (turn-Served owner boot entries q.addr sound) in
        let x : Queued = record q { worker = rest turned } in
        let keeps : Waits owner boot q → Waits owner boot x =
          λ k. (k.0, Announces-turn owner boot entries q.addr served k.1) in
        let now : Tracked (record w {
          sim = record w.sim { worker_add_queue = set w.sim.worker_add_queue n x };
        }) =
          elim t [
            | before nobody f h ↦
                before nobody f
                  (FirstOut-set owner boot w.sim.worker_add_queue n x here refl keeps h)
            | formed f h ↦ formed f (
                All-set (Waits owner boot) w.sim.worker_add_queue n x h
                  (keeps (All-get_elem? (Waits owner boot) w.sim.worker_add_queue n here h)))
          ] in
        subst Tracked (sym e) now
