-- ===== src/Sim/Settling.antt =====
-- src/bin/sim.rs and src/worker.rs: the actions that take away from the load of a world.
use world_dat.Base.{
  ℕ, Bool-cases, ◌<◌, ◌≡◌, refl, sym, ap, ◌∙◌, some, some_inj, List, [], ◌∷◌, All, inl, inr, ◌⊎◌,
  Option-cases, ltb, arith,
}
use world_dat.HashMap
use world_dat.HashMap.{IterationOrder}
use world_dat.PeerMap.Invariant.{Entry}
use world_dat.Sim.{Queued, WorkerSim, add_due, pop}
use world_dat.Sim.Delays.{pop-cases}
use world_dat.Sim.Load.{some_left, collects, adds}
use world_dat.Sim.Safety.{IsSound, main_step-IsSound}
use world_dat.Sim.Sound.{turn-Sound}
use world_dat.Sim.Steps.{recv_message_empty}
use world_dat.Sim.Traffic.{world_load, moves, Step-load}
use world_dat.Sim.World.{
  World, Phase, adding, collecting, delivering, rest, with_workers, collect_one, deliver_one,
  main_step, Step, main, thread, Reach, here, next,
}
use world_dat.Types.{PeerId, SocketAddr, socket_addr_eq}
use world_dat.Worker.{WorkerState}
use world_dat.Worker.Handle.{outbox}
use world_dat.Worker.Queue.{inbox}

-- Nobody is due at the time.
abbrev pub NobodyDue : ℕ → List Queued → Type 0
NobodyDue elapsed qs = adds elapsed (pop qs) ≡ 0

-- Somebody is added, or nothing changes.
pub add_due-cases :
    {Rand64 : Type 0} (elapsed : ℕ) (sim : WorkerSim Rand64)
    → (adds elapsed (pop sim.worker_add_queue) ≡ 1)
      ⊎ ((add_due elapsed sim ≡ sim) × NobodyDue elapsed sim.worker_add_queue)
unfolding add_due
add_due-cases elapsed sim = elim (pop-cases sim.worker_add_queue) [
  | inl (e, p) ↦ inr (rw (add_due, p), rw p)
  | inr (xs, q, e, p) ↦ elim (Bool-cases (ltb q.delay elapsed)) [
    | inl due ↦ inl (rw (p, due))
    | inr early ↦ inr (
      rw (add_due, p, early) (ap (λ qs. record sim { worker_add_queue = qs }) (sym e)),
      rw (p, early),
    )
  ]
]

pub list-cases {ℓ} : {A : Type ℓ} (xs : List A) → (xs ≡ []) ⊎ (some_left xs ≡ 1)
list-cases [] = inl refl
list-cases (x ∷ xs) = inr refl

module _ {Rand64 : Type 0} where
  abbrev pub in_phase : World Rand64 → Phase → World Rand64
  in_phase w phase = record w { phase = phase }

  pub Reach-trans :
      {order : IterationOrder (SocketAddr × WorkerState)} {entries : IterationOrder Entry}
      {u v w : World Rand64}
      → Reach order entries u v
      → Reach order entries v w
      → Reach order entries u w
  Reach-trans r here = r
  Reach-trans r (next q st) = next (Reach-trans r q) st

  module _ (order : IterationOrder (SocketAddr × WorkerState)) (entries : IterationOrder Entry)
      (elapsed : ℕ) where
    -- A world with a smaller load can be reached.
    abbrev pub Lower : World Rand64 → Type 0
    Lower w = (w' : World Rand64) × Reach order entries w w' × (world_load w' < world_load w)

    module _ (owner : SocketAddr → PeerId) (boot : SocketAddr) where
      -- An action of the simulator's thread that moves a message.
      pub main-Lower :
          (w : World Rand64) → IsSound owner boot w → moves elapsed w w.phase ≡ 1 → Lower w
      main-Lower w i e =
          let (w', run, _) = main_step-IsSound owner boot order elapsed w w.phase i in
          let st : Step order entries w w' = main elapsed run in
          (w', next here st, omega (arith, e, Step-load order entries owner boot st i))

      pub thread-Lower :
          (w : World Rand64) (a : SocketAddr) (s : WorkerState)
          → IsSound owner boot w
          → HashMap.get a w.sim.workers ≡ some s
          → some_left (inbox s) ≡ 1
          → Lower w
      thread-Lower w a s i at_a e =
          let (t, run, _) = turn-Sound owner boot entries a (i.workers a s at_a) in
          let w' : World Rand64 = with_workers w (HashMap.insert a (rest t) w.sim.workers) in
          let st : Step order entries w w' = thread a s t at_a run refl in
          (w', next here st, omega (arith, e, Step-load order entries owner boot st i))

      pub phase-IsSound :
          (w : World Rand64) (phase : Phase)
          → IsSound owner boot w
          → IsSound owner boot (in_phase w phase)
      phase-IsSound w phase i = record { workers = i.workers; waits = i.waits; parcels = i.parcels }

      -- Nothing is left to be collected at the address.
      abbrev pub Collected : World Rand64 → SocketAddr → Type 0
      Collected w a = (s : WorkerState) → HashMap.get a w.sim.workers ≡ some s → outbox s ≡ []

      pub sweep :
          (keys : List SocketAddr) (w : World Rand64)
          → IsSound owner boot w
          → Lower (in_phase w (collecting keys))
            ⊎ (Reach order entries (in_phase w (collecting keys)) (in_phase w delivering)
                × All (Collected w) keys)
      unfolding main_step collect_one
      sweep [] w i = inr (next here (main elapsed refl), tt)
      sweep (a ∷ later) w i = elim (Option-cases (HashMap.get a w.sim.workers)) [
        | inl e ↦
            let st : Step order entries (in_phase w (collecting (a ∷ later)))
                (in_phase w (collecting later)) =
              main elapsed (rw (main_step, e)) in
            elim (sweep later w i) [
              | inl (w', r, less) ↦ inl (w', Reach-trans (next here st) r, less)
              | inr (r, all) ↦ inr (Reach-trans (next here st) r, (λ s f. absurd (cc (e, f)), all))
            ]
        | inr (s, e) ↦ elim (list-cases (outbox s)) [
          | inr some_out ↦ inl (
              main-Lower (in_phase w (collecting (a ∷ later)))
                (phase-IsSound w (collecting (a ∷ later)) i) (ap collects e ∙ some_out))
          | inl empty ↦
              let st : Step order entries (in_phase w (collecting (a ∷ later)))
                  (in_phase w (collecting later)) =
                main elapsed (rw (main_step, e, collect_one, recv_message_empty s empty)) in
              elim (sweep later w i) [
                | inl (w', r, less) ↦ inl (w', Reach-trans (next here st) r, less)
                | inr (r, all) ↦ inr (
                  Reach-trans (next here st) r,
                  ((λ t f. ap outbox (some_inj (sym f ∙ e)) ∙ empty), all),
                )
              ]
        ]
      ]

      pub deliver_all :
          (w : World Rand64)
          → IsSound owner boot w
          → Lower (in_phase w delivering)
            ⊎ (Reach order entries (in_phase w delivering) (in_phase w adding) × (w.messages ≡ []))
      unfolding main_step deliver_one
      deliver_all w i = elim (list-cases w.messages) [
        | inr waits ↦ inl (main-Lower (in_phase w delivering) (phase-IsSound w delivering i) waits)
        | inl empty ↦
            inr (next here (main elapsed (ap (deliver_one (in_phase w delivering)) empty)), empty)
      ]

      -- The round that the simulator's thread is in ends.
      pub finish_round :
          (w : World Rand64) (phase : Phase)
          → IsSound owner boot w
          → Lower (in_phase w phase) ⊎ Reach order entries (in_phase w phase) (in_phase w adding)
      finish_round w adding i = inr here
      finish_round w delivering i = elim (deliver_all w i) [
        | inl lower ↦ inl lower
        | inr (r, empty) ↦ inr r
      ]
      finish_round w (collecting keys) i = elim (sweep keys w i) [
        | inl lower ↦ inl lower
        | inr (r, all) ↦ elim (deliver_all w i) [
          | inl (w', q, less) ↦ inl (w', Reach-trans r q, less)
          | inr (q, empty) ↦ inr (Reach-trans r q)
        ]
      ]
