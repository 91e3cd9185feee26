-- ===== src/Sim/Schedules.antt =====
-- src/bin/sim.rs and src/worker.rs: the actions of the threads in a given order, and a run of two
-- workers until no message is left.
use world_dat.Base.{
  ℕ, ◌≡◌, refl, sym, none, some, ok_inj, List, [], ◌∷◌, ◌++◌, Run, ok, panic, Bool, inl, inr,
  Option-cases, Run-cases, subst, replicate,
}
use world_dat.HashMap
use world_dat.HashMap.{IterationOrder}
use world_dat.HashMap.Laws.{get-All}
use world_dat.PeerMap.Invariant.{Entry}
use world_dat.PeerMap.Samples.{in_order}
use world_dat.Sim.{WorkerSim, add_new_workers, new, set_bootstrap, add_due, sort_queue}
use world_dat.Sim.Convergence.{Quiet}
use world_dat.Sim.Network.{setup}
use world_dat.Sim.Samples.{counter, digest, digest-IsHash, addresses}
use world_dat.Sim.Setup.{Owns}
use world_dat.Sim.World.{
  World, begin, main_step, rest, with_workers, Step, main, thread, Reach, here, next,
}
use world_dat.Hash.Xor.{xor_bytes}
use world_dat.Types.{PeerId, SocketAddr, socket_addr_eq, addr_eq, id_eq}
use world_dat.Types.Distance.{rank}
use world_dat.Types.Samples.{id_of, home, away}
use world_dat.Worker.{WorkerState, turn}
use world_dat.Worker.Handle.{outbox}
use world_dat.Worker.Queue.{inbox}
use world_dat.Worker.Samples.{worker as idle_worker}

-- The simulator's thread acts at this time, or the worker at this address takes a turn.
pub data Action : Type 0 where
  simulator : ℕ → Action
  worker : SocketAddr → Action

module _ {Rand64 : Type 0} (order : IterationOrder (SocketAddr × WorkerState))
    (entries : IterationOrder Entry) where
  unfoldable pub take_turn : World Rand64 → SocketAddr → WorkerState → Run (World Rand64)
  unfolding turn
  take_turn w a s = elim (turn entries s) [
    | ok t ↦ ok (with_workers w (HashMap.insert a (rest t) w.sim.workers))
    | panic ↦ panic
  ]

  unfoldable pub act : World Rand64 → Action → Run (World Rand64)
  unfolding take_turn main_step HashMap.get
  act w (simulator elapsed) = main_step order elapsed w w.phase
  act w (worker a) = elim (HashMap.get a w.sim.workers) [ none ↦ panic | some s ↦ take_turn w a s ]

  unfoldable pub perform : List Action → World Rand64 → Run (World Rand64)
  unfolding act
  perform [] w = ok w
  perform (x ∷ xs) w = elim (act w x) [ ok w' ↦ perform xs w' | panic ↦ panic ]

  act-Step :
      (w : World Rand64) (x : Action) {w' : World Rand64}
      → act w x ≡ ok w'
      → Step order entries w w'
  unfolding act take_turn
  act-Step w (simulator elapsed) h = main elapsed h
  act-Step w (worker a) h = elim (Option-cases (HashMap.get a w.sim.workers)) [
    | inl e ↦ absurd (cc (rw (act, e) at h))
    | inr (s, e) ↦ elim (Run-cases (turn entries s)) [
      | inl f ↦ absurd (cc (rw (act, e, take_turn, f) at h))
      | inr (t, f) ↦ thread a s t e f (sym (ok_inj (rw (act, e, take_turn, f) at h)))
    ]
  ]

  -- What the actions lead to is reached.
  pub perform-Reach :
      {w₀ : World Rand64} (w : World Rand64) (xs : List Action) {w' : World Rand64}
      → Reach order entries w₀ w
      → perform xs w ≡ ok w'
      → Reach order entries w₀ w'
  unfolding perform
  perform-Reach {w₀} w [] r h = subst (Reach order entries w₀) (ok_inj h) r
  perform-Reach w (x ∷ xs) r h = elim (Run-cases (act w x)) [
    | inl e ↦ absurd (cc (rw (perform, e) at h))
    | inr (next_world, e) ↦
        perform-Reach next_world xs (next r (act-Step w x e)) (rw (perform, e) at h)
  ]

-- As in `heckin_simulator`, the worker at the bootstrap address is added at once.
abbrev pub two_jobs : List (SocketAddr × ℕ)
two_jobs = (home, 0) ∷ (away, 2000) ∷ []

abbrev pub two_workers : WorkerSim ℕ
two_workers = elim (setup counter digest digest-IsHash home two_jobs) [
  | ok s ↦ s
  | panic ↦ new counter digest
]

pub two_workers-run : setup counter digest digest-IsHash home two_jobs ≡ ok two_workers
unfolding add_new_workers new set_bootstrap
two_workers-run = refl

-- The ids of the two.
abbrev pub two_owners : SocketAddr → PeerId
two_owners a = elim (addr_eq a home) [ Bool.true ↦ id_of 0 57 | Bool.false ↦ id_of 0 89 ]

pub two_workers-Owns : Owns two_owners two_workers
unfolding add_new_workers new set_bootstrap addr_eq
two_workers-Owns = (refl, (refl, tt))

-- Both are added, answer their introductions, and the answers are collected, delivered and handled.
abbrev pub schedule : List Action
schedule =
    replicate 5 (simulator 3000)
    ++ worker home ∷ worker home ∷ worker away ∷ worker away ∷ []
    ++ replicate 11 (simulator 3000)
    ++ replicate 4 (worker home)

abbrev pub settled : World ℕ
settled = elim (perform addresses in_order schedule (begin two_workers)) [
  | ok w ↦ w
  | panic ↦ begin two_workers
]

settled-run : perform addresses in_order schedule (begin two_workers) ≡ ok settled
unfolding perform act take_turn main_step turn HashMap.get HashMap.insert add_new_workers new
    set_bootstrap sort_queue add_due addr_eq id_eq rank xor_bytes
settled-run = refl

pub settled-Reach : Reach addresses in_order (begin two_workers) settled
settled-Reach = perform-Reach addresses in_order (begin two_workers) schedule here settled-run

pub settled-Quiet : Quiet settled
unfolding perform act take_turn main_step turn HashMap.get HashMap.insert add_new_workers new
    set_bootstrap sort_queue add_due addr_eq id_eq rank xor_bytes
settled-Quiet = record {
  carried_all = refl;
  handled_all = λ a s e.
      get-All (λ x. (inbox x ≡ []) × (outbox x ≡ [])) a settled.sim.workers
        ((refl, refl), ((refl, refl), tt)) e;
}

-- The worker that was added last.
abbrev pub visitor : WorkerState
visitor = elim (HashMap.get away settled.sim.workers) [ some s ↦ s | none ↦ idle_worker ]

pub visitor-found : HashMap.get away settled.sim.workers ≡ some visitor
unfolding perform act take_turn main_step turn HashMap.get HashMap.insert add_new_workers new
    set_bootstrap sort_queue add_due addr_eq id_eq rank xor_bytes
visitor-found = refl
