-- ===== src/Sim/Steps.antt =====
-- src/bin/sim.rs: the atomic actions of the simulator's thread, one after the other, are the loops of
-- a round of `run`.
use world_dat.Base.{
  ℕ, zero, suc, ◌+◌, ◌≡◌, refl, sym, ap, ap₂, ◌∙◌, none, some, List, [], ◌∷◌, ◌++◌, append_assoc,
  append-nil, length, Run, ok, ok_inj, ◌>>=◌, subst, arith, fun_ext, Bool-cases, Option-cases,
  bind_assoc, Run-cases, inl, inr,
}
use world_dat.Channel
use world_dat.HashMap
use world_dat.HashMap.{IterationOrder}
use world_dat.HashMap.Laws.{get-insert, insert-get, insert-insert}
use world_dat.Sim.{Parcel, Workers, WorkerSim, deliver}
use world_dat.Sim.Carry.{emptied, parcels}
use world_dat.Sim.World.{
  World, Phase, adding, collecting, delivering, collect_one, deliver_one, main_step,
}
use world_dat.Types.{SocketAddr, socket_addr_eq, addr_eq_iff, Message}
use world_dat.Worker
use world_dat.Worker.{WorkerState}
use world_dat.Worker.Handle.{outbox}

-- The worker with these messages left.
abbrev pub holding : WorkerState → List (SocketAddr × Message) → WorkerState
holding s q = record s { message_sender = record s.message_sender { queue = q } }

pub recv_message_empty : (s : WorkerState) → outbox s ≡ [] → Worker.recv_message s ≡ none
unfolding Worker.recv_message
recv_message_empty s e = elim (Bool-cases s.message_sender.sender_alive) [
  | inl alive ↦ rw (Worker.recv_message, Channel.recv-empty s.message_sender e alive)
  | inr gone ↦ rw (Worker.recv_message, Channel.recv-disconnected s.message_sender e gone)
]

pub recv_message_next :
    (s : WorkerState) (m : SocketAddr × Message) (q : List (SocketAddr × Message))
    → outbox s ≡ m ∷ q
    → Worker.recv_message s ≡ some (m, holding s q)
unfolding Worker.recv_message
recv_message_next s m q e = rw (Worker.recv_message, Channel.recv-got s.message_sender m q e)

-- The first message, then the others.
deliver-cons :
    (ws : Workers) (m : Parcel) (ms : List Parcel)
    → deliver ws (m ∷ ms) ≡ deliver ws (m ∷ []) >>= λ ws'. deliver ws' ms
unfolding deliver
deliver-cons ws (src, dest, msg) ms = elim (Option-cases (HashMap.get dest ws)) [
  | inl e ↦ rw (deliver, e)
  | inr (s, e) ↦ elim (Option-cases (Worker.message s src msg)) [
    | inl f ↦ rw (deliver, e, f)
    | inr (s', f) ↦ rw (deliver, e, f)
  ]
]

-- The messages of the workers at these addresses, in order, and the workers without them.
abbrev pub collect_all : List SocketAddr → Workers → Workers × List Parcel
collect_all [] ws = (ws, [])
collect_all (a ∷ later) ws = elim (HashMap.get a ws) [
  | none ↦ collect_all later ws
  | some s ↦
      let (ws', ms) = collect_all later (HashMap.insert a (emptied s) ws) in
      (ws', parcels a (outbox s) ++ ms)
]

module _ {Rand64 : Type 0} where
  abbrev pub at : WorkerSim Rand64 → Workers → List Parcel → Phase → World Rand64
  at sim ws messages phase = record {
    sim = record sim { workers = ws };
    messages = messages;
    phase = phase;
  }

  module _ (order : IterationOrder (SocketAddr × WorkerState)) (elapsed : ℕ) where
    -- So many actions of the simulator's thread, with none of another thread between them.
    abbrev pub main_steps : ℕ → World Rand64 → Run (World Rand64)
    main_steps zero w = ok w
    main_steps (suc n) w = main_step order elapsed w w.phase >>= main_steps n

    pub main_steps-bind :
        (m n : ℕ) (w : World Rand64) → main_steps (m + n) w ≡ main_steps m w >>= main_steps n
    main_steps-bind zero n w =
        let none_first : 0 + n ≡ n = omega arith in ap (λ k. main_steps k w) none_first
    main_steps-bind (suc m) n w =
        let one_first : suc m + n ≡ suc (m + n) = omega arith in
        ap (λ k. main_steps k w) one_first
        ∙ ap (λ f. main_step order elapsed w w.phase >>= f) (fun_ext (main_steps-bind m n))
        ∙ sym (bind_assoc (main_step order elapsed w w.phase) (main_steps m) (main_steps n))

    -- The next action, then the rest.
    after :
        (n : ℕ) (w : World Rand64) {w' w'' : World Rand64}
        → main_step order elapsed w w.phase ≡ ok w'
        → main_steps n w' ≡ ok w''
        → main_steps (suc n) w ≡ ok w''
    after n w e h = ap (λ r. r >>= main_steps n) e ∙ h

    module _ (sim : WorkerSim Rand64) (ws : Workers) (ms : List Parcel) (a : SocketAddr)
        (later : List SocketAddr) (s : WorkerState) (here : HashMap.get a ws ≡ some s) where
      next_worker :
          outbox s ≡ []
          → main_step order elapsed (at sim ws ms (collecting (a ∷ later))) (collecting (a ∷ later))
            ≡ ok (at sim ws ms (collecting later))
      unfolding main_step collect_one
      next_worker e = rw (main_step, here, collect_one, recv_message_empty s e)

      next_message :
          (dst : SocketAddr) (msg : Message) (q : List (SocketAddr × Message))
          → outbox s ≡ (dst, msg) ∷ q
          → main_step order elapsed (at sim ws ms (collecting (a ∷ later))) (collecting (a ∷ later))
            ≡ ok (
                at sim
                  (HashMap.insert a (holding s q) ws)
                  (ms ++ (a, dst, msg) ∷ [])
                  (collecting (a ∷ later)))
      unfolding main_step collect_one
      next_message dst msg q e =
          rw (main_step, here, collect_one, recv_message_next s (dst, msg) q e)

    collecting-steps :
        (q : List (SocketAddr × Message)) (sim : WorkerSim Rand64) (ws : Workers) (ms : List Parcel)
        (a : SocketAddr) (later : List SocketAddr) (s : WorkerState)
        → outbox s ≡ q
        → HashMap.get a ws ≡ some s
        → main_steps (suc (length q)) (at sim ws ms (collecting (a ∷ later)))
          ≡ ok (at sim (HashMap.insert a (holding s []) ws) (ms ++ parcels a q) (collecting later))
    collecting-steps [] sim ws ms a later s e here =
        let same : HashMap.insert a (holding s []) ws ≡ ws =
          ap (λ q. HashMap.insert a (holding s q) ws) (sym e) ∙ insert-get a s ws here in
        after 0 _ (next_worker sim ws ms a later s here e)
          (ap₂ (λ x y. ok (at sim x y (collecting later))) (sym same) (sym (append-nil ms)))
    collecting-steps ((dst, msg) ∷ q) sim ws ms a later s e here =
        let s' : WorkerState = holding s q in
        let ws' : Workers = HashMap.insert a s' ws in
        let there : HashMap.get a ws' ≡ some s' =
          get-insert a a s' ws ∙ rw ((addr_eq_iff a a).1 refl) in
        after (suc (length q)) _ (next_message sim ws ms a later s here dst msg q e) (
          collecting-steps q sim ws' (ms ++ (a, dst, msg) ∷ []) a later s' refl there
          ∙ ap₂ (λ x y. ok (at sim x y (collecting later))) (insert-insert a s' (holding s []) ws)
              (append_assoc ms ((a, dst, msg) ∷ []) (parcels a q)))

    -- The loop over the workers.
    abbrev pub Collects :
        List SocketAddr → WorkerSim Rand64 → Workers → List Parcel → Workers × List Parcel → Type 0
    Collects keys sim ws ms r =
        (n : ℕ) × (main_steps n (at sim ws ms (collecting keys))
          ≡ ok (at sim r.0 (ms ++ r.1) delivering))

    pub collecting_all-steps :
        (keys : List SocketAddr) (sim : WorkerSim Rand64) (ws : Workers) (ms : List Parcel)
        → Collects keys sim ws ms (collect_all keys ws)
    unfolding main_step
    collecting_all-steps [] sim ws ms =
        (1, ap (λ r. ok (at sim ws r delivering)) (sym (append-nil ms)))
    collecting_all-steps (a ∷ later) sim ws ms = elim (Option-cases (HashMap.get a ws)) [
      | inl e ↦
          let skipped : collect_all (a ∷ later) ws ≡ collect_all later ws = rw (collect_all, e) in
          let (n, h) = collecting_all-steps later sim ws ms in
          subst (Collects (a ∷ later) sim ws ms) (sym skipped)
            (suc n, after n (at sim ws ms (collecting (a ∷ later))) (rw (main_step, e)) h)
      | inr (s, e) ↦
          let first = suc (length (outbox s)) in
          let ws' : Workers = HashMap.insert a (emptied s) ws in
          let mine : List Parcel = parcels a (outbox s) in
          let taken : collect_all (a ∷ later) ws
              ≡ ((collect_all later ws').0, mine ++ (collect_all later ws').1) =
            rw (collect_all, e) in
          let (n, h) = collecting_all-steps later sim ws' (ms ++ mine) in
          subst (Collects (a ∷ later) sim ws ms) (sym taken) (
            first + n,
            main_steps-bind first n (at sim ws ms (collecting (a ∷ later)))
                ∙ ap (λ r. r >>= main_steps n)
                    (collecting-steps (outbox s) sim ws ms a later s refl e)
                ∙ h
                ∙ ap (λ r. ok (at sim (collect_all later ws').0 r delivering))
                    (append_assoc ms mine (collect_all later ws').1),
          )
    ]

    pub delivering-steps :
        (ms : List Parcel) (sim : WorkerSim Rand64) (ws ws' : Workers)
        → deliver ws ms ≡ ok ws'
        → main_steps (suc (length ms)) (at sim ws ms delivering) ≡ ok (at sim ws' [] adding)
    unfolding main_step deliver_one deliver
    delivering-steps [] sim ws ws' h = ap (λ x. ok (at sim x [] adding)) (ok_inj h)
    delivering-steps (m ∷ ms) sim ws ws' h = elim (Run-cases (deliver ws (m ∷ []))) [
      | inl e ↦ absurd (cc (rw e at (sym (deliver-cons ws m ms) ∙ h)))
      | inr (mid, e) ↦
          rw (main_step, deliver_one, e, ◌>>=◌)
            (delivering-steps ms sim mid ws' (rw e at (sym (deliver-cons ws m ms) ∙ h)))
    ]
