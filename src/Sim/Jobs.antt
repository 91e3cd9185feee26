-- ===== src/Sim/Jobs.antt =====
-- src/bin/sim.rs: the simulator that `heckin_simulator` sets up, when the worker at the bootstrap
-- address is the one to be added first.
use mathlib.Core.List.Memᴰ
use world_dat.Base.{
  ℕ, ◌<◌, ◌≡◌, ◌≢◌, refl, sym, ap, ◌∙◌, List, [], ◌∷◌, ◌++◌, map, append_assoc, append-nil, All,
  All-both, All-map, inl, inr, subst, lt→ltb, ok, ok_inj, ◌>>=◌, Run-cases, arith,
}
use world_dat.Sim.{
  Queued, WorkerSim, insert_queued, sort_queue, add_new_worker, add_new_workers, new_worker,
}
use world_dat.Sim.FirstOut.{Waits, FirstOut, FirstOut-append}
use world_dat.Sim.Heard.{Announces}
use world_dat.Sim.Setup.{Fresh, Ready, Owns, sort_queue-All}
use world_dat.Sim.Tracked.{Tracked, before}
use world_dat.Sim.World.{begin}
use world_dat.Types.{PeerId, SocketAddr, ping, Randomness, new_insecure_random}
use world_dat.Worker.{incoming}
use world_dat.Worker.Queue.{inbox}

-- The addresses and delays of the workers that wait.
abbrev pub jobs_of : List Queued → List (SocketAddr × ℕ)
jobs_of = map (λ q. (q.addr, q.delay))

jobs_of-append : (qs xs : List Queued) → jobs_of (qs ++ xs) ≡ jobs_of qs ++ jobs_of xs
jobs_of-append [] xs = refl
jobs_of-append (q ∷ qs) xs = ap (λ r. (q.addr, q.delay) ∷ r) (jobs_of-append qs xs)

-- The worker with the shortest delay goes behind all others.
insert_queued_last :
    (q : Queued) (qs : List Queued)
    → All (λ x. q.delay < x.delay) qs
    → insert_queued q qs ≡ qs ++ q ∷ []
unfolding insert_queued
insert_queued_last q [] h = refl
insert_queued_last q (x ∷ qs) h =
    rw (lt→ltb q.delay x.delay h.0) (ap (λ r. x ∷ r) (insert_queued_last q qs h.1))

module _ (r : Randomness) (blake2s : List ℕ → List ℕ) where
  open r use {Rand64}

  add_new_worker-jobs :
      (sim : WorkerSim Rand64) (addr : SocketAddr) (delay : ℕ) {sim' : WorkerSim Rand64}
      → add_new_worker r blake2s sim addr delay ≡ ok sim'
      → jobs_of sim'.worker_add_queue ≡ jobs_of sim.worker_add_queue ++ (addr, delay) ∷ []
  unfolding add_new_worker
  add_new_worker-jobs sim addr delay {sim'} h =
      elim (Run-cases (new_insecure_random r blake2s sim.rng)) [
        | inl e ↦ absurd (cc (rw (add_new_worker, e, ◌>>=◌) at h))
        | inr (drawn, e) ↦ elim (Run-cases (new_worker drawn.0 addr sim.bootstrap)) [
          | inl f ↦ absurd (cc (rw (add_new_worker, e, ◌>>=◌, f, ◌>>=◌) at h))
          | inr (s, f) ↦
              let q : Queued = record { addr = addr; worker = s; delay = delay } in
              ap (λ x. jobs_of x.worker_add_queue)
                (sym (ok_inj (rw (add_new_worker, e, ◌>>=◌, f, ◌>>=◌) at h)))
              ∙ jobs_of-append sim.worker_add_queue (q ∷ [])
        ]
      ]

  pub add_new_workers-jobs :
      (sim : WorkerSim Rand64) (jobs : List (SocketAddr × ℕ)) {sim' : WorkerSim Rand64}
      → add_new_workers r blake2s sim jobs ≡ ok sim'
      → jobs_of sim'.worker_add_queue ≡ jobs_of sim.worker_add_queue ++ jobs
  unfolding add_new_workers
  add_new_workers-jobs sim [] h =
      ap (λ x. jobs_of x.worker_add_queue) (sym (ok_inj h))
      ∙ sym (append-nil (jobs_of sim.worker_add_queue))
  add_new_workers-jobs sim ((addr, delay) ∷ jobs) h =
      elim (Run-cases (add_new_worker r blake2s sim addr delay)) [
        | inl e ↦ absurd (cc (rw (add_new_workers, e, ◌>>=◌) at h))
        | inr (next, e) ↦
            add_new_workers-jobs next jobs (rw (add_new_workers, e, ◌>>=◌) at h)
            ∙ ap (λ q. q ++ jobs) (add_new_worker-jobs sim addr delay e)
            ∙ append_assoc (jobs_of sim.worker_add_queue) ((addr, delay) ∷ []) jobs
      ]

-- Another address than the bootstrap's, and a longer delay than that of the worker there.
abbrev pub IsLater : SocketAddr → ℕ → SocketAddr × ℕ → Type 0
IsLater boot delay j = (j.0 ≢ boot) × (delay < j.1)

module _ (owner : SocketAddr → PeerId) (boot : SocketAddr) where
  Fresh-Announces :
      (q : Queued)
      → owner q.addr ≡ q.worker.peer_id
      → Fresh boot q
      → Announces owner boot q.addr q.worker
  Fresh-Announces q e f =
      let mine : owner q.addr ≡ f.id = e ∙ ap (λ w. w.peer_id) f.is_told ∙ f.starts.own_id in
      let first : incoming boot (ping (owner q.addr)) ≡ incoming boot (ping f.id) =
        ap (λ p. incoming boot (ping p)) mine in
      inl (
        subst (λ w. Memᴰ.Memᴰ (incoming boot (ping (owner q.addr))) (inbox w)) (sym f.is_told)
          (Memᴰ.head first))

  Waits-all :
      (delay : ℕ) (jobs : List (SocketAddr × ℕ)) (qs : List Queued)
      → jobs_of qs ≡ jobs
      → All (IsLater boot delay) jobs
      → All (λ q. Announces owner boot q.addr q.worker) qs
      → All (λ q. Waits owner boot q × (delay < q.delay)) qs
  Waits-all delay jobs [] e h k = tt
  Waits-all delay [] (q ∷ qs) e h k = absurd (cc e)
  Waits-all delay ((a, d) ∷ jobs) (q ∷ qs) e h k =
      let addr : q.addr ≡ a = cc in
      let later : q.delay ≡ d = cc in
      let others : jobs_of qs ≡ jobs = cc in
      (
        (((λ here. h.0.0 (sym addr ∙ here)), k.0), omega (arith, h.0.1, later)),
        Waits-all delay jobs qs others h.1 k.1,
      )

  sort_queue-FirstOut :
      (delay : ℕ) (jobs : List (SocketAddr × ℕ)) (qs : List Queued)
      → jobs_of qs ≡ (boot, delay) ∷ jobs
      → All (IsLater boot delay) jobs
      → All (λ q. Announces owner boot q.addr q.worker) qs
      → FirstOut owner boot (sort_queue qs)
  unfolding sort_queue
  sort_queue-FirstOut delay jobs [] e h k = absurd (cc e)
  sort_queue-FirstOut delay jobs (q ∷ qs) e h k =
      let addr : q.addr ≡ boot = cc in
      let first : q.delay ≡ delay = cc in
      let others : jobs_of qs ≡ jobs = cc in
      let waits : All (λ x. Waits owner boot x × (delay < x.delay)) (sort_queue qs) =
        sort_queue-All (λ x. Waits owner boot x × (delay < x.delay)) qs
          (Waits-all delay jobs qs others h k.1) in
      let last : insert_queued q (sort_queue qs) ≡ sort_queue qs ++ q ∷ [] =
        insert_queued_last q (sort_queue qs)
          (All-map (sort_queue qs) (λ x w. omega (arith, w.1, first)) waits) in
      subst (FirstOut owner boot) (sym last) (
        FirstOut-append owner boot (sort_queue qs) q (All-map (sort_queue qs) (λ x w. w.0) waits)
          addr)

  -- The simulator before the first action.
  pub begin-Tracked :
      {Rand64 : Type 0} (delay : ℕ) (jobs : List (SocketAddr × ℕ)) (sim : WorkerSim Rand64)
      → Ready boot sim
      → Owns owner sim
      → jobs_of sim.worker_add_queue ≡ (boot, delay) ∷ jobs
      → All (IsLater boot delay) jobs
      → Tracked owner boot (begin sim)
  begin-Tracked delay jobs sim i o e h = before i.nobody refl (
      sort_queue-FirstOut delay jobs sim.worker_add_queue e h
        (All-both sim.worker_add_queue (λ q p f. Fresh-Announces q p f) o i.fresh))
