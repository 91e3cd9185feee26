-- ===== src/Sim/Gathering.antt =====
-- src/bin/sim.rs: the network at rest with every worker added.
use mathlib.Core.List.Memᴰ
use mathlib.Core.List.Memᴰ.{Memᴰ}
use world_dat.Base.{
  ℕ, suc, ◌<◌, ◌≡◌, refl, sym, ap, ◌∙◌, true, Option, none, some, is_some, List, [], ◌∷◌, map,
  total, All, All-map, All-split, Bool-cases, inl, inr, ok, arith, subst, Returns-value, ltb,
  lt→ltb,
}
use world_dat.HashMap
use world_dat.HashMap.{IterationOrder}
use world_dat.Hash.{IsHash}
use world_dat.PeerMap.Invariant.{Entry}
use world_dat.Sim.{Queued, WorkerSim, insert_queued, sort_queue, new, set_bootstrap, pop}
use world_dat.Sim.Convergence.{Quiet, Met, reached-Met}
use world_dat.Sim.Delays.{pop-cases}
use world_dat.Sim.InPlay.{addresses, InPlay, Placed}
use world_dat.Sim.Placed.{Reach-Placed}
use world_dat.Sim.Jobs.{IsLater, jobs_of, add_new_workers-jobs}
use world_dat.Sim.Network.{setup}
use world_dat.Sim.Rest.{settles, All-unmap}
use world_dat.Sim.Safety.{Reach-IsSound}
use world_dat.Sim.Settling.{NobodyDue, Reach-trans}
use world_dat.Sim.Setup.{setup-Ready, Owns, begin-IsSound}
use world_dat.Sim.Traffic.{world_load}
use world_dat.Sim.World.{World, Reach, begin}
use world_dat.Types.{PeerId, SocketAddr, socket_addr_eq, Randomness}
use world_dat.Worker.{WorkerState}

-- If all who wait are due at the time and nobody is, nobody waits.
nobody_waits :
    (time : ℕ) (qs : List Queued) → All (λ q. q.delay < time) qs → NobodyDue time qs → qs ≡ []
unfolding pop
nobody_waits time qs due nobody = elim (pop-cases qs) [
  | inl (e, p) ↦ e
  | inr (xs, q, e, p) ↦
      let last =
        All-split (λ x. x.delay < time) xs (q ∷ []) (subst (All (λ x. x.delay < time)) e due) in
      let now = lt→ltb q.delay time last.1.0 in absurd (cc (rw (p, now) at nobody))
]

-- A time at which all are due.
all_due : (qs : List Queued) (n : ℕ) → total (λ q. q.delay) qs < n → All (λ q. q.delay < n) qs
all_due [] n h = tt
all_due (q ∷ qs) n h = (omega arith, all_due qs n (omega arith))

insert_queued-mem :
    (a : SocketAddr) (q : Queued) (qs : List Queued)
    → Memᴰ a (addresses (q ∷ qs))
    → Memᴰ a (addresses (insert_queued q qs))
unfolding insert_queued
insert_queued-mem a q [] m = m
insert_queued-mem a q (x ∷ qs) m = elim (Bool-cases (ltb q.delay x.delay)) [
  | inl e ↦ rw e (elim (Memᴰ.cases_cons m) [
    | inl same ↦ Memᴰ.tail (insert_queued-mem a q qs (Memᴰ.head same))
    | inr other ↦ elim (Memᴰ.cases_cons other) [
      | inl same ↦ Memᴰ.head same
      | inr later ↦ Memᴰ.tail (insert_queued-mem a q qs (Memᴰ.tail later))
    ]
  ])
  | inr e ↦ rw e m
]

sort_queue-mem :
    (a : SocketAddr) (qs : List Queued) → Memᴰ a (addresses qs) → Memᴰ a (addresses (sort_queue qs))
unfolding sort_queue
sort_queue-mem a [] m = m
sort_queue-mem a (q ∷ qs) m = insert_queued-mem a q (sort_queue qs) (elim (Memᴰ.cases_cons m) [
  | inl same ↦ Memᴰ.head same
  | inr later ↦ Memᴰ.tail (sort_queue-mem a qs later)
])

jobs_of-addresses : (qs : List Queued) → map (λ j. j.0) (jobs_of qs) ≡ addresses qs
jobs_of-addresses [] = refl
jobs_of-addresses (q ∷ qs) = ap (λ r. q.addr ∷ r) (jobs_of-addresses qs)

-- Each element is one of the list.
all_members {ℓ κ} :
    {A : Type ℓ} (P : A → Type κ) (xs : List A) → ((x : A) → Memᴰ x xs → P x) → All P xs
all_members P [] f = tt
all_members P (x ∷ xs) f = (f x (Memᴰ.head refl), all_members P xs (λ y m. f y (Memᴰ.tail m)))

begin-Placed :
    {Rand64 : Type 0} (sim : WorkerSim Rand64) (jobs : List (SocketAddr × ℕ))
    → jobs_of sim.worker_add_queue ≡ jobs
    → Placed
        (suc (total (λ q. q.delay) (sort_queue sim.worker_add_queue)))
        (map (λ j. j.0) jobs)
        (begin sim).sim
begin-Placed sim jobs e = record {
  due = all_due (sort_queue sim.worker_add_queue) _ (omega arith);
  play =
      all_members (InPlay sim.workers (sort_queue sim.worker_add_queue)) (map (λ j. j.0) jobs)
        (λ a m. inr (
          sort_queue-mem a sim.worker_add_queue (
            subst (Memᴰ a) (sym (ap (map (λ j. j.0)) e) ∙ jobs_of-addresses sim.worker_add_queue)
              m)));
}

is_some-get : (o : Option WorkerState) → is_some o ≡ true → (s : WorkerState) × (o ≡ some s)
is_some-get none h = absurd (cc h)
is_some-get (some s) h = (s, refl)

-- Nobody waits: who is in play has been added.
InPlay-added :
    (ws : List (SocketAddr × WorkerState)) (qs : List Queued) (a : SocketAddr)
    → qs ≡ []
    → InPlay ws qs a
    → (s : WorkerState) × (HashMap.get a ws ≡ some s)
InPlay-added ws qs a e (inl has) = is_some-get (HashMap.get a ws) has
InPlay-added ws qs a e (inr m) = absurd (Memᴰ.not-nil (subst (λ x. Memᴰ a (addresses x)) e m))

module _ (r : Randomness) (blake2s : List ℕ → List ℕ)
    (hash : (seed : List ℕ) → IsHash (record { bytes = blake2s seed })) (boot : SocketAddr)
    (delay : ℕ) (jobs : List (SocketAddr × ℕ)) (later : All (IsLater boot delay) jobs)
    {sim : WorkerSim r.Rand64} (made : setup r blake2s hash boot ((boot, delay) ∷ jobs) ≡ ok sim)
    (owner : SocketAddr → PeerId) (owns : Owns owner sim)
    (order : IterationOrder (SocketAddr × WorkerState)) (entries : IterationOrder Entry)
    {w : World r.Rand64} (reach : Reach order entries (begin sim) w) where
  -- The simulator has been set up with a worker at the bootstrap address whose delay is shorter than
  -- those of all others, which are at other addresses. From every world that `run` then reaches, the
  -- threads can go on to a world in which no message is left in a channel of an added worker or on
  -- its way, and in which at each address that was set up there is an added worker, which is known to
  -- the one at the bootstrap address under an address whose worker has this id: no order of the
  -- threads before can prevent it. The digest gives 32 bytes and `owner` maps the workers' addresses
  -- to their ids.
  pub reached-gathers :
      (w' : World r.Rand64) × Reach order entries w w'
      × Quiet w'
      × All
          (λ job.
            (s : WorkerState) × (HashMap.get job.0 w'.sim.workers ≡ some s)
            × Met owner boot w' s.peer_id)
          ((boot, delay) ∷ jobs)
  unfolding new set_bootstrap
  reached-gathers =
      let all_jobs : List (SocketAddr × ℕ) = (boot, delay) ∷ jobs in
      let ready = Returns-value made (setup-Ready r blake2s hash boot all_jobs) in
      let sound = begin-IsSound owner boot sim ready owns in
      let queue =
        add_new_workers-jobs r blake2s (set_bootstrap r blake2s (new r blake2s) boot) all_jobs
          made in
      let time = suc (total (λ q. q.delay) (sort_queue sim.worker_add_queue)) in
      let (w', onward, resting) =
        settles order entries time owner boot (suc (world_load w)) w
          (Reach-IsSound owner boot order entries sound reach) (omega arith) in
      let whole : Reach order entries (begin sim) w' = Reach-trans reach onward in
      let placed =
        Reach-Placed time (map (λ j. j.0) all_jobs) order entries owner boot sound
          (begin-Placed sim all_jobs queue) whole in
      let empty = nobody_waits time w'.sim.worker_add_queue placed.due resting.nobody in
      (
        w',
        onward,
        resting.quiet,
        All-map all_jobs
            (λ job play.
              let (s, at_job) =
                InPlay-added w'.sim.workers w'.sim.worker_add_queue job.0 empty play in
              (
                s,
                at_job,
                reached-Met r blake2s hash boot delay jobs later made owner owns order entries whole
                    resting.quiet job.0 s at_job,
              ))
            (All-unmap (InPlay w'.sim.workers w'.sim.worker_add_queue) (λ j. j.0) all_jobs
              placed.play),
      )
