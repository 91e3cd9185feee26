-- ===== src/Sim/Delays.antt =====
-- src/bin/sim.rs: the queue of the workers that wait to be added.
use world_dat.Base.{
  ℕ, ◌<◌, ◌≤◌, ◌≡◌, refl, sym, ap, ◌∙◌, true, none, some, is_some, List, [], ◌∷◌, ◌++◌, length,
  length-append, All, All-append, All-split, All-map, if◌then◌else◌, ltb, lt→ltb, ◌==◌, inl, inr,
  ◌⊎◌, Bool-cases, subst, arith,
}
use world_dat.HashMap
use world_dat.HashMap.Laws.{get-insert}
use world_dat.Sim.{Queued, WorkerSim, insert_queued, sort_queue, pop, add_worker, add_due}
use world_dat.Sim.Setup.{insert_queued-All}
use world_dat.Types.{socket_addr_eq, addr_eq, addr_eq_iff}

-- The longest delay comes first.
abbrev pub Descending : List Queued → Type 0
Descending [] = Unit
Descending (q ∷ qs) = All (λ x. x.delay ≤ q.delay) qs × Descending qs

-- The elements with this delay, in order.
abbrev pub with_delay : ℕ → List Queued → List Queued
with_delay d [] = []
with_delay d (q ∷ qs) = if q.delay == d then q ∷ with_delay d qs else with_delay d qs

insert_queued-Descending :
    (q : Queued) (qs : List Queued) → Descending qs → Descending (insert_queued q qs)
unfolding insert_queued
insert_queued-Descending q [] h = (tt, tt)
insert_queued-Descending q (x ∷ xs) h = elim (Bool-cases (ltb q.delay x.delay)) [
  | inl less ↦ rw less (
    insert_queued-All (λ y. y.delay ≤ x.delay) q xs (ground arith) h.0,
    insert_queued-Descending q xs h.1,
  )
  | inr more ↦
      let above : x.delay ≤ q.delay = ground arith in
      rw more ((above, All-map xs (λ y le. omega arith) h.0), h)
]

-- The new element goes before the first one that does not wait longer: it keeps its place.
insert_queued-with_delay :
    (d : ℕ) (q : Queued) (qs : List Queued)
    → with_delay d (insert_queued q qs) ≡ with_delay d (q ∷ qs)
unfolding insert_queued
insert_queued-with_delay d q [] = refl
insert_queued-with_delay d q (x ∷ xs) = ground (arith, insert_queued-with_delay d q xs)

-- `run` sorts the queue: the longest delay comes first, and workers with the same delay keep their
-- order.
pub sort_queue-Descending :
    (qs : List Queued)
    → Descending (sort_queue qs) × ((d : ℕ) → with_delay d (sort_queue qs) ≡ with_delay d qs)
unfolding sort_queue
sort_queue-Descending [] = (tt, λ d. refl)
sort_queue-Descending (q ∷ qs) =
    let (down, stable) = sort_queue-Descending qs in
    (
      insert_queued-Descending q (sort_queue qs) down,
      λ d.
          insert_queued-with_delay d q (sort_queue qs)
          ∙ ap (λ r. if q.delay == d then q ∷ r else r) (stable d),
    )

pub pop-cases :
    (qs : List Queued)
    → ((qs ≡ []) × (pop qs ≡ none))
      ⊎ ((xs : List Queued) × (q : Queued) × (qs ≡ xs ++ q ∷ []) × (pop qs ≡ some (xs, q)))
unfolding pop
pop-cases [] = inl (refl, refl)
pop-cases (x ∷ qs) = elim (pop-cases qs) [
  | inl (e, p) ↦ inr ([], x, ap (λ r. x ∷ r) e, rw p)
  | inr (xs, q, e, p) ↦ inr (x ∷ xs, q, ap (λ r. x ∷ r) e, rw p)
]

Descending-last :
    (xs : List Queued) (q : Queued)
    → Descending (xs ++ q ∷ [])
    → Descending xs × All (λ x. q.delay ≤ x.delay) xs
Descending-last [] q h = (tt, tt)
Descending-last (x ∷ xs) q h =
    let (down, above) = Descending-last xs q h.1 in
    let (before, last) = All-split (λ y. y.delay ≤ x.delay) xs (q ∷ []) h.0 in
    ((before, down), (last.0, above))

-- Everybody waits no longer than until each of these times.
abbrev pub AllDue : List ℕ → List Queued → Type 0
AllDue ts qs = All (λ t. All (λ q. q.delay < t) qs) ts

module _ {Rand64 : Type 0} where
  -- The worker that is added in a round, and the queue without it.
  pub record Adds (elapsed : ℕ) (sim sim' : WorkerSim Rand64) : Type 0 where
    pub later : List Queued
    pub chosen : Queued
    pub splits : sim.worker_add_queue ≡ later ++ chosen ∷ []
    pub due : chosen.delay < elapsed
    pub first : All (λ q. chosen.delay ≤ q.delay) later
    pub result : sim' ≡ record sim {
      workers = HashMap.insert chosen.addr chosen.worker sim.workers;
      worker_add_queue = later;
    }

  -- A round on a queue with the longest delay first leaves such a queue. Either nothing is due, and
  -- nothing changes, or the last worker of the queue, whose delay is smallest and below the time that
  -- has passed, is taken from the queue and added under its address.
  pub add_due-Adds :
      (elapsed : ℕ) (sim : WorkerSim Rand64)
      → Descending sim.worker_add_queue
      → Descending (add_due elapsed sim).worker_add_queue
        × (((add_due elapsed sim ≡ sim) × All (λ q. elapsed ≤ q.delay) sim.worker_add_queue)
            ⊎ Adds elapsed sim (add_due elapsed sim))
  unfolding add_due add_worker
  add_due-Adds elapsed sim down = elim (pop-cases sim.worker_add_queue) [
    | inl (e, p) ↦ rw (add_due, p) (down, inl (refl, rw e tt))
    | inr (xs, q, e, p) ↦
        let (down', above) = Descending-last xs q (subst Descending e down) in
        elim (Bool-cases (ltb q.delay elapsed)) [
          | inl due ↦
              rw (add_due, p, due)
                (
                  down',
                  inr (record {
                    later = xs;
                    chosen = q;
                    splits = e;
                    due = ground arith;
                    first = above;
                    result = refl;
                  }),
                )
          | inr early ↦
              rw (add_due, p, early)
                (
                  subst Descending e down,
                  inl (
                    ap (λ qs. record sim { worker_add_queue = qs }) (sym e),
                    subst (All (λ x. elapsed ≤ x.delay)) (sym e) (
                        All-append (λ x. elapsed ≤ x.delay) xs (q ∷ [])
                          (All-map xs (λ x le. ground arith) above) (ground arith, tt)),
                  ),
                )
        ]
  ]

  -- The rounds of the queue at these times.
  abbrev pub rounds : List ℕ → WorkerSim Rand64 → WorkerSim Rand64
  rounds [] sim = sim
  rounds (t ∷ ts) sim = rounds ts (add_due t sim)

  abbrev pub Added : WorkerSim Rand64 → Queued → Type 0
  Added sim q = is_some (HashMap.get q.addr sim.workers) ≡ true

  -- A round at a time at which everything is due.
  add_due_last :
      (t : ℕ) (sim : WorkerSim Rand64) (xs : List Queued) (q : Queued)
      → pop sim.worker_add_queue ≡ some (xs, q)
      → q.delay < t
      → add_due t sim
        ≡ record sim { workers = HashMap.insert q.addr q.worker sim.workers; worker_add_queue = xs }
  unfolding add_due add_worker
  add_due_last t sim xs q p lt = rw (add_due, p, lt→ltb q.delay t lt)

  insert-Added :
      (sim : WorkerSim Rand64) (q x : Queued)
      → Added sim x
      → is_some (HashMap.get x.addr (HashMap.insert q.addr q.worker sim.workers)) ≡ true
  insert-Added sim q x h = elim (Bool-cases (addr_eq q.addr x.addr)) [
    | inl same ↦ rw (get-insert q.addr x.addr q.worker sim.workers, same)
    | inr other ↦ rw (get-insert q.addr x.addr q.worker sim.workers, other) h
  ]

  add_due-Added :
      (t : ℕ) (sim : WorkerSim Rand64) (x : Queued) → Added sim x → Added (add_due t sim) x
  unfolding add_due add_worker
  add_due-Added t sim x h = elim (pop-cases sim.worker_add_queue) [
    | inl (e, p) ↦ rw (add_due, p) h
    | inr (xs, q, e, p) ↦ elim (Bool-cases (ltb q.delay t)) [
      | inl due ↦ rw (add_due, p, due) (insert-Added sim q x h)
      | inr early ↦ rw (add_due, p, early) h
    ]
  ]

  rounds-keeps :
      (ts : List ℕ) (sim : WorkerSim Rand64) (x : Queued) → Added sim x → Added (rounds ts sim) x
  rounds-keeps [] sim x h = h
  rounds-keeps (t ∷ ts) sim x h = rounds-keeps ts (add_due t sim) x (add_due-Added t sim x h)

  add_due-none :
      (t : ℕ) (sim : WorkerSim Rand64) → pop sim.worker_add_queue ≡ none → add_due t sim ≡ sim
  unfolding add_due
  add_due-none t sim p = rw (add_due, p)

  insert_self-Added :
      (sim : WorkerSim Rand64) (q : Queued)
      → is_some (HashMap.get q.addr (HashMap.insert q.addr q.worker sim.workers)) ≡ true
  insert_self-Added sim q =
      rw (get-insert q.addr q.addr q.worker sim.workers, (addr_eq_iff q.addr q.addr).1 refl)

  -- As many rounds as there are workers that wait, each at a time after all of their delays, empty the
  -- queue, and there is then a worker at the address of each of them.
  pub rounds-Added :
      (ts : List ℕ) (sim : WorkerSim Rand64)
      → length sim.worker_add_queue ≤ length ts
      → AllDue ts sim.worker_add_queue
      → ((rounds ts sim).worker_add_queue ≡ []) × All (Added (rounds ts sim)) sim.worker_add_queue
  rounds-Added [] sim h due = elim (pop-cases sim.worker_add_queue) [
    | inl (e, p) ↦ (e, subst (All (Added sim)) (sym e) tt)
    | inr (xs, q, e, p) ↦ absurd (omega (arith, ap length e, length-append xs (q ∷ [])))
  ]
  rounds-Added (t ∷ ts) sim h due = elim (pop-cases sim.worker_add_queue) [
    | inl (e, p) ↦
        let (empty, added) = rounds-Added ts sim (omega (arith, ap length e)) due.1 in
        subst
          (λ s.
            ((rounds ts s).worker_add_queue ≡ []) × All (Added (rounds ts s)) sim.worker_add_queue)
          (sym (add_due-none t sim p)) (empty, added)
    | inr (xs, q, e, p) ↦
        let next : WorkerSim Rand64 = record sim {
          workers = HashMap.insert q.addr q.worker sim.workers;
          worker_add_queue = xs;
        } in
        let shorter : AllDue ts xs =
          All-map ts
            (λ u k.
              (All-split (λ x. x.delay < u) xs (q ∷ []) (subst (All (λ x. x.delay < u)) e k)).0)
            due.1 in
        let now =
          All-split (λ x. x.delay < t) xs (q ∷ []) (subst (All (λ x. x.delay < t)) e due.0) in
        let (empty, added) =
          rounds-Added ts next (omega (arith, ap length e, length-append xs (q ∷ []))) shorter in
        let last : Added (rounds ts next) q = rounds-keeps ts next q (insert_self-Added sim q) in
        subst
          (λ s.
            ((rounds ts s).worker_add_queue ≡ []) × All (Added (rounds ts s)) sim.worker_add_queue)
          (sym (add_due_last t sim xs q p now.1.0))
          (
            empty,
            subst (All (Added (rounds ts next))) (sym e)
                (All-append (Added (rounds ts next)) xs (q ∷ []) added (last, tt)),
          )
  ]
