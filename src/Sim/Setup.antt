-- ===== src/Sim/Setup.antt =====
-- src/bin/sim.rs: the simulator before `run`: its workers, which wait in the queue.
use world_dat.Base.{
  ℕ, length, ◌==◌, ◌≡◌, refl, sym, ap, ◌∙◌, true, none, some, some_inj, List, [], ◌∷◌, ◌++◌, All,
  All-append, All-both, ok, ◌>>=◌, Returns, if◌then◌else◌, inl, inr, Bool-cases, subst, ltb, arith,
}
use world_dat.HashMap
use world_dat.HashMap.{IterationOrder}
use world_dat.Hash
use world_dat.Hash.{IsHash, blake2_hash_size}
use world_dat.FlatMap.Bucket.{id_eq_self}
use world_dat.Sim.{
  Queued, WorkerSim, insert_queued, sort_queue, new, set_bootstrap, add_new_worker, add_new_workers,
  new_worker,
}
use world_dat.Sim.Bootstrap.{told, told-IsValid, introduction, new_worker-told}
use world_dat.Sim.Post.{IsQueued}
use world_dat.Sim.Safety.{IsSound}
use world_dat.Sim.Sound.{Sent, Sound}
use world_dat.Sim.World.{begin}
use world_dat.Types.{
  PeerId, SocketAddr, socket_addr_eq, ping, find_peer, id_eq, id_eq_iff, Randomness,
  new_insecure_random, rand_u64s,
}
use world_dat.Types
use world_dat.Types.Distance.{IsPeerId}
use world_dat.Worker.{WorkerState}
use world_dat.Worker.Handle.{knows}
use world_dat.Worker.Start.{Starts, start-Starts}

-- A worker that waits to be added, as `add_new_worker` leaves it: it is introduced to itself.
pub record Fresh (boot : SocketAddr) (q : Queued) : Type 0 where
  pub id : PeerId
  pub good : IsPeerId id
  pub started : WorkerState
  pub starts : Starts id q.addr started
  pub is_told : q.worker ≡ told started (introduction id boot)

module _ (owner : SocketAddr → PeerId) (boot : SocketAddr) where
  told-Sound :
      {p : PeerId} {a : SocketAddr} {s : WorkerState}
      → owner a ≡ p
      → IsPeerId p
      → Starts p a s
      → Sound owner boot a (told s (introduction p boot))
  told-Sound {p} {a} {s} e good st =
      let itself : knows s p ≡ some a =
        st.knows_itself p ∙ ap (λ b. if b then some a else none) (id_eq_self p) in
      record {
        valid = told-IsValid (introduction p boot) st.valid;
        own = st.own_id ∙ sym e;
        runs = refl;
        attached = refl;
        itself = (a, ap (λ q. knows s q) e ∙ itself);
        mail = ((refl, sym e, good), ((refl, sym e, good), tt));
        sent = subst (λ c. All (Sent owner boot a) c.queue) (sym st.sender) tt;
        honest = λ q b k. elim (Bool-cases (id_eq p q)) [
          | inl same ↦
              let here : a ≡ b = some_inj (rw same at (sym (st.knows_itself q) ∙ k)) in
              sym ((id_eq_iff p q).0 same) ∙ sym e ∙ ap owner here
          | inr other ↦ absurd (cc (other, st.knows_itself q, k))
        ];
        alone = λ ne q. st.knows_itself q ∙ ap (λ x. if id_eq x q then some a else none) (sym e);
      }

  Fresh-Sound :
      (q : Queued) → owner q.addr ≡ q.worker.peer_id → Fresh boot q → IsQueued owner boot q
  Fresh-Sound q e f =
      subst (Sound owner boot q.addr) (sym f.is_told)
        (told-Sound (e ∙ ap (λ w. w.peer_id) f.is_told ∙ f.starts.own_id) f.good f.starts)

pub insert_queued-All {κ} :
    (P : Queued → Type κ) (q : Queued) (qs : List Queued)
    → P q
    → All P qs
    → All P (insert_queued q qs)
unfolding insert_queued
insert_queued-All P q [] h k = (h, tt)
insert_queued-All P q (x ∷ xs) h k = elim (Bool-cases (ltb q.delay x.delay)) [
  | inl e ↦ rw e (k.0, insert_queued-All P q xs h k.1)
  | inr e ↦ rw e (h, k)
]

pub sort_queue-All {κ} : (P : Queued → Type κ) (qs : List Queued) → All P qs → All P (sort_queue qs)
unfolding sort_queue
sort_queue-All P [] h = tt
sort_queue-All P (q ∷ qs) h = insert_queued-All P q (sort_queue qs) h.0 (sort_queue-All P qs h.1)

module _ {Rand64 : Type 0} where
  -- What the simulator is between two calls of `add_new_worker`.
  pub record Ready (boot : SocketAddr) (sim : WorkerSim Rand64) : Type 0 where
    pub nobody : sim.workers ≡ []
    pub towards : sim.bootstrap ≡ some boot
    pub fresh : All (Fresh boot) sim.worker_add_queue

  -- The ids that have been drawn, by their addresses.
  abbrev pub Owns : (SocketAddr → PeerId) → WorkerSim Rand64 → Type 0
  Owns owner sim = All (λ q. owner q.addr ≡ q.worker.peer_id) sim.worker_add_queue

  pub begin-IsSound :
      (owner : SocketAddr → PeerId) (boot : SocketAddr) (sim : WorkerSim Rand64)
      → Ready boot sim
      → Owns owner sim
      → IsSound owner boot (begin sim)
  unfolding HashMap.get
  begin-IsSound owner boot sim i o = record {
    workers =
        subst
          (λ ws.
            (a : SocketAddr) (s : WorkerState) → HashMap.get a ws ≡ some s → Sound owner boot a s)
          (sym i.nobody) (λ a s e. absurd (cc e));
    waits =
        sort_queue-All (IsQueued owner boot) sim.worker_add_queue
          (All-both sim.worker_add_queue (λ q e f. Fresh-Sound owner boot q e f) o i.fresh);
    parcels = tt;
  }

module _ (r : Randomness) (blake2s : List ℕ → List ℕ)
    (hash : (seed : List ℕ) → IsHash (record { bytes = blake2s seed })) where
  open r use {Rand64}

  new-IsPeerId : (seed : List ℕ) → Returns (Types.new blake2s seed) IsPeerId
  unfolding Types.new Hash.new Hash.copy_from_slice
  new-IsPeerId seed =
      let short : (length (blake2s seed) == blake2_hash_size) ≡ true =
        ground (arith, (hash seed).size) in
      (record { hash = record { bytes = blake2s seed } }, rw short, hash seed)

  new_insecure_random-IsPeerId :
      (rng : Rand64) → Returns (new_insecure_random r blake2s rng) (λ x. IsPeerId x.0)
  unfolding new_insecure_random
  new_insecure_random-IsPeerId rng =
      let x : List ℕ × Rand64 = rand_u64s r blake2_hash_size rng in
      let (p, run, good) = new-IsPeerId (r.bytes_of x.0) in
      ((p, x.1), ap (λ m. m >>= λ id. ok (id, x.1)) run, good)

  add_new_worker-Ready :
      (boot : SocketAddr) (sim : WorkerSim Rand64) (addr : SocketAddr) (delay : ℕ)
      → Ready boot sim
      → Returns (add_new_worker r blake2s sim addr delay) (Ready boot)
  unfolding add_new_worker
  add_new_worker-Ready boot sim addr delay i =
      let ((p, rng), drawn, good) = new_insecure_random-IsPeerId sim.rng in
      let (s, started, st) = start-Starts addr good in
      let made : new_worker p addr (some boot) ≡ ok (told s (introduction p boot)) =
        new_worker-told addr boot started st.control in
      let q : Queued = record {
        addr = addr;
        worker = told s (introduction p boot);
        delay = delay;
      } in
      (
        record sim { rng = rng; worker_add_queue = sim.worker_add_queue ++ q ∷ [] },
        rw (drawn, ◌>>=◌, i.towards, made, ◌>>=◌),
        record {
          nobody = i.nobody;
          towards = i.towards;
          fresh =
              All-append (Fresh boot) sim.worker_add_queue (q ∷ []) i.fresh
                (record { id = p; good = good; started = s; starts = st; is_told = refl }, tt);
        },
      )

  add_new_workers-Ready :
      (boot : SocketAddr) (sim : WorkerSim Rand64) (jobs : List (SocketAddr × ℕ))
      → Ready boot sim
      → Returns (add_new_workers r blake2s sim jobs) (Ready boot)
  unfolding add_new_workers
  add_new_workers-Ready boot sim [] i = (sim, refl, i)
  add_new_workers-Ready boot sim ((addr, delay) ∷ jobs) i =
      let (sim', added, i') = add_new_worker-Ready boot sim addr delay i in
      let (sim'', more, i'') = add_new_workers-Ready boot sim' jobs i' in
      (sim'', rw (added, ◌>>=◌) more, i'')

  -- If the digest gives 32 bytes, `new`, `set_bootstrap` and the calls of `add_new_worker`, for any
  -- addresses and delays, panic nowhere. No worker has been added yet, and each one that waits is one
  -- that `start` has started, with two messages in its inbox that bear the bootstrap address: a ping
  -- and a request for a peer, both with its own id.
  pub setup-Ready :
      (boot : SocketAddr) (jobs : List (SocketAddr × ℕ))
      → Returns
          (add_new_workers r blake2s (set_bootstrap r blake2s (new r blake2s) boot) jobs)
          (Ready boot)
  unfolding new set_bootstrap
  setup-Ready boot jobs =
      add_new_workers-Ready boot (set_bootstrap r blake2s (new r blake2s) boot) jobs
        (record { nobody = refl; towards = refl; fresh = tt })
