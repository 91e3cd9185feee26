-- ===== src/Sim/Rest.antt =====
-- src/bin/sim.rs: from any world to one without messages.
use mathlib.Core.List.Permᴰ
use world_dat.Base.{
  ℕ, zero, suc, ◌<◌, ◌≡◌, sym, ap, ◌∙◌, some, List, [], ◌∷◌, map, All, inl, inr, ◌⊎◌, Option-cases,
  ok, arith, some_inj,
}
use world_dat.HashMap
use world_dat.HashMap.{IterationOrder}
use world_dat.HashMap.Laws.{get-key, All-Permᴰ}
use world_dat.PeerMap.Invariant.{Entry}
use world_dat.Sim.Convergence.{Quiet}
use world_dat.Sim.Safety.{IsSound, Reach-IsSound}
use world_dat.Sim.Settling.{
  add_due-cases, NobodyDue, list-cases, in_phase, Reach-trans, Lower, main-Lower, phase-IsSound,
  thread-Lower, Collected, sweep, deliver_all, finish_round,
}
use world_dat.Sim.Traffic.{world_load}
use world_dat.Sim.World.{World, adding, collecting, main_step, main, Reach, here, next}
use world_dat.Types.{PeerId, SocketAddr, socket_addr_eq}
use world_dat.Worker.{WorkerState}
use world_dat.Worker.Queue.{inbox}

-- What holds of the images.
pub All-unmap {ℓ κ μ} :
    {A : Type ℓ} {B : Type μ} (P : B → Type κ) (f : A → B) (xs : List A)
    → All P (map f xs)
    → All (λ x. P (f x)) xs
All-unmap P f [] h = tt
All-unmap P f (x ∷ xs) h = (h.0, All-unmap P f xs h.1)

-- A world at rest: no message is left, and at the time nobody is due.
pub record Resting {Rand64 : Type 0} (time : ℕ) (w : World Rand64) : Type 0 where
  pub quiet : Quiet w
  pub nobody : NobodyDue time w.sim.worker_add_queue

module _ {Rand64 : Type 0} (order : IterationOrder (SocketAddr × WorkerState))
    (entries : IterationOrder Entry) (time : ℕ) (owner : SocketAddr → PeerId)
    (boot : SocketAddr) where
  -- A round finds nothing, or the load becomes smaller.
  round :
      (w : World Rand64)
      → IsSound owner boot w
      → Lower order entries time (in_phase w adding)
        ⊎ (((a : SocketAddr) → Collected order entries time owner boot w a)
            × (w.messages ≡ [])
            × NobodyDue time w.sim.worker_add_queue)
  unfolding main_step
  round w i = elim (add_due-cases time w.sim) [
    | inl somebody ↦ inl (
        main-Lower order entries time owner boot (in_phase w adding)
          (phase-IsSound order entries time owner boot w adding i) somebody)
    | inr (same, nobody) ↦
        let keys : List SocketAddr = map (λ e. e.0) (order.arrange w.sim.workers) in
        let begun : main_step order time (in_phase w adding) adding
            ≡ ok (in_phase w (collecting keys)) =
          ap
            (λ sim. ok (record w {
              sim = sim;
              phase = collecting (map (λ e. e.0) (order.arrange sim.workers));
            }))
            same in
        let first : Reach order entries (in_phase w adding) (in_phase w (collecting keys)) =
          next here (main time begun) in
        elim (sweep order entries time owner boot keys w i) [
          | inl (w', r, less) ↦ inl (w', Reach-trans first r, less)
          | inr (r, all) ↦ elim (deliver_all order entries time owner boot w i) [
            | inl (w', q, less) ↦ inl (w', Reach-trans first (Reach-trans r q), less)
            | inr (q, empty) ↦ inr (
              λ a s e.
                  get-key (Collected order entries time owner boot w) a w.sim.workers
                    (All-Permᴰ (λ x. Collected order entries time owner boot w x.0)
                      (Permᴰ.symm (order.permutes w.sim.workers))
                      (All-unmap (Collected order entries time owner boot w) (λ x. x.0)
                        (order.arrange w.sim.workers) all))
                    e s e,
              empty,
              nobody,
            )
          ]
        ]
  ]

  -- Nothing is left to be handled at the address.
  abbrev Handled : World Rand64 → SocketAddr → Type 0
  Handled w a = (s : WorkerState) → HashMap.get a w.sim.workers ≡ some s → inbox s ≡ []

  idle :
      (w : World Rand64) (es : List (SocketAddr × WorkerState))
      → IsSound owner boot w
      → Lower order entries time w ⊎ All (λ e. Handled w e.0) es
  idle w [] i = inr tt
  idle w ((a, x) ∷ es) i = elim (idle w es i) [
    | inl lower ↦ inl lower
    | inr all ↦ elim (Option-cases (HashMap.get a w.sim.workers)) [
      | inl e ↦ inr ((λ s f. absurd (cc (e, f))), all)
      | inr (s, e) ↦ elim (list-cases (inbox s)) [
        | inl empty ↦ inr ((λ t f. ap inbox (some_inj (sym f ∙ e)) ∙ empty), all)
        | inr waits ↦ inl (thread-Lower order entries time owner boot w a s i e waits)
      ]
    ]
  ]

  -- From any sound world, the load becomes smaller or the world comes to rest.
  progress :
      (w : World Rand64)
      → IsSound owner boot w
      → Lower order entries time w
        ⊎ ((w' : World Rand64) × Reach order entries w w' × Resting time w')
  progress w i =
      let i' : IsSound owner boot (in_phase w adding) = record {
        workers = i.workers;
        waits = i.waits;
        parcels = i.parcels;
      } in
      elim (finish_round order entries time owner boot w w.phase i) [
        | inl lower ↦ inl lower
        | inr r ↦ elim (round w i) [
          | inl (w', q, less) ↦ inl (w', Reach-trans r q, less)
          | inr (collected, empty, nobody) ↦ elim (idle (in_phase w adding) w.sim.workers i') [
            | inl (w', p, less) ↦ inl (w', Reach-trans r p, less)
            | inr all ↦ inr (
              in_phase w adding,
              r,
              record {
                quiet = record {
                  carried_all = empty;
                  handled_all = λ a s e. (
                    get-key (Handled (in_phase w adding)) a w.sim.workers all e s e,
                    collected a s e,
                  );
                };
                nobody = nobody;
              },
            )
          ]
        ]
      ]

  pub settles :
      (n : ℕ) (w : World Rand64)
      → IsSound owner boot w
      → world_load w < n
      → (w' : World Rand64) × Reach order entries w w' × Resting time w'
  settles zero w i h = absurd (omega arith)
  settles (suc n) w i h = elim (progress w i) [
    | inr rest ↦ rest
    | inl (w₁, r, less) ↦
        let (w', q, resting) =
          settles n w₁ (Reach-IsSound owner boot order entries i r) (omega (arith, less)) in
        (w', Reach-trans r q, resting)
  ]
