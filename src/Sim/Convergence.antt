-- ===== src/Sim/Convergence.antt =====
-- src/bin/sim.rs: the network of workers when all messages have been handled.
use mathlib.Core.List.Memᴰ
use world_dat.Base.{
  ℕ, ◌≡◌, ◌≢◌, sym, some, List, [], ◌∷◌, All, ok, Returns-value, inl, inr, Bool-cases, subst,
}
use world_dat.HashMap
use world_dat.HashMap.{IterationOrder}
use world_dat.Hash.{IsHash}
use world_dat.PeerMap.Invariant.{Entry}
use world_dat.Sim.{WorkerSim, new, set_bootstrap}
use world_dat.Sim.Heard.{Knows}
use world_dat.Sim.Jobs.{IsLater, add_new_workers-jobs, begin-Tracked}
use world_dat.Sim.Network.{setup}
use world_dat.Sim.Progress.{announces, carried, heard, Formed}
use world_dat.Sim.Safety.{IsSound, Reach-IsSound}
use world_dat.Sim.Setup.{setup-Ready, Owns, begin-IsSound}
use world_dat.Sim.Tracked.{Tracked, before, formed, Step-Tracked}
use world_dat.Sim.World.{World, Reach, here, next, begin}
use world_dat.Types.{PeerId, SocketAddr, socket_addr_eq, addr_eq, addr_eq_iff, Randomness}
use world_dat.Worker.{WorkerState}
use world_dat.Worker.Handle.{knows, outbox}
use world_dat.Worker.Queue.{inbox}

-- No message is left, in a channel of an added worker or on its way.
pub record Quiet {Rand64 : Type 0} (w : World Rand64) : Type 0 where
  pub carried_all : w.messages ≡ []
  pub handled_all :
      (a : SocketAddr) (s : WorkerState)
      → HashMap.get a w.sim.workers ≡ some s
      → (inbox s ≡ []) × (outbox s ≡ [])

-- The worker at the bootstrap address knows the peer, under an address whose worker has its id.
pub record Met {Rand64 : Type 0} (owner : SocketAddr → PeerId) (boot : SocketAddr)
    (w : World Rand64) (p : PeerId) : Type 0 where
  pub booter : WorkerState
  pub at_boot : HashMap.get boot w.sim.workers ≡ some booter
  pub under : SocketAddr
  pub knows_it : knows booter p ≡ some under
  pub is_there : owner under ≡ p

nothing_in {ℓ} : {A : Type ℓ} {x : A} {xs : List A} → xs ≡ [] → Memᴰ.Memᴰ x xs → ⊥
nothing_in {x} e h = Memᴰ.not-nil (subst (Memᴰ.Memᴰ x) e h)

module _ (owner : SocketAddr → PeerId) (boot : SocketAddr) {Rand64 : Type 0} where
  pub Reach-Tracked :
      (order : IterationOrder (SocketAddr × WorkerState)) (entries : IterationOrder Entry)
      {w₀ w : World Rand64}
      → IsSound owner boot w₀
      → Tracked owner boot w₀
      → Reach order entries w₀ w
      → Tracked owner boot w
  Reach-Tracked order entries i t here = t
  Reach-Tracked order entries i t (next r st) =
      Step-Tracked owner boot order entries (Reach-IsSound owner boot order entries i r) st
        (Reach-Tracked order entries i t r)

  -- In a quiet world nothing is left but to have been heard of.
  Quiet-Knows :
      {w : World Rand64} (a : SocketAddr) (s : WorkerState)
      → Quiet w
      → IsSound owner boot w
      → (f : Formed owner boot w.sim.workers w.messages) → HashMap.get a w.sim.workers ≡ some s
      → Knows f.booter (owner a)
  Quiet-Knows a s q i f at_a = elim (Bool-cases (addr_eq a boot)) [
    | inl same ↦
        let there : a ≡ boot = (addr_eq_iff a boot).0 same in
        subst (λ x. Knows f.booter (owner x)) (sym there) (i.workers boot f.booter f.at_boot).itself
    | inr other ↦
        let apart : a ≢ boot = λ e. absurd (cc (other, (addr_eq_iff a boot).1 e)) in
        elim (f.others a s at_a apart) [
          | announces (inl waits) ↦ absurd (nothing_in (q.handled_all a s at_a).0 waits)
          | announces (inr sent) ↦ absurd (nothing_in (q.handled_all a s at_a).1 sent)
          | carried h ↦ absurd (nothing_in q.carried_all h)
          | heard (inl waits) ↦ absurd (nothing_in (q.handled_all boot f.booter f.at_boot).0 waits)
          | heard (inr known) ↦ known
        ]
  ]

  Quiet-Met :
      {w : World Rand64} (a : SocketAddr) (s : WorkerState)
      → Quiet w
      → IsSound owner boot w
      → Tracked owner boot w
      → HashMap.get a w.sim.workers ≡ some s
      → Met owner boot w s.peer_id
  unfolding HashMap.get
  Quiet-Met a s q i (before nobody e f) at_a = absurd (cc (rw nobody at at_a))
  Quiet-Met {w} a s q i (formed f h) at_a =
      let (x, known) = Quiet-Knows a s q i f at_a in
      let met : Met owner boot w (owner a) = record {
        booter = f.booter;
        at_boot = f.at_boot;
        under = x;
        knows_it = known;
        is_there = sym ((i.workers boot f.booter f.at_boot).honest (owner a) x known);
      } in
      subst (Met owner boot w) (sym (i.workers a s at_a).own) met

module _ (r : Randomness) (blake2s : List ℕ → List ℕ)
    (hash : (seed : List ℕ) → IsHash (record { bytes = blake2s seed })) (boot : SocketAddr)
    (delay : ℕ) (jobs : List (SocketAddr × ℕ)) (later : All (IsLater boot delay) jobs)
    {sim : WorkerSim r.Rand64} (made : setup r blake2s hash boot ((boot, delay) ∷ jobs) ≡ ok sim)
    (owner : SocketAddr → PeerId) (owns : Owns owner sim)
    (order : IterationOrder (SocketAddr × WorkerState)) (entries : IterationOrder Entry)
    {w : World r.Rand64} (reach : Reach order entries (begin sim) w) where
  -- The simulator has been set up with a worker at the bootstrap address whose delay is shorter than
  -- those of all others, which are at other addresses. In every world that `run` then reaches,
  -- whatever the order of the threads and the time that passes, once no message is left in a
  -- channel of an added worker or on its way, each added worker is known to the one at the bootstrap
  -- address, which has been added, under an address whose worker has this id. The digest gives 32
  -- bytes and `owner` maps the workers' addresses to their ids.
  pub reached-Met :
      Quiet w
      → (a : SocketAddr) (s : WorkerState) → HashMap.get a w.sim.workers ≡ some s
      → Met owner boot w s.peer_id
  unfolding new set_bootstrap
  reached-Met q a s at_a =
      let ready = Returns-value made (setup-Ready r blake2s hash boot ((boot, delay) ∷ jobs)) in
      let sound = begin-IsSound owner boot sim ready owns in
      let tracked =
        begin-Tracked owner boot delay jobs sim ready owns
          (add_new_workers-jobs r blake2s (set_bootstrap r blake2s (new r blake2s) boot)
            ((boot, delay) ∷ jobs) made)
          later in
      Quiet-Met owner boot a s q (Reach-IsSound owner boot order entries sound reach)
        (Reach-Tracked owner boot order entries sound tracked reach) at_a
