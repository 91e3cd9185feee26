-- ===== src/Sim/Network.antt =====
-- src/bin/sim.rs: the network of workers that the simulator runs, from its start on.
use world_dat.Base.{
  ℕ, ◌≡◌, ◌≢◌, sym, ap, ◌∙◌, none, some, List, Run, ok, Returns, Returns-value, if◌then◌else◌,
}
use world_dat.HashMap
use world_dat.HashMap.{IterationOrder}
use world_dat.Hash.{IsHash}
use world_dat.PeerMap.Invariant.{Entry}
use world_dat.Sim.{WorkerSim, new, set_bootstrap, add_new_workers}
use world_dat.Sim.Safety.{IsSound, main_step-IsSound, Reach-IsSound}
use world_dat.Sim.Setup.{setup-Ready, Owns, begin-IsSound}
use world_dat.Sim.Sound.{Sound, turn-Sound}
use world_dat.Sim.World.{World, Reach, begin, main_step, rest}
use world_dat.Types.{PeerId, SocketAddr, socket_addr_eq, id_eq, Randomness}
use world_dat.Worker.{WorkerState, Turn, again, ended, waiting, turn}
use world_dat.Worker.Handle.{knows}

-- The thread goes on after the turn.
abbrev pub GoesOn : Turn → Type 0
GoesOn (again s) = Unit
GoesOn (waiting s) = Unit
GoesOn (ended s) = ⊥

GoesOn-Sound :
    (owner : SocketAddr → PeerId) (boot a : SocketAddr) (t : Turn)
    → Sound owner boot a (rest t)
    → GoesOn t
GoesOn-Sound owner boot a (again s) k = tt
GoesOn-Sound owner boot a (waiting s) k = tt
GoesOn-Sound owner boot a (ended s) k = absurd (cc k.runs)

module _ (r : Randomness) (blake2s : List ℕ → List ℕ)
    (hash : (seed : List ℕ) → IsHash (record { bytes = blake2s seed })) where
  -- `heckin_simulator` up to `run`, for any addresses and delays.
  abbrev pub setup : SocketAddr → List (SocketAddr × ℕ) → Run (WorkerSim r.Rand64)
  setup boot jobs = add_new_workers r blake2s (set_bootstrap r blake2s (new r blake2s) boot) jobs

  module _ (boot : SocketAddr) (jobs : List (SocketAddr × ℕ)) {sim : WorkerSim r.Rand64}
      (made : setup boot jobs ≡ ok sim) (owner : SocketAddr → PeerId) (owns : Owns owner sim)
      (order : IterationOrder (SocketAddr × WorkerState)) (entries : IterationOrder Entry)
      {w : World r.Rand64} (reach : Reach order entries (begin sim) w) where
    reached-IsSound : IsSound owner boot w
    reached-IsSound =
        Reach-IsSound owner boot order entries
          (begin-IsSound owner boot sim (Returns-value made (setup-Ready r blake2s hash boot jobs))
            owns)
          reach

    -- In every world that `run` reaches from the simulator that the setup returns, whatever the order of
    -- the threads and the time that passes, the simulator's next action panics nowhere, and a turn of
    -- any added worker panics nowhere and does not end its thread, if the digest gives 32 bytes and
    -- `owner` maps the address of each worker to its id.
    pub reached-Runs :
        ((elapsed : ℕ) → Returns (main_step order elapsed w w.phase) (IsSound owner boot))
        × ((a : SocketAddr) (s : WorkerState)
            → HashMap.get a w.sim.workers ≡ some s
            → Returns (turn entries s) GoesOn)
    reached-Runs = (
      λ elapsed. main_step-IsSound owner boot order elapsed w w.phase reached-IsSound,
      λ a s e.
          let (t, run, k) = turn-Sound owner boot entries a (reached-IsSound.workers a s e) in
          (t, run, GoesOn-Sound owner boot a t k),
    )

    -- In every world that `run` reaches from the simulator that the setup returns, an added worker at the
    -- address `a` has the id that `owner` maps `a` to, and if it knows a peer under an address, then that
    -- peer is the one at that address, for every map `owner` from the workers' addresses to their ids and
    -- a digest that gives 32 bytes.
    pub reached-honest :
        (a : SocketAddr) (s : WorkerState) (q : PeerId) (b : SocketAddr)
        → HashMap.get a w.sim.workers ≡ some s
        → knows s q ≡ some b
        → (s.peer_id ≡ owner a) × (q ≡ owner b)
    reached-honest a s q b e k = let i = reached-IsSound.workers a s e in (i.own, i.honest q b k)

    -- In every world that `run` reaches from the simulator that the setup returns, an added worker that is
    -- not at the bootstrap address knows exactly itself, under its own address: the network never
    -- forms. The digest gives 32 bytes and `owner` maps the workers' addresses to their ids.
    pub reached-alone :
        (a : SocketAddr) (s : WorkerState)
        → HashMap.get a w.sim.workers ≡ some s
        → a ≢ boot
        → (q : PeerId) → knows s q ≡ (if id_eq s.peer_id q then some a else none)
    reached-alone a s e ne q =
        let i = reached-IsSound.workers a s e in
        i.alone ne q ∙ ap (λ x. if id_eq x q then some a else none) (sym i.own)
