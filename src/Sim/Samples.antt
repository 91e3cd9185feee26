-- ===== src/Sim/Samples.antt =====
-- src/bin/sim.rs: a simulator for the tests, with a generator that counts and a digest of one byte.
use world_dat.Base.{
  ℕ, suc, ◌≡◌, ◌≢◌, ◌%◌, refl, some, none, List, [], ◌∷◌, ◌++◌, replicate, get_or, Bool, ok, panic,
  arith,
}
use mathlib.Core.List.Permᴰ
use world_dat.HashMap
use world_dat.HashMap.{IterationOrder}
use world_dat.Hash.{IsHash}
use world_dat.Hash.Xor.{xor_bytes}
use world_dat.PeerMap.Invariant.{view}
use world_dat.PeerMap.Samples.{in_order}
use world_dat.Sim.{WorkerSim, add_new_workers, new, set_bootstrap, add_due, sort_queue}
use world_dat.Sim.Network.{setup}
use world_dat.Sim.Setup.{Owns}
use world_dat.Sim.World.{
  World, adding, begin, main_step, rest, with_workers, Reach, main, thread, here, next,
}
use world_dat.Types.{PeerId, SocketAddr, socket_addr_eq, addr_eq, addr_eq_iff, id_eq, Randomness}
use world_dat.Types.Distance.{rank}
use world_dat.Types.Samples.{id_of, home, away}
use world_dat.Worker.{WorkerState, Turn, waiting, turn}
use world_dat.Worker.Handle.{knows}
use world_dat.Worker.Samples.{worker}

abbrev pub counter : Randomness
counter = record {
  Rand64 = ℕ;
  rand64 = λ seed. seed;
  rand_u64 = λ n. (n, suc n);
  bytes_of = λ values. values;
}

abbrev pub digest : List ℕ → List ℕ
digest seed = replicate 31 0 ++ get_or seed 0 0 % 256 ∷ []

pub digest-IsHash : (seed : List ℕ) → IsHash (record { bytes = digest seed })
digest-IsHash seed = record { size = refl; u8s = omega arith }

-- The bootstrap address is that of the worker that is added last.
abbrev pub jobs : List (SocketAddr × ℕ)
jobs = (home, 2000) ∷ (away, 0) ∷ []

abbrev pub sim : WorkerSim ℕ
sim = elim (setup counter digest digest-IsHash home jobs) [ ok s ↦ s | panic ↦ new counter digest ]

pub sim-run : setup counter digest digest-IsHash home jobs ≡ ok sim
unfolding add_new_workers new set_bootstrap
sim-run = refl

-- The ids of the two.
abbrev pub owner : SocketAddr → PeerId
owner a = elim (addr_eq a home) [ Bool.true ↦ id_of 0 57 | Bool.false ↦ id_of 0 89 ]

pub sim-Owns : Owns owner sim
unfolding add_new_workers new set_bootstrap addr_eq
sim-Owns = (refl, (refl, tt))

abbrev pub addresses : IterationOrder (SocketAddr × WorkerState)
addresses = record { arrange = λ xs. xs; permutes = Permᴰ.refl }

-- One round adds the worker at `away`, whose thread then takes a turn.
abbrev first : World ℕ
first = elim (main_step addresses 1 (begin sim) adding) [ ok w ↦ w | panic ↦ begin sim ]

first-run : main_step addresses 1 (begin sim) adding ≡ ok first
unfolding main_step
first-run = refl

abbrev new_worker : WorkerState
new_worker = elim (HashMap.get away first.sim.workers) [ some s ↦ s | none ↦ worker ]

new_worker-found : HashMap.get away first.sim.workers ≡ some new_worker
unfolding main_step HashMap.get add_new_workers new set_bootstrap sort_queue add_due addr_eq
new_worker-found = refl

abbrev pub turned : Turn
turned = elim (turn in_order new_worker) [ ok t ↦ t | panic ↦ waiting new_worker ]

turned-run : turn in_order new_worker ≡ ok turned
unfolding turn main_step HashMap.get add_new_workers new set_bootstrap sort_queue addr_eq id_eq
turned-run = refl

abbrev pub second : World ℕ
second = with_workers first (HashMap.insert away (rest turned) first.sim.workers)

pub second-Reach : Reach addresses in_order (begin sim) second
second-Reach =
    next (next here (main 1 first-run))
      (thread away new_worker turned new_worker-found turned-run refl)

pub turned-found : HashMap.get away second.sim.workers ≡ some (rest turned)
unfolding HashMap.get HashMap.insert main_step turn add_new_workers new set_bootstrap sort_queue
    addr_eq
turned-found = refl

pub turned-knows : knows (rest turned) (id_of 0 89) ≡ some away
unfolding view HashMap.get main_step turn add_new_workers new set_bootstrap sort_queue addr_eq rank
    id_eq xor_bytes
turned-knows = refl

pub away-ne-home : away ≢ home
unfolding addr_eq
away-ne-home e = absurd (cc ((addr_eq_iff away home).1 e))
