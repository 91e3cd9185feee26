-- ===== src/Sim/InPlay.antt =====
-- src/bin/sim.rs: the workers in the queue and in the map.
use mathlib.Core.List.Memᴰ
use mathlib.Core.List.Memᴰ.{Memᴰ}
use world_dat.Base.{
  ℕ, zero, suc, ◌<◌, ◌≡◌, refl, sym, ap, ◌∙◌, true, Option, none, some, some_inj, is_some, List, [],
  ◌∷◌, ◌++◌, map, get_elem?, set, All, inl, inr, ◌⊎◌, Bool-cases, subst,
}
use world_dat.HashMap
use world_dat.HashMap.{IterationOrder}
use world_dat.HashMap.Laws.{get-insert}
use world_dat.Sim.{Queued, Workers, WorkerSim}
use world_dat.Sim.Carry.{mailed}
use world_dat.Types.{SocketAddr, socket_addr_eq, addr_eq, addr_eq_iff}
use world_dat.Worker.{WorkerState, WorkerMessage}

abbrev pub addresses : List Queued → List SocketAddr
addresses = map (λ q. q.addr)

abbrev pub HasWorker : Workers → SocketAddr → Type 0
HasWorker ws a = is_some (HashMap.get a ws) ≡ true

-- A worker at the address waits or has been added.
abbrev pub InPlay : Workers → List Queued → SocketAddr → Type 0
InPlay ws qs a = HasWorker ws a ⊎ Memᴰ a (addresses qs)

pub insert-HasWorker :
    (b : SocketAddr) (s : WorkerState) (ws : Workers) (a : SocketAddr)
    → HasWorker ws a
    → HasWorker (HashMap.insert b s ws) a
insert-HasWorker b s ws a h = elim (Bool-cases (addr_eq b a)) [
  | inl same ↦ rw (get-insert b a s ws, same)
  | inr other ↦ rw (get-insert b a s ws, other) h
]

insert-HasWorker_self :
    (a : SocketAddr) (s : WorkerState) (ws : Workers) → HasWorker (HashMap.insert a s ws) a
insert-HasWorker_self a s ws = rw (get-insert a a s ws, (addr_eq_iff a a).1 refl)

pub mailed-is_some :
    (q : List WorkerMessage) (o : Option WorkerState) → is_some (mailed q o) ≡ is_some o
mailed-is_some q none = refl
mailed-is_some q (some s) = refl

addresses-append : (qs xs : List Queued) → addresses (qs ++ xs) ≡ addresses qs ++ addresses xs
addresses-append [] xs = refl
addresses-append (q ∷ qs) xs = ap (λ r. q.addr ∷ r) (addresses-append qs xs)

pub addresses-set :
    (qs : List Queued) (i : ℕ) (x : Queued) {q : Queued}
    → get_elem? qs i ≡ some q
    → x.addr ≡ q.addr
    → addresses (set qs i x) ≡ addresses qs
addresses-set [] i x e same = refl
addresses-set (y ∷ qs) zero x e same =
    ap (λ a. a ∷ addresses qs) (same ∙ ap (λ q. q.addr) (sym (some_inj e)))
addresses-set (y ∷ qs) (suc i) x e same = ap (λ r. y.addr ∷ r) (addresses-set qs i x e same)

-- The worker that is added moves from the queue into the map.
pub added-InPlay :
    (ws : Workers) (qs xs : List Queued) (q : Queued) (a : SocketAddr)
    → qs ≡ xs ++ q ∷ []
    → InPlay ws qs a
    → InPlay (HashMap.insert q.addr q.worker ws) xs a
added-InPlay ws qs xs q a e (inl h) = inl (insert-HasWorker q.addr q.worker ws a h)
added-InPlay ws qs xs q a e (inr m) =
    let split : addresses qs ≡ addresses xs ++ q.addr ∷ [] =
      ap addresses e ∙ addresses-append xs (q ∷ []) in
    elim (Memᴰ.append_cases (addresses xs) (subst (Memᴰ a) split m)) [
      | inl earlier ↦ inr earlier
      | inr last ↦ inl (
          subst (HasWorker (HashMap.insert q.addr q.worker ws)) (sym (Memᴰ.eq_of_singleton last))
            (insert-HasWorker_self q.addr q.worker ws))
    ]

-- All of these addresses are in play, and everybody who waits is due at the time.
pub record Placed {Rand64 : Type 0} (time : ℕ) (addrs : List SocketAddr) (sim : WorkerSim Rand64)
    : Type 0 where
  pub due : All (λ q. q.delay < time) sim.worker_add_queue
  pub play : All (InPlay sim.workers sim.worker_add_queue) addrs
