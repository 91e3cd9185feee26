-- ===== src/Sim/Meeting.antt =====
-- src/bin/sim.rs: one action on a map that has a worker at the bootstrap address.
use mathlib.Core.List.Memᴰ
use mathlib.Core.List.Memᴰ.{Memᴰ}
use world_dat.Base.{
  ◌≡◌, sym, ap, ◌∙◌, some, some_inj, List, [], ◌∷◌, ◌++◌, append-nil, inl, inr, Bool-cases, subst,
}
use world_dat.HashMap
use world_dat.HashMap.{IterationOrder}
use world_dat.PeerMap.Invariant.{Entry}
use world_dat.Sim.{Queued, Parcel}
use world_dat.Sim.FirstOut.{Waits}
use world_dat.Sim.Heard.{Hears, Announces-turn, Hears-turn}
use world_dat.Sim.Progress.{Progress, announces, carried, heard, Formed, insert-Formed}
use world_dat.Sim.Sound.{Served}
use world_dat.Sim.Steps.{holding}
use world_dat.Sim.World.{World, rest}
use world_dat.Types.{PeerId, SocketAddr, socket_addr_eq, addr_eq, addr_eq_iff, Message, pong}
use world_dat.Worker.{WorkerState, Turn}
use world_dat.Worker.Handle.{outbox}

module _ (owner : SocketAddr → PeerId) (boot : SocketAddr) where
  -- No message is added.
  unchanged :
      (ws : List (SocketAddr × WorkerState)) (ms : List Parcel)
      → Formed owner boot ws (ms ++ [])
      → Formed owner boot ws ms
  unchanged ws ms f = subst (Formed owner boot ws) (append-nil ms) f

  -- The worker at `a` is the one at the bootstrap address.
  booter_here :
      (ws : List (SocketAddr × WorkerState)) (ms : List Parcel) (a : SocketAddr) (s : WorkerState)
      (f : Formed owner boot ws ms)
      → HashMap.get a ws ≡ some s
      → a ≡ boot
      → f.booter ≡ s
  booter_here ws ms a s f here e =
      some_inj (sym f.at_boot ∙ ap (λ x. HashMap.get x ws) (sym e) ∙ here)

  module _ {Rand64 : Type 0} where
    pub first-Formed :
        (w : World Rand64) (q : Queued)
        → w.sim.workers ≡ []
        → q.addr ≡ boot
        → Formed owner boot (HashMap.insert q.addr q.worker w.sim.workers) w.messages
    unfolding HashMap.get HashMap.insert
    first-Formed w q nobody at_boot =
        let now : HashMap.insert q.addr q.worker w.sim.workers ≡ (q.addr, q.worker) ∷ [] =
          rw nobody in
        subst (λ ws. Formed owner boot ws w.messages) (sym now)
          (record {
            booter = q.worker;
            at_boot = rw ((addr_eq_iff q.addr boot).1 at_boot);
            others = λ a s e ne. elim (Bool-cases (addr_eq q.addr a)) [
              | inl same ↦ absurd (ne (sym ((addr_eq_iff q.addr a).0 same) ∙ at_boot))
              | inr other ↦ absurd (cc (rw other at e))
            ];
          })

    pub added-Formed :
        (w : World Rand64) (q : Queued)
        → Formed owner boot w.sim.workers w.messages
        → Waits owner boot q
        → Formed owner boot (HashMap.insert q.addr q.worker w.sim.workers) w.messages
    added-Formed w q f mine = unchanged (HashMap.insert q.addr q.worker w.sim.workers) w.messages (
        insert-Formed owner boot w.sim.workers w.messages [] q.addr q.worker f
          (λ e. absurd (mine.0 e)) (λ ne. announces mine.1))

    pub collected-Formed :
        (w : World Rand64) (a : SocketAddr) (s : WorkerState) (dst : SocketAddr) (msg : Message)
        (q : List (SocketAddr × Message))
        → outbox s ≡ (dst, msg) ∷ q
        → HashMap.get a w.sim.workers ≡ some s
        → Formed owner boot w.sim.workers w.messages
        → Formed owner boot
            (HashMap.insert a (holding s q) w.sim.workers)
            (w.messages ++ (a, dst, msg) ∷ [])
    collected-Formed w a s dst msg q e here f =
        insert-Formed owner boot w.sim.workers w.messages ((a, dst, msg) ∷ []) a (holding s q) f
          (λ at_boot x h.
            subst (Hears owner boot x) (booter_here w.sim.workers w.messages a s f here at_boot) h)
          (λ ne. elim (f.others a s here ne) [
            | announces (inl waits) ↦ announces (inl waits)
            | announces (inr sent) ↦
                elim (Memᴰ.cases_cons (subst (Memᴰ (boot, pong (owner a))) e sent)) [
                  | inl first ↦
                      carried
                        (Memᴰ.append_right w.messages (Memᴰ.head (ap (λ m. (a, m.0, m.1)) first)))
                  | inr later ↦ announces (inr later)
                ]
            | carried h ↦ carried (Memᴰ.append_left ((a, dst, msg) ∷ []) h)
            | heard h ↦ heard h
          ])

    pub turned-Formed :
        (entries : IterationOrder Entry) (w : World Rand64) (a : SocketAddr) (s : WorkerState)
        (t : Turn)
        → HashMap.get a w.sim.workers ≡ some s
        → Served owner boot entries a s t
        → Formed owner boot w.sim.workers w.messages
        → Formed owner boot (HashMap.insert a (rest t) w.sim.workers) w.messages
    turned-Formed entries w a s t here served f =
        unchanged (HashMap.insert a (rest t) w.sim.workers) w.messages (
          insert-Formed owner boot w.sim.workers w.messages [] a (rest t) f
            (λ at_boot x h.
              Hears-turn owner boot entries x
                (subst (λ y. Served owner boot entries y s t) at_boot served)
                (subst (Hears owner boot x)
                  (booter_here w.sim.workers w.messages a s f here at_boot) h))
            (λ ne.
              let p = f.others a s here ne in
              let same : w.messages ++ [] ≡ w.messages = append-nil w.messages in
              subst (λ ms. Progress owner boot f.booter ms a (rest t)) (sym same)
                (elim p [
                  | announces h ↦ announces (Announces-turn owner boot entries a served h)
                  | carried h ↦ carried h
                  | heard h ↦ heard h
                ])))
