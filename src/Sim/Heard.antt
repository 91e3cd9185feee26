-- ===== src/Sim/Heard.antt =====
-- src/worker.rs: the messages by which the worker at the bootstrap address comes to hear of another.
use mathlib.Core.List.Memᴰ
use mathlib.Core.List.Memᴰ.{Memᴰ}
use world_dat.Base.{◌≡◌, sym, ◌∙◌, some, List, inl, inr, ◌⊎◌, Bool-cases, subst}
use world_dat.HashMap.{IterationOrder}
use world_dat.PeerMap.Invariant.{Entry}
use world_dat.Sim.Carry.{with_mail}
use world_dat.Sim.Sound.{Mail, Sound, Mail-IsMessage, Served, idle, serves}
use world_dat.Sim.World.{rest}
use world_dat.Types.{
  PeerId, SocketAddr, Message, ping, pong, find_peer, find_peer_response_peer_found,
  find_peer_response_peer_not_found, id_eq, id_eq_iff,
}
use world_dat.Worker.{WorkerState, WorkerMessage, incoming, Turn}
use world_dat.Worker.Handle.{knows, outbox, learned, Answers}
use world_dat.Worker.Queue.{inbox}

abbrev pub Knows : WorkerState → PeerId → Type 0
Knows s q = (x : SocketAddr) × (knows s q ≡ some x)

module _ (owner : SocketAddr → PeerId) (boot : SocketAddr) where
  -- The worker at `a` has yet to answer its introduction, or the answer has yet to be collected.
  abbrev pub Announces : SocketAddr → WorkerState → Type 0
  Announces a s =
      Memᴰ (incoming boot (ping (owner a))) (inbox s) ⊎ Memᴰ (boot, pong (owner a)) (outbox s)

  -- The answer of the worker at `a` waits in this inbox, or its id is known.
  abbrev pub Hears : SocketAddr → WorkerState → Type 0
  Hears a b = Memᴰ (incoming a (pong (owner a))) (inbox b) ⊎ Knows b (owner a)

  module _ (entries : IterationOrder Entry) (a : SocketAddr) {s : WorkerState} where
    answers_ping :
        {src : SocketAddr} (k : Sound owner boot a s) (msg : Message)
        (m : Mail owner boot src a msg) (out : List (SocketAddr × Message))
        → incoming boot (ping (owner a)) ≡ incoming src msg
        → Answers entries k.valid src msg (Mail-IsMessage owner boot src a msg m) out
        → Memᴰ (boot, pong (owner a)) out
    answers_ping {src} k (ping p) m out e h =
        let to : boot ≡ src = cc in
        let mine : owner a ≡ s.peer_id = sym k.own in
        subst (Memᴰ (boot, pong (owner a))) (sym h) (Memᴰ.head (cc (to, mine)))
    answers_ping k (pong p) m out e h = absurd (cc e)
    answers_ping k (find_peer p) m out e h = absurd (cc e)
    answers_ping k (find_peer_response_peer_found p x) m out e h = absurd (cc e)
    answers_ping k (find_peer_response_peer_not_found p l) m out e h = absurd (cc e)

  pub Announces-turn :
      (entries : IterationOrder Entry) (a : SocketAddr) {s : WorkerState} {t : Turn}
      → Served owner boot entries a s t
      → Announces a s
      → Announces a (rest t)
  Announces-turn entries a (idle e how) h = subst (λ t. Announces a (rest t)) (sym how) h
  Announces-turn entries a {s} (serves src msg q s' e m k handled how) h =
      let now : Announces a s' = elim h [
        | inl waits ↦
            elim (Memᴰ.cases_cons (subst (Memᴰ (incoming boot (ping (owner a)))) e waits)) [
              | inl first ↦ inr (
                  subst (Memᴰ (boot, pong (owner a))) (sym handled.sends) (
                    Memᴰ.append_right (outbox s)
                      (answers_ping entries a k msg m handled.out first handled.answers)))
              | inr later ↦ inl (
                  subst (λ c. Memᴰ (incoming boot (ping (owner a))) c.queue)
                    (sym handled.same_inbox) later)
            ]
        | inr sent ↦ inr (
            subst (Memᴰ (boot, pong (owner a))) (sym handled.sends)
              (Memᴰ.append_left handled.out sent))
      ] in
      subst (λ t. Announces a (rest t)) (sym how) now

  -- What is known stays known.
  learned_known :
      (s : WorkerState) (src : SocketAddr) (msg : Message) (p : PeerId)
      → Knows s p
      → (x : SocketAddr) × (learned s src msg p ≡ some x)
  learned_known s src (ping q) p k = k
  learned_known s src (pong q) p k = elim (Bool-cases (id_eq q p)) [
    | inl same ↦ (src, rw same)
    | inr other ↦ (k.0, rw other k.1)
  ]
  learned_known s src (find_peer q) p k = k
  learned_known s src (find_peer_response_peer_found q x) p k = k
  learned_known s src (find_peer_response_peer_not_found q l) p k = k

  learned_pong :
      (a : SocketAddr) (s : WorkerState) (src : SocketAddr) (msg : Message) (p : PeerId)
      → incoming a (pong p) ≡ incoming src msg
      → (x : SocketAddr) × (learned s src msg p ≡ some x)
  learned_pong a s src (pong q) p e = let same : q ≡ p = cc in (src, rw ((id_eq_iff q p).1 same))
  learned_pong a s src (ping q) p e = absurd (cc e)
  learned_pong a s src (find_peer q) p e = absurd (cc e)
  learned_pong a s src (find_peer_response_peer_found q x) p e = absurd (cc e)
  learned_pong a s src (find_peer_response_peer_not_found q l) p e = absurd (cc e)

  pub Hears-turn :
      (entries : IterationOrder Entry) (a : SocketAddr) {b : WorkerState} {t : Turn}
      → Served owner boot entries boot b t
      → Hears a b
      → Hears a (rest t)
  Hears-turn entries a (idle e how) h = subst (λ t. Hears a (rest t)) (sym how) h
  Hears-turn entries a {b} (serves src msg q b' e m k handled how) h =
      let now : Hears a b' = elim h [
        | inl waits ↦ elim (Memᴰ.cases_cons (subst (Memᴰ (incoming a (pong (owner a)))) e waits)) [
          | inl first ↦
              let (x, l) = learned_pong a b src msg (owner a) first in
              inr (x, handled.learns (owner a) ∙ l)
          | inr later ↦ inl (
              subst (λ c. Memᴰ (incoming a (pong (owner a))) c.queue) (sym handled.same_inbox)
                later)
        ]
        | inr known ↦
            let (x, l) = learned_known b src msg (owner a) known in
            inr (x, handled.learns (owner a) ∙ l)
      ] in
      subst (λ t. Hears a (rest t)) (sym how) now

  -- More mail takes nothing away.
  pub Announces-mail :
      (a : SocketAddr) (s : WorkerState) (q : List WorkerMessage)
      → Announces a s
      → Announces a (with_mail s q)
  Announces-mail a s q (inl waits) = inl (Memᴰ.append_left q waits)
  Announces-mail a s q (inr sent) = inr sent

  pub Hears-mail :
      (a : SocketAddr) (b : WorkerState) (q : List WorkerMessage)
      → Hears a b
      → Hears a (with_mail b q)
  Hears-mail a b q (inl waits) = inl (Memᴰ.append_left q waits)
  Hears-mail a b q (inr known) = inr known
