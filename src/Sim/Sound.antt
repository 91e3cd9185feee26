-- ===== src/Sim/Sound.antt =====
-- src/bin/sim.rs and src/worker.rs: what is true of a worker, and of the messages between workers.
use world_dat.Base.{
  ◌≡◌, ◌≢◌, refl, sym, ap, ◌∙◌, true, none, some, some_inj, is_some, List, [], ◌∷◌, All, All-append,
  ◌>>=◌, Returns, if◌then◌else◌, inl, inr, Bool-cases, subst,
}
use world_dat.Channel
use world_dat.HashMap.{IterationOrder}
use world_dat.PeerMap.Invariant.{Entry}
use world_dat.Sim.World.{rest}
use world_dat.Types.{
  PeerId, SocketAddr, Message, ping, pong, find_peer, find_peer_response_peer_found,
  find_peer_response_peer_not_found, id_eq, id_eq_iff,
}
use world_dat.Types.Distance.{IsPeerId}
use world_dat.Worker.{WorkerState, WorkerMessage, quit, incoming, Turn, again, waiting, turn, obey}
use world_dat.Worker.Handle.{
  IsValid, knows, outbox, IsMessage, Answers, learned, Handles, handle-Handles,
}
use world_dat.Worker.Queue.{inbox, taken}

-- `owner` gives the id of the worker at an address; `boot` is the bootstrap address.
module _ (owner : SocketAddr → PeerId) (boot : SocketAddr) where
  -- The messages that there are, by source and destination.
  abbrev pub Mail : SocketAddr → SocketAddr → Message → Type 0
  Mail src dst (ping p) = (src ≡ boot) × (p ≡ owner dst) × IsPeerId p
  Mail src dst (pong p) = (dst ≡ boot) × (p ≡ owner src) × IsPeerId p
  Mail src dst (find_peer p) = (src ≡ boot) × (p ≡ owner dst) × IsPeerId p
  Mail src dst (find_peer_response_peer_found p x) = (dst ≡ boot) × IsPeerId p
  Mail src dst (find_peer_response_peer_not_found p l) = ⊥

  abbrev pub Control : SocketAddr → WorkerMessage → Type 0
  Control a quit = ⊥
  Control a (incoming src msg) = Mail src a msg

  abbrev pub Sent : SocketAddr → SocketAddr × Message → Type 0
  Sent a (dst, msg) = Mail a dst msg

  -- A worker at the address `a`.
  pub record Sound (a : SocketAddr) (w : WorkerState) : Type 0 where
    pub valid : IsValid w
    pub own : w.peer_id ≡ owner a
    pub runs : w.control_receiver.receiver_alive ≡ true
    pub attached : w.control_receiver.sender_alive ≡ true
    pub itself : (x : SocketAddr) × (knows w (owner a) ≡ some x)
    pub mail : All (Control a) (inbox w)
    pub sent : All (Sent a) (outbox w)
    pub honest : (q : PeerId) (b : SocketAddr) → knows w q ≡ some b → q ≡ owner b
    pub alone : a ≢ boot → (q : PeerId) → knows w q ≡ (if id_eq (owner a) q then some a else none)

  pub Mail-IsMessage : (src dst : SocketAddr) (msg : Message) → Mail src dst msg → IsMessage msg
  Mail-IsMessage src dst (ping p) m = m.2
  Mail-IsMessage src dst (pong p) m = m.2
  Mail-IsMessage src dst (find_peer p) m = m.2
  Mail-IsMessage src dst (find_peer_response_peer_found p x) m = m.1
  Mail-IsMessage src dst (find_peer_response_peer_not_found p l) m = absurd m

  taken-Sound :
      (a : SocketAddr) {w : WorkerState} (q : List WorkerMessage)
      → All (Control a) q
      → Sound a w
      → Sound a (taken w q)
  taken-Sound a q mail s = record {
    valid = record { map = s.valid.map; listened = s.valid.listened };
    own = s.own;
    runs = s.runs;
    attached = s.attached;
    itself = s.itself;
    mail = mail;
    sent = s.sent;
    honest = s.honest;
    alone = s.alone;
  }

  module _ (entries : IterationOrder Entry) (a : SocketAddr) {w : WorkerState} (s : Sound a w)
      (src : SocketAddr) where
    -- The worker knows the peer of an introduction: it is itself.
    known : (p : PeerId) → p ≡ owner a → knows w p ≡ some s.itself.0
    known p e = subst (λ x. knows w x ≡ some s.itself.0) (sym e) s.itself.1

    -- What the worker answers.
    Answers-Sent :
        (msg : Message) (m : Mail src a msg) (out : List (SocketAddr × Message))
        → Answers entries s.valid src msg (Mail-IsMessage src a msg m) out
        → All (Sent a) out
    Answers-Sent (ping p) m out e =
        let one : out ≡ (src, pong w.peer_id) ∷ [] =
          e
          ∙ ap (λ o. (src, pong w.peer_id) ∷ (if is_some o then [] else (src, ping w.peer_id) ∷ []))
              (known p m.1) in
        subst (All (Sent a)) (sym one) ((m.0, s.own, s.valid.map.own), tt)
    Answers-Sent (pong p) m out e = subst (All (Sent a)) (sym e) tt
    Answers-Sent (find_peer p) m out e =
        subst (All (Sent a)) (sym (e.0 s.itself.0 (known p m.1))) ((m.0, m.2), tt)
    Answers-Sent (find_peer_response_peer_found p x) m out e = subst (All (Sent a)) (sym e) tt
    Answers-Sent (find_peer_response_peer_not_found p l) m out e = absurd m

    -- What the worker learns is true, and only the one at the bootstrap address learns anything.
    learned-honest :
        (msg : Message)
        → Mail src a msg
        → (q : PeerId) (b : SocketAddr) → learned w src msg q ≡ some b
        → q ≡ owner b
    learned-honest (pong p) m q b e = elim (Bool-cases (id_eq p q)) [
      | inl same ↦ sym ((id_eq_iff p q).0 same) ∙ m.1 ∙ ap owner (some_inj (rw same at e))
      | inr other ↦ s.honest q b (rw other at e)
    ]
    learned-honest (ping p) m q b e = s.honest q b e
    learned-honest (find_peer p) m q b e = s.honest q b e
    learned-honest (find_peer_response_peer_found p x) m q b e = s.honest q b e
    learned-honest (find_peer_response_peer_not_found p l) m q b e = absurd m

    learned-alone :
        (msg : Message) → Mail src a msg → a ≢ boot → (q : PeerId) → learned w src msg q ≡ knows w q
    learned-alone (ping p) m ne q = refl
    learned-alone (pong p) m ne q = absurd (ne m.0)
    learned-alone (find_peer p) m ne q = refl
    learned-alone (find_peer_response_peer_found p x) m ne q = refl
    learned-alone (find_peer_response_peer_not_found p l) m ne q = absurd m

    learned-itself :
        (msg : Message) → Mail src a msg → (x : SocketAddr) × (learned w src msg (owner a) ≡ some x)
    learned-itself (ping p) m = s.itself
    learned-itself (pong p) m = elim (Bool-cases (id_eq p (owner a))) [
      | inl same ↦ (src, rw same)
      | inr other ↦ (s.itself.0, rw other s.itself.1)
    ]
    learned-itself (find_peer p) m = s.itself
    learned-itself (find_peer_response_peer_found p x) m = s.itself
    learned-itself (find_peer_response_peer_not_found p l) m = absurd m

    handled-Sound :
        (msg : Message) (m : Mail src a msg) {w' : WorkerState}
        → Handles entries s.valid src msg (Mail-IsMessage src a msg m) w'
        → Sound a w'
    handled-Sound msg m h = record {
      valid = h.valid;
      own = h.same_id ∙ s.own;
      runs = ap (λ c. c.receiver_alive) h.same_inbox ∙ s.runs;
      attached = ap (λ c. c.sender_alive) h.same_inbox ∙ s.attached;
      itself = let (x, e) = learned-itself msg m in (x, h.learns (owner a) ∙ e);
      mail = subst (λ c. All (Control a) c.queue) (sym h.same_inbox) s.mail;
      sent =
          subst (All (Sent a)) (sym h.sends)
            (All-append (Sent a) (outbox w) h.out s.sent (Answers-Sent msg m h.out h.answers));
      honest = λ q b e. learned-honest msg m q b (sym (h.learns q) ∙ e);
      alone = λ ne q. h.learns q ∙ learned-alone msg m ne q ∙ s.alone ne q;
    }

  -- What a turn has done: nothing, or it has served the next message.
  pub data Served (entries : IterationOrder Entry) (a : SocketAddr) (w : WorkerState) (t : Turn)
      : Type 0 where
    idle : inbox w ≡ [] → t ≡ waiting w → Served entries a w t
    serves :
        (src : SocketAddr) (msg : Message) (q : List WorkerMessage) (w' : WorkerState)
        → inbox w ≡ incoming src msg ∷ q
        → (m : Mail src a msg) (s : Sound a (taken w q))
        → Handles entries s.valid src msg (Mail-IsMessage src a msg m) w'
        → t ≡ again w'
        → Served entries a w t

  turn-Served_from :
      (entries : IterationOrder Entry) (a : SocketAddr) {w : WorkerState} (q : List WorkerMessage)
      → inbox w ≡ q
      → Sound a w
      → Returns (turn entries w) (Served entries a w)
  unfolding turn obey Channel.recv
  turn-Served_from entries a {w} [] e s =
      (waiting w, rw (turn, Channel.recv-empty w.control_receiver e s.attached), idle e refl)
  turn-Served_from entries a {w} (quit ∷ q) e s = absurd (subst (All (Control a)) e s.mail).0
  turn-Served_from entries a {w} (incoming src msg ∷ q) e s =
      let mail : All (Control a) (incoming src msg ∷ q) = subst (All (Control a)) e s.mail in
      let s₀ = taken-Sound a q mail.1 s in
      let (w', run, h) =
        handle-Handles entries s₀.valid src msg (Mail-IsMessage src a msg mail.0) in
      (
        again w',
        rw (turn, Channel.recv-got w.control_receiver (incoming src msg) q e, ◌>>=◌, run),
        serves src msg q w' e mail.0 s₀ h refl,
      )

  pub turn-Served :
      (entries : IterationOrder Entry) (a : SocketAddr) {w : WorkerState}
      → Sound a w
      → Returns (turn entries w) (Served entries a w)
  turn-Served entries a {w} s = turn-Served_from entries a (inbox w) refl s

  Served-Sound :
      (entries : IterationOrder Entry) (a : SocketAddr) {w : WorkerState} {t : Turn}
      → Sound a w
      → Served entries a w t
      → Sound a (rest t)
  Served-Sound entries a s (idle e how) = subst (λ t. Sound a (rest t)) (sym how) s
  Served-Sound entries a s (serves src msg q w' e m s₀ h how) =
      subst (λ t. Sound a (rest t)) (sym how) (handled-Sound entries a s₀ src msg m h)

  -- A turn of a sound worker returns, never ends the thread, and keeps the worker sound.
  pub turn-Sound :
      (entries : IterationOrder Entry) (a : SocketAddr) {w : WorkerState}
      → Sound a w
      → Returns (turn entries w) (λ t. Sound a (rest t))
  turn-Sound entries a {w} s =
      let (t, run, k) = turn-Served entries a s in (t, run, Served-Sound entries a s k)
