-- ===== src/Sim/Post.antt =====
-- src/bin/sim.rs: the mail of sound workers, taken from them and delivered to them.
use world_dat.Base.{
  ℕ, zero, suc, ◌≡◌, refl, sym, ◌∙◌, Option, none, some, some_inj, List, [], ◌∷◌, get_elem?, set,
  All, All-append, Returns, inl, inr, ◌⊎◌, Bool-cases, subst,
}
use world_dat.Channel
use world_dat.HashMap
use world_dat.HashMap.{IterationOrder}
use world_dat.HashMap.Laws.{get-insert}
use world_dat.Sim.{Workers, Parcel, Queued, pop, deliver}
use world_dat.Sim.Carry.{with_mail, sent_to, mailed, deliver-mailed}
use world_dat.Sim.Sound.{Mail, Control, Sent, Sound}
use world_dat.Types.{PeerId, SocketAddr, socket_addr_eq, addr_eq, addr_eq_iff, Message}
use world_dat.Worker
use world_dat.Worker.{WorkerState, WorkerMessage, incoming, Turn, turn}
use world_dat.Worker.Handle.{outbox}
use world_dat.Worker.Queue.{inbox}

pub pop-All {ℓ κ} :
    {A : Type ℓ} (P : A → Type κ) (xs : List A)
    → All P xs
    → (pop xs ≡ none) ⊎ ((ys : List A) × (y : A) × (pop xs ≡ some (ys, y)) × All P ys × P y)
unfolding pop
pop-All P [] h = inl refl
pop-All P (x ∷ xs) h = elim (pop-All P xs h.1) [
  | inl e ↦ inr ([], x, rw e, tt, h.0)
  | inr (ys, y, e, hs, hy) ↦ inr (x ∷ ys, y, rw e, (h.0, hs), hy)
]

pub All-set {ℓ κ} :
    {A : Type ℓ} (P : A → Type κ) (xs : List A) (i : ℕ) (x : A)
    → All P xs
    → P x
    → All P (set xs i x)
All-set P [] i x h k = tt
All-set P (y ∷ xs) zero x h k = (k, h.1)
All-set P (y ∷ xs) (suc i) x h k = (h.0, All-set P xs i x h.1 k)

pub All-get_elem? {ℓ κ} :
    {A : Type ℓ} (P : A → Type κ) (xs : List A) (i : ℕ) {x : A}
    → get_elem? xs i ≡ some x
    → All P xs
    → P x
All-get_elem? P [] i e h = absurd (cc e)
All-get_elem? P (y ∷ xs) zero e h = subst P (some_inj e) h.0
All-get_elem? P (y ∷ xs) (suc i) e h = All-get_elem? P xs i e h.1

module _ (owner : SocketAddr → PeerId) (boot : SocketAddr) where
  abbrev pub AllSound : Workers → Type 0
  AllSound ws =
      (a : SocketAddr) (s : WorkerState) → HashMap.get a ws ≡ some s → Sound owner boot a s

  abbrev pub IsCarried : Parcel → Type 0
  IsCarried p = Mail owner boot p.0 p.1 p.2

  abbrev pub IsQueued : Queued → Type 0
  IsQueued q = Sound owner boot q.addr q.worker

  pub insert-AllSound :
      (ws : Workers) (a : SocketAddr) (s : WorkerState)
      → AllSound ws
      → Sound owner boot a s
      → AllSound (HashMap.insert a s ws)
  insert-AllSound ws a s h k b t e = elim (Bool-cases (addr_eq a b)) [
    | inl same ↦
        let there : s ≡ t = some_inj (rw same at (sym (get-insert a b s ws) ∙ e)) in
        subst (λ x. Sound owner boot x t) ((addr_eq_iff a b).0 same)
          (subst (Sound owner boot a) there k)
    | inr other ↦ h b t (rw other at (sym (get-insert a b s ws) ∙ e))
  ]

  -- What `recv_message` returns of a sound worker.
  unfoldable pub Received : SocketAddr → Option ((SocketAddr × Message) × WorkerState) → Type 0
  Received a none = Unit
  Received a (some ((dst, msg), s)) = Mail owner boot a dst msg × Sound owner boot a s

  recv_message-Received_from :
      (a : SocketAddr) {s : WorkerState} (q : List (SocketAddr × Message))
      → outbox s ≡ q
      → All (Sent owner boot a) q
      → Sound owner boot a s
      → Received a (Worker.recv_message s)
  unfolding Worker.recv_message Channel.recv Received
  recv_message-Received_from a {s} [] e h k = elim (Bool-cases s.message_sender.sender_alive) [
    | inl alive ↦ rw (Worker.recv_message, Channel.recv-empty s.message_sender e alive) tt
    | inr gone ↦ rw (Worker.recv_message, Channel.recv-disconnected s.message_sender e gone) tt
  ]
  recv_message-Received_from a {s} ((dst, msg) ∷ q) e h k =
      rw (Worker.recv_message, Channel.recv-got s.message_sender (dst, msg) q e)
        (
          h.0,
          record {
            valid = record { map = k.valid.map; listened = k.valid.listened };
            own = k.own;
            runs = k.runs;
            attached = k.attached;
            itself = k.itself;
            mail = k.mail;
            sent = h.1;
            honest = k.honest;
            alone = k.alone;
          },
        )

  pub recv_message-Received :
      (a : SocketAddr) {s : WorkerState} → Sound owner boot a s → Received a (Worker.recv_message s)
  recv_message-Received a {s} k = recv_message-Received_from a (outbox s) refl k.sent k

  with_mail-Sound :
      (a : SocketAddr) {s : WorkerState} (q : List WorkerMessage)
      → Sound owner boot a s
      → All (Control owner boot a) q
      → Sound owner boot a (with_mail s q)
  with_mail-Sound a {s} q k h = record {
    valid = record { map = k.valid.map; listened = k.valid.listened };
    own = k.own;
    runs = k.runs;
    attached = k.attached;
    itself = k.itself;
    mail = All-append (Control owner boot a) (inbox s) q k.mail h;
    sent = k.sent;
    honest = k.honest;
    alone = k.alone;
  }

  sent_to-Control :
      (a : SocketAddr) (ms : List Parcel)
      → All IsCarried ms
      → All (Control owner boot a) (sent_to a ms)
  sent_to-Control a [] h = tt
  sent_to-Control a ((src, dest, msg) ∷ ms) h = elim (Bool-cases (addr_eq dest a)) [
    | inl same ↦ rw same (
      subst (λ x. Mail owner boot src x msg) ((addr_eq_iff dest a).0 same) h.0,
      sent_to-Control a ms h.1,
    )
    | inr other ↦ rw other (sent_to-Control a ms h.1)
  ]

  mailed-Sound :
      (a : SocketAddr) (q : List WorkerMessage) (o : Option WorkerState) {s : WorkerState}
      → ((t : WorkerState) → o ≡ some t → Sound owner boot a t)
      → All (Control owner boot a) q
      → mailed q o ≡ some s
      → Sound owner boot a s
  mailed-Sound a q none h k e = absurd (cc e)
  mailed-Sound a q (some t) h k e =
      subst (Sound owner boot a) (some_inj e) (with_mail-Sound a q (h t refl) k)

  pub deliver-AllSound :
      (ws : Workers) (ms : List Parcel)
      → AllSound ws
      → All IsCarried ms
      → Returns (deliver ws ms) AllSound
  deliver-AllSound ws ms h k =
      let (ws', run, get) = deliver-mailed ws ms (λ a s e. (h a s e).runs) in
      (
        ws',
        run,
        λ a s e.
            mailed-Sound a (sent_to a ms) (HashMap.get a ws) (h a) (sent_to-Control a ms k)
              (sym (get a) ∙ e),
      )
