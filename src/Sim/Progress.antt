-- ===== src/Sim/Progress.antt =====
-- src/bin/sim.rs: where the answer of each added worker to its introduction is.
use mathlib.Core.List.Memᴰ
use mathlib.Core.List.Memᴰ.{Memᴰ}
use world_dat.Base.{
  ◌≡◌, ◌≢◌, refl, sym, ap, ◌∙◌, true, false, Option, some, some_inj, none, List, [], ◌∷◌, ◌++◌, inl,
  inr, Bool-cases, subst,
}
use world_dat.HashMap
use world_dat.HashMap.Laws.{get-insert}
use world_dat.Sim.{Workers, Parcel}
use world_dat.Sim.Carry.{with_mail, sent_to, mailed}
use world_dat.Sim.Heard.{Announces, Hears, Announces-mail, Hears-mail}
use world_dat.Types.{PeerId, SocketAddr, socket_addr_eq, addr_eq, addr_eq_iff, pong}
use world_dat.Worker.{WorkerState, WorkerMessage, incoming}

-- What is in the map after `insert`, at the key and elsewhere.
pub get-insert_same :
    (a b : SocketAddr) (s : WorkerState) (ws : Workers)
    → addr_eq a b ≡ true
    → HashMap.get b (HashMap.insert a s ws) ≡ some s
get-insert_same a b s ws e = get-insert a b s ws ∙ rw e

pub get-insert_other :
    (a b : SocketAddr) (s : WorkerState) (ws : Workers)
    → addr_eq a b ≡ false
    → HashMap.get b (HashMap.insert a s ws) ≡ HashMap.get b ws
get-insert_other a b s ws e = get-insert a b s ws ∙ rw e

mailed-some :
    (q : List WorkerMessage) (o : Option WorkerState) {s : WorkerState}
    → mailed q o ≡ some s
    → (s₀ : WorkerState) × (o ≡ some s₀) × (with_mail s₀ q ≡ s)
mailed-some q none e = absurd (cc e)
mailed-some q (some s₀) e = (s₀, refl, some_inj e)

module _ (owner : SocketAddr → PeerId) (boot : SocketAddr) where
  -- Beside the worker `b` at the bootstrap address, the worker `s` at the address `a` has yet to
  -- announce itself, or its pong is on its way, or it has arrived.
  pub data Progress (b : WorkerState) (ms : List Parcel) (a : SocketAddr) (s : WorkerState)
      : Type 0 where
    announces : Announces owner boot a s → Progress b ms a s
    carried : Memᴰ (a, boot, pong (owner a)) ms → Progress b ms a s
    heard : Hears owner boot a b → Progress b ms a s

  -- The worker at the bootstrap address has been added, and all others are on their way to it.
  pub record Formed (ws : Workers) (ms : List Parcel) : Type 0 where
    pub booter : WorkerState
    pub at_boot : HashMap.get boot ws ≡ some booter
    pub others :
        (a : SocketAddr) (s : WorkerState)
        → HashMap.get a ws ≡ some s
        → a ≢ boot
        → Progress booter ms a s

  Progress-onward :
      {b b' : WorkerState} {ms ms' : List Parcel} {a : SocketAddr} {s : WorkerState}
      → (Memᴰ (a, boot, pong (owner a)) ms → Memᴰ (a, boot, pong (owner a)) ms')
      → (Hears owner boot a b → Hears owner boot a b')
      → Progress b ms a s
      → Progress b' ms' a s
  Progress-onward more hears (announces h) = announces h
  Progress-onward more hears (carried h) = carried (more h)
  Progress-onward more hears (heard h) = heard (hears h)

  -- A worker is put into the map, and messages are added to those on their way.
  pub insert-Formed :
      (ws : Workers) (ms more : List Parcel) (a : SocketAddr) (s : WorkerState) (f : Formed ws ms)
      → (a ≡ boot → (x : SocketAddr) → Hears owner boot x f.booter → Hears owner boot x s)
      → (a ≢ boot → Progress f.booter (ms ++ more) a s)
      → Formed (HashMap.insert a s ws) (ms ++ more)
  insert-Formed ws ms more a s f keeps moves = elim (Bool-cases (addr_eq a boot)) [
    | inl same ↦
        let here : a ≡ boot = (addr_eq_iff a boot).0 same in
        record {
          booter = s;
          at_boot = get-insert_same a boot s ws same;
          others = λ x t e ne. elim (Bool-cases (addr_eq a x)) [
            | inl twice ↦ absurd (ne (sym ((addr_eq_iff a x).0 twice) ∙ here))
            | inr apart ↦
                Progress-onward (λ m. Memᴰ.append_left more m) (keeps here x)
                  (f.others x t (sym (get-insert_other a x s ws apart) ∙ e) ne)
          ];
        }
    | inr other ↦ record {
      booter = f.booter;
      at_boot = get-insert_other a boot s ws other ∙ f.at_boot;
      others = λ x t e ne. elim (Bool-cases (addr_eq a x)) [
        | inl twice ↦
            let here : a ≡ x = (addr_eq_iff a x).0 twice in
            let mine : s ≡ t = some_inj (sym (get-insert_same a x s ws twice) ∙ e) in
            subst (λ y. Progress f.booter (ms ++ more) y t) here
              (subst (Progress f.booter (ms ++ more) a) mine (moves (λ h. ne (sym here ∙ h))))
        | inr apart ↦
            Progress-onward (λ m. Memᴰ.append_left more m) (λ h. h)
              (f.others x t (sym (get-insert_other a x s ws apart) ∙ e) ne)
      ];
    }
  ]

  delivered_next :
      (a : SocketAddr) (m : Parcel)
      → (a, boot, pong (owner a)) ≡ m
      → Memᴰ (incoming a (pong (owner a))) (sent_to boot (m ∷ []))
  delivered_next a m e =
      subst (λ p. Memᴰ (incoming a (pong (owner a))) (sent_to boot (p ∷ []))) e
        (rw ((addr_eq_iff boot boot).1 refl) (Memᴰ.head refl))

  -- The next message reaches its address.
  pub deliver-Formed :
      (ws ws' : Workers) (m : Parcel) (ms : List Parcel)
      → ((a : SocketAddr) → HashMap.get a ws' ≡ mailed (sent_to a (m ∷ [])) (HashMap.get a ws))
      → Formed ws (m ∷ ms)
      → Formed ws' ms
  deliver-Formed ws ws' m ms get f =
      let mine : List WorkerMessage = sent_to boot (m ∷ []) in
      let b' : WorkerState = with_mail f.booter mine in
      let onward : (a : SocketAddr) (s : WorkerState) (q : List WorkerMessage)
          → Progress f.booter (m ∷ ms) a s
          → Progress b' ms a (with_mail s q) =
        λ a s q p. elim p [
          | announces h ↦ announces (Announces-mail owner boot a s q h)
          | carried h ↦ elim (Memᴰ.cases_cons h) [
            | inl first ↦ heard (inl (Memᴰ.append_right _ (delivered_next a m first)))
            | inr later ↦ carried later
          ]
          | heard h ↦ heard (Hears-mail owner boot a f.booter mine h)
        ] in
      record {
        booter = b';
        at_boot = get boot ∙ ap (mailed mine) f.at_boot;
        others = λ a s e ne.
            let (s₀, before, now) =
              mailed-some (sent_to a (m ∷ [])) (HashMap.get a ws) (sym (get a) ∙ e) in
            subst (Progress b' ms a) now
              (onward a s₀ (sent_to a (m ∷ [])) (f.others a s₀ before ne));
      }
