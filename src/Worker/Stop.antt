-- ===== src/Worker/Stop.antt =====
-- src/worker.rs: the handle's `quit`, which waits for the thread.
use world_dat.Base.{
  ℕ, suc, ◌+◌, ◌<◌, ◌≡◌, refl, ap, ◌∙◌, true, some, List, [], ◌∷◌, ◌++◌, length, length-append, All,
  All-append, ok, Returns, arith, Bool,
}
use world_dat.Channel
use world_dat.HashMap.{IterationOrder}
use world_dat.PeerMap.Invariant.{Entry}
use world_dat.Worker.{WorkerState, WorkerMessage, quit, incoming, ended, stop, run, Turn}
use world_dat.Worker.Handle.{IsValid, knows, outbox}
use world_dat.Worker.Loop.{run-Finishes}
use world_dat.Worker.Queue.{inbox, served, ends, IsControl, learn_all, pings, pongs}

ends-quit : (q : List WorkerMessage) (alive : Bool) → ends (q ++ quit ∷ []) alive ≡ true
ends-quit [] alive = refl
ends-quit (quit ∷ q) alive = refl
ends-quit (incoming addr msg ∷ q) alive = ends-quit q alive

served-quit : (q : List WorkerMessage) → served (q ++ quit ∷ []) ≡ served q
served-quit [] = refl
served-quit (quit ∷ q) = refl
served-quit (incoming addr msg ∷ q) = ap (λ ms. (addr, msg) ∷ ms) (served-quit q)

-- A worker that has stopped.
pub record Stops (s : WorkerState) (final : WorkerState) : Type 0 where
  pub valid : IsValid final
  pub same_id : final.peer_id ≡ s.peer_id
  pub knowledge : knows final ≡ learn_all (knows s) (served (inbox s))
  pub answered : pongs (outbox final) ≡ pongs (outbox s) + pings (served (inbox s))

-- The worker once `quit` is at the end of its inbox.
abbrev told : WorkerState → WorkerState
told s = record s { control_receiver = record s.control_receiver { queue = inbox s ++ quit ∷ [] } }

stop-told :
    (order : IterationOrder Entry) (n : ℕ) (s : WorkerState) (t : Turn)
    → s.control_receiver.receiver_alive ≡ true
    → run order n (told s) ≡ ok t
    → stop order n s ≡ ok (some t)
unfolding stop Channel.send
stop-told order n s t alive e = rw (stop, Channel.send, alive, e)

-- The handle's `quit` on a valid worker that runs, with ids of 32 bytes in its inbox: the message is
-- sent to it, and the thread ends, within two turns more than there are messages in the inbox, without a
-- panic. The worker has served all messages before the first `quit`: it knows what their pongs
-- taught, in order, and has sent one pong for each of their pings.
pub stop-Stops :
    (order : IterationOrder Entry) (n : ℕ) {s : WorkerState}
    → IsValid s
    → s.control_receiver.receiver_alive ≡ true
    → All IsControl (inbox s)
    → suc (length (inbox s)) < n
    → Returns
        (stop order n s)
        (λ r. (final : WorkerState) × (r ≡ some (ended final)) × Stops s final)
stop-Stops order n {s} v alive good h =
    let v' : IsValid (told s) = record { map = v.map; listened = v.listened } in
    let (t, run', f) =
      run-Finishes order n v' (All-append IsControl (inbox s) (quit ∷ []) good (tt, tt))
        (omega (arith, length-append (inbox s) (quit ∷ []))) in
    (
      some t,
      stop-told order n s t alive run',
      (
        f.final,
        ap some (f.how ∙ rw (ends-quit (inbox s))),
        record {
          valid = f.valid;
          same_id = f.same_id;
          knowledge = f.knowledge ∙ ap (learn_all (knows s)) (served-quit (inbox s));
          answered = f.answered ∙ ap (λ ms. pongs (outbox s) + pings ms) (served-quit (inbox s));
        },
      ),
    )
