-- ===== src/Worker/Turns.antt =====
-- src/worker.rs: some turns of the loop of `run`, before a `quit` is sent.
use world_dat.Base.{
  ℕ, zero, suc, ◌+◌, ◌≤◌, ◌≡◌, refl, sym, ap, ◌∙◌, subst, fun_ext, true, false, List, [], ◌∷◌,
  length, All, Returns, arith,
}
use world_dat.HashMap.{IterationOrder}
use world_dat.PeerMap.Invariant.{Entry}
use world_dat.Types.{SocketAddr, Message}
use world_dat.Worker.{WorkerMessage, WorkerState, again, waiting, left, quit, incoming, run}
use world_dat.Worker.Handle.{IsValid, IsMessage, knows, outbox, Handles, handle-Handles}
use world_dat.Worker.Loop.{Answers-pongs, run_serves, run_waits}
use world_dat.Worker.Queue.{
  inbox, served, ends, learn_all, pings, pongs, IsControl, taken, pings-cons, pongs-append,
}

-- A worker that runs and has served a part of the queue `q`, in which there is no `quit`.
pub record Proceeds (s : WorkerState) (q : List WorkerMessage) (s' : WorkerState) : Type 0 where
  pub valid : IsValid s'
  pub same_id : s'.peer_id ≡ s.peer_id
  pub runs : s'.control_receiver.receiver_alive ≡ true
  pub controls : All IsControl (inbox s')
  pub fewer : length (inbox s') ≤ length q
  pub knowledge : learn_all (knows s') (served (inbox s')) ≡ learn_all (knows s) (served q)
  pub answered : pongs (outbox s') + pings (served (inbox s')) ≡ pongs (outbox s) + pings (served q)

module _ (order : IterationOrder Entry) where
  same-Proceeds :
      {s : WorkerState} {q : List WorkerMessage}
      → IsValid s
      → inbox s ≡ q
      → s.control_receiver.receiver_alive ≡ true
      → All IsControl q
      → Proceeds s q s
  same-Proceeds {s} v e runs good = record {
    valid = v;
    same_id = refl;
    runs = runs;
    controls = subst (All IsControl) (sym e) good;
    fewer = omega (arith, ap length e);
    knowledge = ap (λ r. learn_all (knows s) (served r)) e;
    answered = ap (λ r. pongs (outbox s) + pings (served r)) e;
  }

  -- One message served, and then more.
  after-Proceeds :
      {s : WorkerState} (v : IsValid s) (addr : SocketAddr) (msg : Message) (good : IsMessage msg)
      {s' s'' : WorkerState} {q : List WorkerMessage}
      → Handles order v addr msg good s'
      → Proceeds s' q s''
      → Proceeds s (incoming addr msg ∷ q) s''
  after-Proceeds {s} v addr msg good {s'} {s''} {q} h p = record {
    valid = p.valid;
    same_id = p.same_id ∙ h.same_id;
    runs = p.runs;
    controls = p.controls;
    fewer = omega (arith, p.fewer);
    knowledge = p.knowledge ∙ ap (λ k. learn_all k (served q)) (fun_ext h.learns);
    answered = omega (
      arith,
      p.answered,
      pings-cons addr msg (served q),
      ap pongs h.sends,
      pongs-append (outbox s) h.out,
      Answers-pongs order v addr msg good h.out h.answers,
    );
  }

  untaken-Proceeds :
      {s s' : WorkerState} {q r : List WorkerMessage} → Proceeds (taken s q) r s' → Proceeds s r s'
  untaken-Proceeds p = record {
    valid = p.valid;
    same_id = p.same_id;
    runs = p.runs;
    controls = p.controls;
    fewer = p.fewer;
    knowledge = p.knowledge;
    answered = p.answered;
  }

  -- A valid worker that runs, with a sender, ids of 32 bytes and no `quit` in its inbox, still runs after
  -- any number of turns, and what is left in its inbox would teach it, and have it answer, what it
  -- has not yet served.
  pub run-Proceeds :
      (n : ℕ) (q : List WorkerMessage) {s : WorkerState}
      → IsValid s
      → inbox s ≡ q
      → s.control_receiver.receiver_alive ≡ true
      → s.control_receiver.sender_alive ≡ true
      → All IsControl q
      → ends q true ≡ false
      → Returns (run order n s) (λ t. Proceeds s q (left t))
  unfolding run left
  run-Proceeds zero q {s} v e runs sends good going = (again s, refl, same-Proceeds v e runs good)
  run-Proceeds (suc n) [] {s} v e runs sends good going =
      (waiting s, run_waits order n s e sends, same-Proceeds v e runs good)
  run-Proceeds (suc n) (quit ∷ q) v e runs sends good going = absurd (cc going)
  run-Proceeds (suc n) (incoming addr msg ∷ q) {s} v e runs sends good going =
      let s₀ : WorkerState = taken s q in
      let v₀ : IsValid s₀ = record { map = v.map; listened = v.listened } in
      let (s', run', handled) = handle-Handles order v₀ addr msg good.0 in
      let same = handled.same_inbox in
      let (t, run'', p) =
        run-Proceeds n q handled.valid (ap (λ c. c.queue) same)
          (ap (λ c. c.receiver_alive) same ∙ runs) (ap (λ c. c.sender_alive) same ∙ sends) good.1
          going in
      (
        t,
        run_serves order n s addr msg q e run' ∙ run'',
        untaken-Proceeds (after-Proceeds v₀ addr msg good.0 handled p),
      )
