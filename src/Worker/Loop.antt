-- ===== src/Worker/Loop.antt =====
-- src/worker.rs: the loop of `run`, over everything that is in the control channel.
use world_dat.Base.{
  ℕ, zero, suc, ◌+◌, ◌<◌, ◌≡◌, refl, ap, ◌∙◌, fun_ext, Bool-cases, Option-cases, inl, inr, true,
  is_some, List, [], ◌∷◌, length, All, ok, Returns, ◌>>=◌, if◌then◌else◌, arith,
}
use world_dat.Channel
use world_dat.Channel.{Channel, got, empty, disconnected}
use world_dat.HashMap.{IterationOrder}
use world_dat.PeerMap.Invariant.{Entry}
use world_dat.Types.{
  SocketAddr, Message, ping, pong, find_peer, find_peer_response_peer_found,
  find_peer_response_peer_not_found,
}
use world_dat.Worker.{
  WorkerMessage, quit, incoming, WorkerState, Turn, ended, waiting, handle, obey, turn, run,
}
use world_dat.Worker.Handle.{IsValid, knows, outbox, IsMessage, Answers, Handles, handle-Handles}
use world_dat.Worker.Queue.{
  inbox, served, unread, ends, learn_all, pings, pongs, IsControl, taken, pings-cons, pongs-append,
}

-- What the loop has done with the queue `q` when it stops.
pub record Finishes (s : WorkerState) (q : List WorkerMessage) (t : Turn) : Type 0 where
  pub final : WorkerState
  pub how : t ≡ (if ends q s.control_receiver.sender_alive then ended final else waiting final)
  pub valid : IsValid final
  pub same_id : final.peer_id ≡ s.peer_id
  pub left_over : inbox final ≡ unread q
  pub knowledge : knows final ≡ learn_all (knows s) (served q)
  pub answered : pongs (outbox final) ≡ pongs (outbox s) + pings (served q)

module _ (order : IterationOrder Entry) where
  pub Answers-pongs :
      {s : WorkerState} (v : IsValid s) (addr : SocketAddr) (msg : Message) (good : IsMessage msg)
      (out : List (SocketAddr × Message))
      → Answers order v addr msg good out
      → pongs out ≡ pings ((addr, msg) ∷ [])
  Answers-pongs {s} v addr (ping p) good out a = elim (Bool-cases (is_some (knows s p))) [
    | inl known ↦ ap pongs (rw known at a)
    | inr unknown ↦ ap pongs (rw unknown at a)
  ]
  Answers-pongs v addr (pong p) good out a = ap pongs a
  Answers-pongs {s} v addr (find_peer p) good out a = elim (Option-cases (knows s p)) [
    | inl e ↦ ap pongs (a.1 e).1
    | inr (b, e) ↦ ap pongs (a.0 b e)
  ]
  Answers-pongs v addr (find_peer_response_peer_found p b) good out a = ap pongs a
  Answers-pongs v addr (find_peer_response_peer_not_found p l) good out a = ap pongs a

  -- One message less to serve: what the rest of the loop does is what the whole loop does.
  after-Finishes :
      {s : WorkerState} (v : IsValid s) (addr : SocketAddr) (msg : Message) (good : IsMessage msg)
      {s' : WorkerState} {q : List WorkerMessage} {t : Turn}
      → Handles order v addr msg good s'
      → Finishes s' q t
      → Finishes s (incoming addr msg ∷ q) t
  after-Finishes {s} v addr msg good {s'} {q} h f = record {
    final = f.final;
    how =
        f.how
        ∙ ap (λ c. if ends q c.sender_alive then ended f.final else waiting f.final) h.same_inbox;
    valid = f.valid;
    same_id = f.same_id ∙ h.same_id;
    left_over = f.left_over;
    knowledge = f.knowledge ∙ ap (λ k. learn_all k (served q)) (fun_ext h.learns);
    answered = omega (
      arith,
      f.answered,
      pings-cons addr msg (served q),
      ap pongs h.sends,
      pongs-append (outbox s) h.out,
      Answers-pongs v addr msg good h.out h.answers,
    );
  }

  stops :
      {s : WorkerState} {t : Turn}
      → IsValid s
      → inbox s ≡ []
      → t ≡ (if ends [] s.control_receiver.sender_alive then ended s else waiting s)
      → Finishes s [] t
  stops {s} v e how = record {
    final = s;
    how = how;
    valid = v;
    same_id = refl;
    left_over = e;
    knowledge = refl;
    answered = omega arith;
  }

  untaken :
      {s : WorkerState} (rest : List WorkerMessage) {q : List WorkerMessage} {t : Turn}
      → Finishes (taken s rest) q t
      → Finishes s q t
  untaken rest f = record {
    final = f.final;
    how = f.how;
    valid = f.valid;
    same_id = f.same_id;
    left_over = f.left_over;
    knowledge = f.knowledge;
    answered = f.answered;
  }

  pub run_serves :
      (n : ℕ) (s : WorkerState) {s' : WorkerState} (addr : SocketAddr) (msg : Message)
      (q : List WorkerMessage)
      → inbox s ≡ incoming addr msg ∷ q
      → handle order (taken s q) addr msg ≡ ok s'
      → run order (suc n) s ≡ run order n s'
  unfolding run turn obey Channel.recv
  run_serves n s addr msg q e h =
      rw (run, turn, Channel.recv-got s.control_receiver (incoming addr msg) q e, ◌>>=◌, h, ◌>>=◌)

  pub run_waits :
      (n : ℕ) (s : WorkerState)
      → inbox s ≡ []
      → s.control_receiver.sender_alive ≡ true
      → run order (suc n) s ≡ ok (waiting s)
  unfolding run turn Channel.recv
  run_waits n s e alive = rw (run, turn, Channel.recv-empty s.control_receiver e alive)

  run-Finishes_from :
      (q : List WorkerMessage) (n : ℕ) {s : WorkerState}
      → IsValid s
      → inbox s ≡ q
      → All IsControl q
      → length q < n
      → Returns (run order n s) (Finishes s q)
  unfolding run turn obey Channel.recv
  run-Finishes_from q zero v e good h = absurd (omega arith)
  run-Finishes_from [] (suc n) {s} v e good h = elim (Bool-cases s.control_receiver.sender_alive) [
    | inl alive ↦ (waiting s, run_waits n s e alive, stops v e (rw alive))
    | inr gone ↦ (
      ended s,
      rw (run, turn, Channel.recv-disconnected s.control_receiver e gone),
      stops v e (rw gone),
    )
  ]
  run-Finishes_from (quit ∷ q) (suc n) {s} v e good h = (
    ended (taken s q),
    rw (run, turn, Channel.recv-got s.control_receiver quit q e),
    record {
      final = taken s q;
      how = refl;
      valid = record { map = v.map; listened = v.listened };
      same_id = refl;
      left_over = refl;
      knowledge = refl;
      answered = omega arith;
    },
  )
  run-Finishes_from (incoming addr msg ∷ q) (suc n) {s} v e good h =
      let s₀ : WorkerState = taken s q in
      let v₀ : IsValid s₀ = record { map = v.map; listened = v.listened } in
      let (s', run', handled) = handle-Handles order v₀ addr msg good.0 in
      let (t, run'', f) =
        run-Finishes_from q n handled.valid (ap (λ c. c.queue) handled.same_inbox) good.1
          (omega arith) in
      (
        t,
        run_serves n s addr msg q e run' ∙ run'',
        untaken q (after-Finishes v₀ addr msg good.0 handled f),
      )

  -- The loop of `run`, from a valid worker, panics for no inbox whose ids have 32 bytes, and enough turns, one more than
  -- there are messages, bring it to its end or to where it waits. It ends exactly at a `quit`, or at
  -- the end of the inbox if no sender is left. It has served the messages before the first `quit` and
  -- left those behind it; it knows what their pongs taught, in order, and has sent one pong for each
  -- of their pings.
  pub run-Finishes :
      (n : ℕ) {s : WorkerState}
      → IsValid s
      → All IsControl (inbox s)
      → length (inbox s) < n
      → Returns (run order n s) (Finishes s (inbox s))
  run-Finishes n {s} v good h = run-Finishes_from (inbox s) n v refl good h
