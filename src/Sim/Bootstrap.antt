-- ===== src/Sim/Bootstrap.antt =====
-- src/bin/sim.rs: what a new worker does with the messages that introduce it.
use world_dat.Base.{
  ℕ, suc, ◌≡◌, refl, ap, ◌∙◌, none, some, List, [], ◌∷◌, ◌++◌, ok, Returns, ◌>>=◌, expect,
  if◌then◌else◌,
}
use world_dat.Channel
use world_dat.Channel.{Channel, channel}
use world_dat.FlatMap.Bucket.{id_eq_self}
use world_dat.HashMap.{IterationOrder}
use world_dat.PeerMap.Invariant.{Entry}
use world_dat.Sim.{new_worker}
use world_dat.Types.{
  PeerId, SocketAddr, Message, id_eq, ping, pong, find_peer, find_peer_response_peer_found,
}
use world_dat.Types.Distance.{IsPeerId}
use world_dat.Worker
use world_dat.Worker.{WorkerState, WorkerMessage, incoming, Turn, waiting, run, turn, obey}
use world_dat.Worker.Handle.{IsValid, knows, outbox, Answers, handle-Handles}
use world_dat.Worker.Loop.{run_serves, run_waits}
use world_dat.Worker.Queue.{taken}
use world_dat.Worker.Start.{Starts, start-Starts}

-- The new worker once it has served all that is in its channel.
pub record Introduced (p : PeerId) (addr bootstrap : SocketAddr) (t : Turn) : Type 0 where
  pub final : WorkerState
  pub how : t ≡ waiting final
  pub valid : IsValid final
  pub sent :
      outbox final ≡ (bootstrap, pong p) ∷ (bootstrap, find_peer_response_peer_found p addr) ∷ []
  pub knowledge : (q : PeerId) → knows final q ≡ (if id_eq p q then some addr else none)

-- The worker with these messages in its control channel.
abbrev pub told : WorkerState → List WorkerMessage → WorkerState
told s q = record s { control_receiver = record channel { queue = q } }

pub told-IsValid : {s : WorkerState} (q : List WorkerMessage) → IsValid s → IsValid (told s q)
told-IsValid q v = record { map = v.map; listened = v.listened }

abbrev pub introduction : PeerId → SocketAddr → List WorkerMessage
introduction p bootstrap = incoming bootstrap (ping p) ∷ incoming bootstrap (find_peer p) ∷ []

pub new_worker-told :
    {p : PeerId} (addr bootstrap : SocketAddr) {s : WorkerState}
    → Worker.start p addr ≡ ok s
    → s.control_receiver ≡ channel
    → new_worker p addr (some bootstrap) ≡ ok (told s (introduction p bootstrap))
unfolding new_worker Worker.message Channel.send
new_worker-told {p} addr bootstrap {s} started e =
    rw (started, ◌>>=◌)
      (ap
        (λ c.
          expect (Worker.message (record s { control_receiver = c }) bootstrap (ping p)) >>= λ w.
          expect (Worker.message w bootstrap (find_peer p)))
        e)

module _ (order : IterationOrder Entry) {p : PeerId} (addr bootstrap : SocketAddr)
    (good : IsPeerId p) where
  append-cong : {a b c d : List (SocketAddr × Message)} → a ≡ b → c ≡ d → a ++ c ≡ b ++ d
  append-cong e f = cc (e, f)

  -- The answers of a worker that knows itself.
  ping_answer :
      {s : WorkerState} (v : IsValid s)
      → knows s p ≡ some addr
      → s.peer_id ≡ p
      → (out : List (SocketAddr × Message)) → Answers order v bootstrap (ping p) good out
      → out ≡ (bootstrap, pong p) ∷ []
  ping_answer v k e out a = a ∙ rw (k, e)

  introduced :
      (n : ℕ) {s : WorkerState}
      → Starts p addr s
      → Returns
          (run order (suc (suc (suc n))) (told s (introduction p bootstrap)))
          (Introduced p addr bootstrap)
  introduced n {s} st =
      let asked : List WorkerMessage = incoming bootstrap (find_peer p) ∷ [] in
      let v = told-IsValid asked st.valid in
      let itself : knows s p ≡ some addr =
        st.knows_itself p ∙ ap (λ b. if b then some addr else none) (id_eq_self p) in
      let (s', run', h) = handle-Handles order v bootstrap (ping p) good in
      let pong_sent : outbox s' ≡ (bootstrap, pong p) ∷ [] =
        h.sends
        ∙ append-cong (ap (λ c. c.queue) st.sender)
            (ping_answer v itself st.own_id h.out h.answers) in
      let v' : IsValid (taken s' []) = record { map = h.valid.map; listened = h.valid.listened } in
      let (s'', run'', h') = handle-Handles order v' bootstrap (find_peer p) good in
      let empty : s''.control_receiver ≡ channel =
        h'.same_inbox
        ∙ ap {A = Channel WorkerMessage} (λ c. record c { queue = [] }) h.same_inbox in
      (
        waiting s'',
        run_serves order (suc (suc n)) (told s (introduction p bootstrap)) bootstrap (ping p) asked
              refl run'
            ∙ run_serves order (suc n) s' bootstrap (find_peer p) []
                (ap (λ c. c.queue) h.same_inbox) run''
            ∙ run_waits order n s'' (ap (λ c. c.queue) empty) (ap (λ c. c.sender_alive) empty),
        record {
          final = s'';
          how = refl;
          valid = h'.valid;
          sent = h'.sends ∙ append-cong pong_sent (h'.answers.0 addr (h.learns p ∙ itself));
          knowledge = λ q. h'.learns q ∙ h.learns q ∙ st.knows_itself q;
        },
      )

  -- A worker that `add_new_worker` adds, if there is a bootstrap address, serves the two messages of
  -- its introduction within three turns, without a panic, and waits. It has answered both itself: a
  -- pong and its own address, to the bootstrap address. It has sent the bootstrap neither a ping nor
  -- a request for peers, and knows nobody but itself.
  pub new_worker-Introduced :
      (n : ℕ)
      → Returns
          (do w ← new_worker p addr (some bootstrap); run order (suc (suc (suc n))) w)
          (Introduced p addr bootstrap)
  new_worker-Introduced n =
      let (s, started, st) = start-Starts addr good in
      let (t, ran, i) = introduced n st in
      (t, rw (new_worker-told addr bootstrap started st.control, ◌>>=◌) ran, i)
