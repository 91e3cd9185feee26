-- ===== src/Peer2/Requests.antt =====
-- src/peer2.rs: which requests reach the worker, and which connections are remembered.
use world_dat.Base.{
  ℕ, ◌*◌, ◌≡◌, refl, sym, ap, ◌∙◌, Bool, true, false, Option, some, List, [], ◌∷◌, ◌++◌,
  append_assoc, append-nil, ok, ok_inj, bind_ok, panic, ◌>>=◌, Returns, ◌⊎◌, inl, inr,
  if◌then◌else◌,
}
use world_dat.Channel
use world_dat.Channel.{Channel}
use world_dat.HashMap
use world_dat.HashMap.{HashMap}
use world_dat.HashMap.Laws.{get-insert}
use world_dat.Peer2.Keys.{PeerOpt}
use world_dat.Peer2.Node.{
  Request, raw, Peer, bi, uni, Event, connected, stream_opened, task_ended, worker_takes,
  worker_ends, read_message, read_request, handle_connection, take_request, handle_event,
  handle_events,
}
use world_dat.Peer2.Quinn.{Files, Quinn}
use world_dat.Program.Results.{Result-cases, Result, fail, done}
use world_dat.Types.{SocketAddr, socket_addr_eq, addr_eq}

module _ (files : Files) (quinn : Quinn files) where
  open quinn use {Connection, Stream, remote_address, open_bi, read_to_end}

  -- A stream can be opened on each new connection, all streams that come in go both ways, and no request
  -- is read after the worker's thread has ended; it runs at first if the flag is set.
  abbrev pub IsFine : Bool → List (Event files quinn) → Type 0
  IsFine alive [] = Unit
  IsFine alive (connected connection ∷ es) =
      ((stream : Stream) × (open_bi connection ≡ done stream)) × IsFine alive es
  IsFine alive (stream_opened addr (bi stream) ∷ es) = IsFine alive es
  IsFine alive (stream_opened addr uni ∷ es) = ⊥
  IsFine alive (task_ended (addr, stream) ∷ es) =
      ((alive ≡ true) ⊎ ((e : quinn.Error) × (read_to_end stream (64 * 1024) ≡ fail e)))
      × IsFine alive es
  IsFine alive (worker_takes ∷ es) = IsFine alive es
  IsFine alive (worker_ends ∷ es) = IsFine false es

  -- The request that a task reads.
  abbrev request : SocketAddr → Result quinn.Error (Stream × List ℕ) → List Request
  request addr (fail e) = []
  request addr (done (rest, req)) = raw addr req ∷ []

  -- The requests of at most 64 KiB that were read, with the address that they came from, in the order in
  -- which their tasks end.
  abbrev pub requests : List (Event files quinn) → List Request
  requests [] = []
  requests (connected connection ∷ es) = requests es
  requests (stream_opened addr stream ∷ es) = requests es
  requests (task_ended (addr, stream) ∷ es) =
      request addr (read_to_end stream (64 * 1024)) ++ requests es
  requests (worker_takes ∷ es) = requests es
  requests (worker_ends ∷ es) = requests es

  -- Whether the worker's thread still runs.
  abbrev pub still : List (Event files quinn) → Bool → Bool
  still [] alive = alive
  still (worker_ends ∷ es) alive = still es false
  still (connected connection ∷ es) alive = still es alive
  still (stream_opened addr stream ∷ es) alive = still es alive
  still (task_ended task ∷ es) alive = still es alive
  still (worker_takes ∷ es) alive = still es alive

  -- The latest of the new connections to an address, or else the one before.
  abbrev pub latest : SocketAddr → List (Event files quinn) → Option Connection → Option Connection
  latest a [] before = before
  latest a (connected connection ∷ es) before =
      latest a es (if addr_eq (remote_address connection) a then some connection else before)
  latest a (stream_opened addr stream ∷ es) before = latest a es before
  latest a (task_ended task ∷ es) before = latest a es before
  latest a (worker_takes ∷ es) before = latest a es before
  latest a (worker_ends ∷ es) before = latest a es before

  pub record Handled (es : List (Event files quinn)) (s : Peer files quinn)
      (r : Peer files quinn × List Request) : Type 0 where
    pub same_options : r.0.options ≡ s.options
    pub delivered : r.1 ++ r.0.peer_state.queue ≡ s.peer_state.queue ++ requests es
    pub running : r.0.peer_state.receiver_alive ≡ still es s.peer_state.receiver_alive
    pub remembers :
        (a : SocketAddr) → HashMap.get a r.0.connections ≡ latest a es (HashMap.get a s.connections)

  -- A request behind what waits for the worker.
  abbrev sent : Peer files quinn → List Request → Peer files quinn
  sent s q = record s { peer_state = record s.peer_state { queue = s.peer_state.queue ++ q } }

  no_request : (s : Peer files quinn) → sent s [] ≡ s
  no_request s =
      ap (λ q. record s { peer_state = record s.peer_state { queue = q } })
        (append-nil s.peer_state.queue)

  -- A fine task sends what it reads.
  read_request-sent :
      (addr : SocketAddr) (stream : Stream) (s : Peer files quinn) (alive : Bool)
      → s.peer_state.receiver_alive ≡ alive
      → (alive ≡ true) ⊎ ((e : quinn.Error) × (read_to_end stream (64 * 1024) ≡ fail e))
      → read_request files quinn (addr, stream) s
        ≡ ok (sent s (request addr (read_to_end stream (64 * 1024))))
  unfolding read_request Channel.send
  read_request-sent addr stream s alive same fine =
      elim (Result-cases (read_to_end stream (64 * 1024))) [
        | inl (e, failed) ↦ rw (read_request, failed) (ap ok (sym (no_request s)))
        | inr ((rest, req), read) ↦ elim fine [
          | inl runs ↦ rw (
            read_request,
            read,
            Channel.send-some s.peer_state (raw addr req) (same ∙ runs),
            ◌>>=◌,
          )
          | inr (e, failed) ↦ absurd (cc (sym failed ∙ read))
        ]
      ]

  -- What a task has sent before the rest of the events.
  Handled-sent :
      (task : SocketAddr × Stream) (es : List (Event files quinn)) (s : Peer files quinn)
      {r : Peer files quinn × List Request}
      → Handled es (sent s (request task.0 (read_to_end task.1 (64 * 1024)))) r
      → Handled (task_ended task ∷ es) s r
  Handled-sent (addr, stream) es s h = record {
    same_options = h.same_options;
    delivered =
        h.delivered
        ∙ append_assoc s.peer_state.queue (request addr (read_to_end stream (64 * 1024)))
            (requests es);
    running = h.running;
    remembers = h.remembers;
  }

  -- What `worker_takes` leaves.
  abbrev Oldest : Peer files quinn → Peer files quinn × List Request → Type 0
  Oldest s r =
      (r.1 ++ r.0.peer_state.queue ≡ s.peer_state.queue)
      × (r.0.peer_state.receiver_alive ≡ s.peer_state.receiver_alive)
      × (r.0.options ≡ s.options)
      × (r.0.connections ≡ s.connections)

  abbrev of_parts :
      PeerOpt files.FilePath
      → HashMap SocketAddr Connection
      → List Request
      → Bool
      → Bool
      → Peer files quinn
  of_parts options connections queue sender_alive receiver_alive = record {
    options = options;
    connections = connections;
    peer_state = record {
      queue = queue;
      sender_alive = sender_alive;
      receiver_alive = receiver_alive;
    };
  }

  take_request-Oldest_parts :
      (o : PeerOpt files.FilePath) (cs : HashMap SocketAddr Connection) (q : List Request)
      (sends runs : Bool)
      → Oldest (of_parts o cs q sends runs) (take_request files quinn (of_parts o cs q sends runs))
  unfolding take_request Channel.recv
  take_request-Oldest_parts o cs q sends false = (refl, refl, refl, refl)
  take_request-Oldest_parts o cs (m ∷ q) sends true = (refl, refl, refl, refl)
  take_request-Oldest_parts o cs [] true true = (refl, refl, refl, refl)
  take_request-Oldest_parts o cs [] false true = (refl, refl, refl, refl)

  take_request-Oldest : (s : Peer files quinn) → Oldest s (take_request files quinn s)
  take_request-Oldest s =
      let c = s.peer_state in
      take_request-Oldest_parts s.options s.connections c.queue c.sender_alive c.receiver_alive

  -- What the worker has taken before the rest of the events.
  Handled-taken :
      (es : List (Event files quinn)) (s s' : Peer files quinn) (first : List Request)
      {r : Peer files quinn × List Request}
      → Oldest s (s', first)
      → Handled es s' r
      → Handled (worker_takes ∷ es) s (r.0, first ++ r.1)
  Handled-taken es s s' first {r} (front, runs, options, connections) h = record {
    same_options = h.same_options ∙ options;
    delivered =
        append_assoc first r.1 r.0.peer_state.queue
        ∙ ap (λ q. first ++ q) h.delivered
        ∙ sym (append_assoc first s'.peer_state.queue (requests es))
        ∙ ap (λ q. q ++ requests es) front;
    running = h.running ∙ ap (still es) runs;
    remembers = λ a. h.remembers a ∙ ap (λ c. latest a es (HashMap.get a c)) connections;
  }

  handle_events-Handled_from :
      (es : List (Event files quinn)) (alive : Bool) (s : Peer files quinn)
      → s.peer_state.receiver_alive ≡ alive
      → IsFine alive es
      → Returns (handle_events files quinn es s) (Handled es s)
  unfolding handle_events handle_event handle_connection read_message
  handle_events-Handled_from [] alive s same fine = (
    (s, []),
    refl,
    record {
      same_options = refl;
      delivered = sym (append-nil s.peer_state.queue);
      running = refl;
      remembers = λ a. refl;
    },
  )
  handle_events-Handled_from (connected connection ∷ es) alive s same fine =
      let addr : SocketAddr = remote_address connection in
      let s₁ : Peer files quinn = record s {
        connections = HashMap.insert addr connection s.connections;
      } in
      let (r, run, h) = handle_events-Handled_from es alive s₁ same fine.1 in
      (
        r,
        rw (fine.0.1, ◌>>=◌, run),
        record {
          same_options = h.same_options;
          delivered = h.delivered;
          running = h.running;
          remembers =
              λ a. h.remembers a ∙ ap (latest a es) (get-insert addr a connection s.connections);
        },
      )
  handle_events-Handled_from (stream_opened addr uni ∷ es) alive s same fine = absurd fine
  handle_events-Handled_from (stream_opened addr (bi stream) ∷ es) alive s same fine =
      let (r, run, h) = handle_events-Handled_from es alive s same fine in
      (
        r,
        rw run,
        record {
          same_options = h.same_options;
          delivered = h.delivered;
          running = h.running;
          remembers = h.remembers;
        },
      )
  handle_events-Handled_from (task_ended (addr, stream) ∷ es) alive s same fine =
      let s₁ = sent s (request addr (read_to_end stream (64 * 1024))) in
      let (r, run, h) = handle_events-Handled_from es alive s₁ same fine.1 in
      (
        r,
        rw (read_request-sent addr stream s alive same fine.0, ◌>>=◌, run),
        Handled-sent (addr, stream) es s h,
      )
  handle_events-Handled_from (worker_takes ∷ es) alive s same fine =
      let (s₁, first) = take_request files quinn s in
      let oldest = take_request-Oldest s in
      let (r, run, h) = handle_events-Handled_from es alive s₁ (oldest.1 ∙ same) fine in
      ((r.0, first ++ r.1), rw run, Handled-taken es s s₁ first oldest h)
  handle_events-Handled_from (worker_ends ∷ es) alive s same fine =
      let s₁ : Peer files quinn = record s {
        peer_state = record s.peer_state { receiver_alive = false };
      } in
      let (r, run, h) = handle_events-Handled_from es false s₁ refl fine in
      (
        r,
        rw run,
        record {
          same_options = h.same_options;
          delivered = h.delivered;
          running = h.running;
          remembers = h.remembers;
        },
      )

  handle_events-append :
      (es later : List (Event files quinn)) (s : Peer files quinn)
      {r : Peer files quinn × List Request}
      → handle_events files quinn es s ≡ ok r
      → handle_events files quinn later r.0 ≡ panic
      → handle_events files quinn (es ++ later) s ≡ panic
  unfolding handle_events
  handle_events-append [] later s e p =
      ap (handle_events files quinn later) (ap (λ x. x.0) (ok_inj e)) ∙ p
  handle_events-append (e₁ ∷ es) later s {r} e p =
      let ((s', first), f, e₂) = bind_ok (handle_event files quinn e₁ s) _ e in
      let ((s'', more), g, e₃) = bind_ok (handle_events files quinn es s') _ e₂ in
      let p' : handle_events files quinn later s'' ≡ panic =
        ap (λ x. handle_events files quinn later x.0) (ok_inj e₃) ∙ p in
      rw (f, ◌>>=◌, handle_events-append es later s' g p')

  -- If a stream can be opened on each new connection, each stream that comes in goes both ways and no request
  -- is read after the worker's thread has ended, then nothing panics, in whatever order the tasks end and the
  -- worker takes what it gets. What the worker has taken, and behind that what still waits in its
  -- channel, is what waited at first and then exactly the requests that were read to their end within
  -- 64 KiB, each once, with the address that it came from, in the order in which their tasks ended.
  -- Under each address the latest connection is remembered, or else the one before.
  pub handle_events-Handled :
      (es : List (Event files quinn)) (s : Peer files quinn)
      → IsFine s.peer_state.receiver_alive es
      → Returns (handle_events files quinn es s) (Handled es s)
  handle_events-Handled es s fine =
      handle_events-Handled_from es s.peer_state.receiver_alive s refl fine

  -- If, after such events, the worker's thread has ended, then the next request that is read to its end
  -- within 64 KiB makes the peer panic, whatever comes later.
  pub handle_events_gone :
      (es : List (Event files quinn)) (s : Peer files quinn)
      → IsFine s.peer_state.receiver_alive es
      → still es s.peer_state.receiver_alive ≡ false
      → (addr : SocketAddr) (stream rest : Stream) (req : List ℕ)
      → read_to_end stream (64 * 1024) ≡ done (rest, req)
      → (later : List (Event files quinn))
      → handle_events files quinn (es ++ task_ended (addr, stream) ∷ later) s ≡ panic
  unfolding handle_events handle_event read_request Channel.send
  handle_events_gone es s fine gone addr stream rest req read later =
      let (r, run, h) = handle_events-Handled es s fine in
      handle_events-append es (task_ended (addr, stream) ∷ later) s run
        (rw (handle_events, handle_event, read_request, read, Channel.send, h.running, gone))
