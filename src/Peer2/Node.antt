-- ===== src/Peer2/Node.antt =====
-- src/peer2.rs: the peer: its setup, its connections and the requests on them.
use world_dat.Base.{ℕ, ◌*◌, true, false, List, [], ◌∷◌, ◌++◌, Run, ok, panic, ◌>>=◌, expect}
use world_dat.Channel
use world_dat.Channel.{Channel, got, empty, disconnected}
use world_dat.HashMap
use world_dat.HashMap.{HashMap}
use world_dat.Peer2.Keys.{KeyError, PeerOpt, load_tls_keys, make_endpoint, connect_bootstrap}
use world_dat.Peer2.Quinn.{Files, Quinn}
use world_dat.Program.Results.{Result, fail, done, unwrap}
use world_dat.Types.{SocketAddr, socket_addr_eq}

-- `keys[0]`
unfoldable pub first {ℓ} : {A : Type ℓ} → List A → Run A
first [] = panic
first (x ∷ xs) = ok x

-- The errors that `run` passes on.
pub data RunError (E : Type 0) : Type 0 where
  keys : KeyError → RunError E
  quic : E → RunError E

-- `WorkerMessage::Incoming` with a `Message::Raw`: the address and the data.
pub data Request : Type 0 where
  raw : SocketAddr → List ℕ → Request

module _ (files : Files) (quinn : Quinn files) where
  open files use {FilePath}
  open quinn use {Connection, Stream, remote_address, open_bi, read_to_end}

  -- `quinn::NewStream`
  pub data NewStream : Type 0 where
    bi : Stream → NewStream
    uni : NewStream

  -- `Peer`; of the worker behind its handle, the control channel.
  pub record Peer : Type 0 where
    pub options : PeerOpt FilePath
    pub connections : HashMap SocketAddr Connection
    pub peer_state : Channel Request

  -- `read_message`: what the task is about that it spawns.
  unfoldable pub read_message : SocketAddr → NewStream → Run (SocketAddr × Stream)
  read_message addr uni = panic
  read_message addr (bi stream) = ok (addr, stream)

  -- The end of that task: it has read the request, which is sent to the worker. An error is logged.
  unfoldable pub read_request : SocketAddr × Stream → Peer → Run Peer
  unfolding Channel.send
  read_request (addr, stream) s = elim (read_to_end stream (64 * 1024)) [
    | fail e ↦ ok s
    | done (rest, req) ↦ do
      channel ← expect (Channel.send s.peer_state (raw addr req))
      ok (record s { peer_state = channel })
  ]

  -- A new connection: it is put into the map, and the task that greets the other end panics if no
  -- stream opens. An error in writing is logged.
  unfoldable pub handle_connection : Connection → Peer → Run Peer
  unfolding HashMap.insert
  handle_connection connection s = do
    stream ← unwrap (open_bi connection)
    ok (record s {
      connections = HashMap.insert (remote_address connection) connection s.connections;
    })

  -- The worker's `recv`, if its thread has not ended: what it takes.
  unfoldable pub take_request : Peer → Peer × List Request
  unfolding Channel.recv
  take_request s = elim s.peer_state.receiver_alive [
    | false ↦ (s, [])
    | true ↦ elim (Channel.recv s.peer_state) [
      | got m c ↦ (record s { peer_state = c }, m ∷ [])
      | empty ↦ (s, [])
      | disconnected ↦ (s, [])
    ]
  ]

  -- What happens while the driver runs, in any order: a connection is made by either end, a stream comes in
  -- on the connection to an address, the task of a stream ends, the worker takes a message, or its
  -- thread ends.
  pub data Event : Type 0 where
    connected : Connection → Event
    stream_opened : SocketAddr → NewStream → Event
    task_ended : SocketAddr × Stream → Event
    worker_takes : Event
    worker_ends : Event

  -- The peer after an event, and what the worker takes in it.
  unfoldable pub handle_event : Event → Peer → Run (Peer × List Request)
  unfolding handle_connection read_message read_request take_request
  handle_event (connected connection) s = do s' ← handle_connection connection s; ok (s', [])
  handle_event (stream_opened addr stream) s = do task ← read_message addr stream; ok (s, [])
  handle_event (task_ended task) s = do s' ← read_request task s; ok (s', [])
  handle_event worker_takes s = ok (take_request s)
  handle_event worker_ends s =
      ok (record s { peer_state = record s.peer_state { receiver_alive = false } }, [])

  unfoldable pub handle_events : List Event → Peer → Run (Peer × List Request)
  unfolding handle_event
  handle_events [] s = ok (s, [])
  handle_events (e ∷ es) s = do
    (s', taken) ← handle_event e s
    (s'', later) ← handle_events es s'
    ok (s'', taken ++ later)

  -- `run` up to the driver.
  unfoldable pub setup : PeerOpt FilePath → Run (Result (RunError quinn.Error) (Unit {0}))
  unfolding load_tls_keys first make_endpoint connect_bootstrap
  setup options = elim (load_tls_keys files options.key options.cert) [
    | fail e ↦ ok (fail (keys e))
    | done (private_keys, cert_chain) ↦ do
      key ← first private_keys
      elim (make_endpoint files quinn options cert_chain key) [
        | fail e ↦ ok (fail (quic e))
        | done endpoint ↦ elim (connect_bootstrap files quinn options endpoint) [
          | fail e ↦ ok (fail (quic e))
          | done spawned ↦ ok (done tt)
        ]
      ]
  ]
