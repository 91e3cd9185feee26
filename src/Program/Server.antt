-- ===== src/Program/Server.antt =====
-- src/bin/peer.rs: the server.
use world_dat.Base.{ℕ, ◌*◌, List, [], ◌∷◌, ◌++◌}
use world_dat.Program.Quic.{Quic}
use world_dat.Program.Results.{Result, fail, done, ◌>>=◌, map_err}
use world_dat.Program.Utf8.{from_utf8_lossy}

-- `format!("Received: {}", String::from_utf8_lossy(&req))`, as bytes.
unfoldable pub response : List ℕ → List ℕ
unfolding from_utf8_lossy
response req = 82 ∷ 101 ∷ 99 ∷ 101 ∷ 105 ∷ 118 ∷ 101 ∷ 100 ∷ 58 ∷ 32 ∷ from_utf8_lossy req

-- What `handle_request` logs when it fails.
pub data RequestError : Type 0 where
  failed_reading : RequestError
  failed_sending : RequestError
  failed_shutdown : RequestError

-- `quinn::ConnectionError`, of which the program tells apart a close by the application.
pub data ConnectionError : Type 0 where
  application_closed : ConnectionError
  other : ConnectionError

module _ (quic : Quic) where
  open quic use {SendStream, RecvStream, write_all, finish, read_to_end}

  unfoldable pub handle_request : SendStream × RecvStream → Result RequestError SendStream
  unfolding response
  handle_request (send, recv) = do
    req ← map_err failed_reading (read_to_end (64 * 1024) recv)
    send' ← map_err failed_sending (write_all send (response req))
    map_err failed_shutdown (finish send')

  -- What `bi_streams.next()` gives, until it gives `None`.
  abbrev pub Streams : Type 0
  Streams = List (Result ConnectionError (SendStream × RecvStream))

  -- The loop over the streams: the requests it spawns, and what it returns.
  unfoldable pub handle_streams :
      Streams → List (SendStream × RecvStream) × Result ConnectionError (Unit {0})
  handle_streams [] = ([], done tt)
  handle_streams (fail application_closed ∷ streams) = ([], done tt)
  handle_streams (fail other ∷ streams) = ([], fail other)
  handle_streams (done stream ∷ streams) =
      let (spawned, end) = handle_streams streams in (stream ∷ spawned, end)

  -- `handle_connection`; the driver's task never fails.
  unfoldable pub handle_connection :
      Result ConnectionError Streams
      → List (SendStream × RecvStream) × Result ConnectionError (Unit {0})
  unfolding handle_streams
  handle_connection (fail e) = ([], fail e)
  handle_connection (done streams) = handle_streams streams

  -- The loop of `run_server` over the incoming connections: the requests that are handled. An error of
  -- a connection is logged.
  unfoldable pub run_server : List (Result ConnectionError Streams) → List (SendStream × RecvStream)
  unfolding handle_connection
  run_server [] = []
  run_server (incoming_conn ∷ incoming) = (handle_connection incoming_conn).0 ++ run_server incoming
