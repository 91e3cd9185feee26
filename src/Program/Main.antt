-- ===== src/Program/Main.antt =====
-- src/bin/peer.rs: `main`, from the endpoints of the clients and the server to their end.
use world_dat.Base.{ℕ, Option, none, some, List, [], ◌∷◌, ◌++◌, Run, ok, panic, ◌>>=◌}
use world_dat.Program.Client.{send_request, print_response}
use world_dat.Program.Config.{localhost, configure_with, bind_with}
use world_dat.Program.Endpoint.{Endpoints, Driver}
use world_dat.Program.Quic.{Quic, Stdout}
use world_dat.Program.Results.{Result, fail, done, unwrap}
use world_dat.Types.{SocketAddr}

-- `tokio::task::JoinError`: the task has panicked.
pub data JoinError : Type 0 where
  panicked : JoinError

-- What awaiting the handle of a task gives, if the task ends.
unfoldable pub join : Run (Unit {0}) → Result JoinError (Unit {0})
join (ok u) = done u
join panic = fail panicked

-- A handle that `main` keeps: it is that of a task that awaits another one, `none` if it never ends.
abbrev pub Handle : Type 0
Handle = Option (Result JoinError (Result JoinError (Unit {0})))

-- What becomes of `main`, if it does not panic.
pub data Exit : Type 0 where
  returned : Exit
  waits_forever : Exit

-- The loop of `main` that waits.
unfoldable pub wait_all : List Handle → Run Exit
wait_all [] = ok returned
wait_all (none ∷ handles) = ok waits_forever
wait_all (some h ∷ handles) = do outer ← unwrap h; inner ← unwrap outer; wait_all handles

-- The task of the server's driver, which panics on an error.
unfoldable pub server_driver : {E : Type 0} → Driver E → Handle
unfolding join
server_driver none = none
server_driver (some end) = some (done (join (unwrap end)))

-- The task of a client's driver, which logs an error.
unfoldable pub client_driver : {E : Type 0} → Driver E → Handle
unfolding join
client_driver none = none
client_driver (some end) = some (done (join (ok tt)))

module _ {quic : Quic} (ends : Endpoints quic) where
  open ends use {
    ServerConfig, Endpoint, Error, generate_simple_self_signed, serialize_der,
    serialize_private_key_der, connect, open_bi,
  }

  unfoldable pub configure_server : Run (Result Error (ServerConfig × List ℕ))
  unfolding configure_with
  configure_server = do
    cert ← unwrap (generate_simple_self_signed (localhost ∷ []))
    cert_der ← unwrap (serialize_der cert)
    ok (configure_with ends (serialize_private_key_der cert) cert_der)

  unfoldable pub make_server_endpoint : SocketAddr → Run (Result Error (Driver Error × List ℕ))
  unfolding configure_server bind_with
  make_server_endpoint bind_addr = do
    configured ← configure_server
    ok (bind_with ends bind_addr configured)

  -- The server's endpoint and its driver's task.
  unfoldable pub start_server : SocketAddr → Run Handle
  unfolding make_server_endpoint server_driver
  start_server addr = do
    made ← make_server_endpoint addr
    (driver, server_cert) ← unwrap made
    ok (server_driver driver)

  -- The endpoint of a client, for what `bind` gives, and its driver's task.
  unfoldable pub start_client : Result Error (Driver Error) → Run Handle
  unfolding client_driver
  start_client bound = do driver ← unwrap bound; ok (client_driver driver)

  -- The task of a client: the standard output after it has printed.
  unfoldable pub ask :
      (stdout : Stdout) → Endpoint → SocketAddr → List ℕ → stdout.Out → Run stdout.Out
  unfolding send_request print_response
  ask stdout endpoint server_addr message out = do
    connecting ← unwrap (connect endpoint server_addr localhost)
    connection ← unwrap connecting
    (send, recv) ← unwrap (open_bi connection)
    asked ← send_request quic send message
    print_response quic stdout recv out

  -- The loop of `main` that starts the clients, for what each call of `bind` gives.
  unfoldable pub start_clients : List (Result Error (Driver Error)) → Run (List Handle)
  unfolding start_client
  start_clients [] = ok []
  start_clients (bound ∷ later) = do
    h ← start_client bound
    handles ← start_clients later
    ok (h ∷ handles)

  -- `main`, for what building the runtime gives.
  unfoldable pub main :
      {E : Type 0}
      → Result E (Unit {0})
      → SocketAddr
      → List (Result Error (Driver Error))
      → Run Exit
  unfolding start_clients start_server wait_all
  main built listen clients = do
    runtime ← unwrap built
    handles ← start_clients clients
    h ← start_server listen
    wait_all (handles ++ h ∷ [])
