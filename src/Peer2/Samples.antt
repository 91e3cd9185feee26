-- ===== src/Peer2/Samples.antt =====
-- src/peer2.rs: files with and without a key, connections that are addresses and streams that are what
-- they carry.
use world_dat.Base.{ℕ, false, none, some, List, [], ◌∷◌, length, leb, if◌then◌else◌}
use world_dat.Channel.{channel}
use world_dat.Peer2.Keys.{PeerOpt}
use world_dat.Peer2.Node.{
  Peer, Event, connected, stream_opened, task_ended, worker_takes, worker_ends, bi,
}
use world_dat.Peer2.Quinn.{Files, Quinn}
use world_dat.Program.Results.{fail, done}
use world_dat.Types.{SocketAddr}
use world_dat.Types.Samples.{home, away}

-- A file is how many keys it holds.
abbrev pub files : Files
files = record {
  FilePath = ℕ;
  File = ℕ;
  PrivateKey = Unit {0};
  Certificate = Unit {0};
  Error = Unit {0};
  open_file = λ path. done path;
  rsa_private_keys = λ file. done (if leb file 0 then [] else tt ∷ []);
  certs = λ file. done (tt ∷ []);
}

abbrev pub quinn : Quinn files
quinn = record {
  Builder = Unit {0};
  Endpoint = SocketAddr;
  Connection = SocketAddr;
  Stream = List ℕ;
  Error = Unit {0};
  builder = tt;
  set_certificate = λ b chain key. done b;
  logger = λ b. b;
  bind = λ b addr. done addr;
  connect = λ endpoint addr. done tt;
  remote_address = λ connection. connection;
  open_bi = λ connection. done [];
  read_to_end = λ stream limit. if leb (length stream) limit then done ([], stream) else fail tt;
}

abbrev pub options : ℕ → PeerOpt ℕ
options key = record {
  bootstrap_peer = some away;
  listen = home;
  ca = none;
  key = key;
  cert = 0;
  logproto = false;
}

abbrev pub peer : Peer files quinn
peer = record { options = options 1; connections = []; peer_state = channel }

-- A connection, and two requests on it, of which the second one is read first.
abbrev pub events : List (Event files quinn)
events =
    connected away
    ∷ stream_opened away (bi (104 ∷ 105 ∷ []))
    ∷ stream_opened away (bi (104 ∷ []))
    ∷ task_ended (away, 104 ∷ [])
    ∷ worker_takes
    ∷ task_ended (away, 104 ∷ 105 ∷ [])
    ∷ worker_ends
    ∷ []
