-- ===== src/Peer2/Quinn.antt =====
-- `quinn` and `rustls`, as src/peer2.rs uses them.
use world_dat.Base.{ℕ, List}
use world_dat.Program.Results.{Result}
use world_dat.Types.{SocketAddr}

-- `open` is that of `std::fs::File`; the parsers are those of `pemfile`.
pub record Files : Type 1 where
  pub FilePath : Type 0
  pub File : Type 0
  pub PrivateKey : Type 0
  pub Certificate : Type 0
  pub Error : Type 0
  pub open_file : FilePath → Result Error File
  pub rsa_private_keys : File → Result Error (List PrivateKey)
  pub certs : File → Result Error (List Certificate)

-- Each call that returns a future gives what the future ends with. `builder` is made with at most 64
-- streams for each connection, and listens. `connect` starts an attempt, with the configuration that
-- accepts every certificate and the placeholder for the host's name.
pub record Quinn (files : Files) : Type 1 where
  pub Builder : Type 0
  pub Endpoint : Type 0
  pub Connection : Type 0
  pub Stream : Type 0
  pub Error : Type 0
  pub builder : Builder
  pub set_certificate : Builder → List files.Certificate → files.PrivateKey → Result Error Builder
  pub logger : Builder → Builder
  pub bind : Builder → SocketAddr → Result Error Endpoint
  pub connect : Endpoint → SocketAddr → Result Error (Unit {0})
  pub remote_address : Connection → SocketAddr
  pub open_bi : Connection → Result Error Stream
  pub read_to_end : Stream → ℕ → Result Error (Stream × List ℕ)
