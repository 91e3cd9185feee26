-- ===== src/Program/Endpoint.antt =====
-- The endpoints of `quinn` and the certificates of `rcgen`, as src/bin/peer.rs uses them.
use world_dat.Base.{ℕ, Option, List}
use world_dat.Program.Quic.{Quic}
use world_dat.Program.Results.{Result}
use world_dat.Types.{SocketAddr}

-- An endpoint's driver: what it ends with, or `none` if it never ends.
abbrev pub Driver : Type 0 → Type 0
Driver Error = Option (Result Error (Unit {0}))

-- `certificate` makes a configuration in which the other end opens no streams of one direction. `connect` starts an attempt and gives what that ends
-- with.
pub record Endpoints (quic : Quic) : Type 1 where
  pub SelfSigned : Type 0
  pub PrivateKey : Type 0
  pub Certificate : Type 0
  pub ServerConfig : Type 0
  pub Endpoint : Type 0
  pub Connection : Type 0
  pub Error : Type 0
  pub generate_simple_self_signed : List (List ℕ) → Result Error SelfSigned
  pub serialize_der : SelfSigned → Result Error (List ℕ)
  pub serialize_private_key_der : SelfSigned → List ℕ
  pub private_key_from_der : List ℕ → Result Error PrivateKey
  pub certificate_from_der : List ℕ → Result Error Certificate
  pub certificate : List Certificate → PrivateKey → Result Error ServerConfig
  pub bind : ServerConfig → SocketAddr → Result Error (Driver Error)
  pub connect : Endpoint → SocketAddr → List ℕ → Result Error (Result Error Connection)
  pub open_bi : Connection → Result Error (quic.SendStream × quic.RecvStream)
