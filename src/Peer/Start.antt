-- ===== src/Peer/Start.antt =====
-- src/peer.rs: the setup of `start`, and the peers that it talks to.
use world_dat.Base.{ℕ, Option, none, some, List, [], ◌∷◌}
use world_dat.Peer2.Keys.{KeyError, PeerOpt, make_endpoint}
use world_dat.Peer2.Quinn.{Files, Quinn}
use world_dat.Program.Results.{Result, fail, done, ◌>>=◌}
use world_dat.Types.{SocketAddr}

-- The bootstrap peer's URL, as the `url` crate and `std::net` resolve it.
pub record Resolver : Type 1 where
  pub Url : Type 0
  pub HostAndPort : Type 0
  pub Error : Type 0
  pub with_default_port : Url → ℕ → Result Error HostAndPort
  pub to_socket_addrs : HostAndPort → Result Error (List SocketAddr)

-- The errors that `start` passes on.
pub data StartError (E F : Type 0) : Type 0 where
  keys : KeyError → StartError E F
  quic : E → StartError E F
  address : F → StartError E F
  unresolved : StartError E F

-- `?`, which converts the error.
abbrev pub convert : {E F A : Type 0} → (E → F) → Result E A → Result F A
convert f (fail e) = fail (f e)
convert f (done a) = done a

module _ (files : Files) (quinn : Quinn files) (resolver : Resolver) where
  open files use {FilePath, PrivateKey, Certificate}
  open resolver use {Url, with_default_port, to_socket_addrs}

  -- `next`, then `ok_or`.
  unfoldable pub first_address :
      List SocketAddr → Result (StartError quinn.Error resolver.Error) SocketAddr
  first_address [] = fail unresolved
  first_address (addr ∷ others) = done addr

  -- The first address of the bootstrap peer.
  unfoldable pub resolve : Url → Result (StartError quinn.Error resolver.Error) SocketAddr
  unfolding first_address
  resolve url = do
    host ← convert address (with_default_port url 4433)
    addrs ← convert address (to_socket_addrs host)
    first_address addrs

  -- The attempt to connect to the bootstrap peer, if there is one. What it comes to is for the task that
  -- is spawned.
  unfoldable pub attempt :
      quinn.Endpoint → Option Url → Result (StartError quinn.Error resolver.Error) (Unit {0})
  unfolding resolve
  attempt endpoint none = done tt
  attempt endpoint (some url) = do addr ← resolve url; convert quic (quinn.connect endpoint addr)

  -- `start` from the endpoint on, up to the tasks that it spawns.
  unfoldable pub start_with :
      PeerOpt FilePath
      → Option Url
      → List Certificate
      → PrivateKey
      → Result (StartError quinn.Error resolver.Error) (Unit {0})
  unfolding make_endpoint attempt
  start_with options bootstrap_peer cert_chain key = do
    endpoint ← convert quic (make_endpoint files quinn options cert_chain key)
    attempt endpoint bootstrap_peer
