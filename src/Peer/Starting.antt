-- ===== src/Peer/Starting.antt =====
-- src/peer.rs: when the setup of `start` succeeds.
use world_dat.Base.{◌≡◌, refl, ap, ◌∙◌, Option, none, some, List, [], ◌∷◌}
use world_dat.Peer.Start.{
  Resolver, convert, first_address, resolve, attempt, start_with, quic, address,
}
use world_dat.Peer2.Keys.{PeerOpt, load_tls_keys, make_endpoint}
use world_dat.Peer2.Quinn.{Files, Quinn}
use world_dat.Program.Results.{Result, fail, done, bind_done}
use world_dat.Types.{SocketAddr}

pub convert_done :
    {E F A : Type 0} (f : E → F) (r : Result E A) {a : A} → convert f r ≡ done a → r ≡ done a
convert_done f (fail e) h = absurd (cc h)
convert_done f (done b) h = cc h

module _ (files : Files) (quinn : Quinn files) (resolver : Resolver) where
  open files use {FilePath, PrivateKey, Certificate}
  open quinn use {Endpoint, connect}
  open resolver use {Url, HostAndPort, with_default_port, to_socket_addrs}

  -- There is no bootstrap peer, or an attempt to connect to the first of its addresses is started.
  abbrev pub Attempted : Endpoint → Option Url → Type 0
  Attempted endpoint none = Unit
  Attempted endpoint (some url) =
      (host : HostAndPort) × (addr : SocketAddr) × (others : List SocketAddr) × (with_default_port
          url 4433
        ≡ done host)
      × (to_socket_addrs host ≡ done (addr ∷ others))
      × (connect endpoint addr ≡ done tt)

  -- The setup succeeds.
  pub record Starts (options : PeerOpt FilePath) (bootstrap_peer : Option Url) : Type 0 where
    pub key : PrivateKey
    pub others : List PrivateKey
    pub chain : List Certificate
    pub loaded : load_tls_keys files options.key options.cert ≡ done (key ∷ others, chain)
    pub endpoint : Endpoint
    pub made : make_endpoint files quinn options chain key ≡ done endpoint
    pub attempted : Attempted endpoint bootstrap_peer

  first_address-cons :
      (addrs : List SocketAddr) {addr : SocketAddr}
      → first_address files quinn resolver addrs ≡ done addr
      → (others : List SocketAddr) × (addrs ≡ addr ∷ others)
  unfolding first_address
  first_address-cons [] e = absurd (cc e)
  first_address-cons (x ∷ others) e = (others, cc e)

  attempt-Attempted :
      (endpoint : Endpoint) (bootstrap_peer : Option Url)
      → attempt files quinn resolver endpoint bootstrap_peer ≡ done tt
      → Attempted endpoint bootstrap_peer
  unfolding attempt resolve
  attempt-Attempted endpoint none e = tt
  attempt-Attempted endpoint (some url) e =
      let (addr, r, e₁) = bind_done (resolve files quinn resolver url) _ e in
      let (host, h, r₁) = bind_done (convert address (with_default_port url 4433)) _ r in
      let (addrs, t, r₂) = bind_done (convert address (to_socket_addrs host)) _ r₁ in
      let (others, cons) = first_address-cons addrs r₂ in
      (
        host,
        addr,
        others,
        convert_done address (with_default_port url 4433) h,
        convert_done address (to_socket_addrs host) t ∙ ap (λ x. done x) cons,
        convert_done quic (connect endpoint addr) e₁,
      )

  Attempted-attempt :
      (endpoint : Endpoint) (bootstrap_peer : Option Url)
      → Attempted endpoint bootstrap_peer
      → attempt files quinn resolver endpoint bootstrap_peer ≡ done tt
  unfolding attempt resolve first_address
  Attempted-attempt endpoint none h = refl
  Attempted-attempt endpoint (some url) (host, addr, others, h, t, c) =
      rw (attempt, resolve, h, t, first_address, c)

  pub start_with-Starts :
      (options : PeerOpt FilePath) (bootstrap_peer : Option Url) (key : PrivateKey)
      (others : List PrivateKey) (chain : List Certificate)
      → load_tls_keys files options.key options.cert ≡ done (key ∷ others, chain)
      → start_with files quinn resolver options bootstrap_peer chain key ≡ done tt
      → Starts options bootstrap_peer
  unfolding start_with
  start_with-Starts options bootstrap_peer key others chain f whole =
      let (endpoint, m, a) =
        bind_done (convert quic (make_endpoint files quinn options chain key)) _ whole in
      record {
        key = key;
        others = others;
        chain = chain;
        loaded = f;
        endpoint = endpoint;
        made = convert_done quic (make_endpoint files quinn options chain key) m;
        attempted = attempt-Attempted endpoint bootstrap_peer a;
      }

  pub Starts-start_with :
      {options : PeerOpt FilePath} {bootstrap_peer : Option Url}
      → (s : Starts options bootstrap_peer)
      → start_with files quinn resolver options bootstrap_peer s.chain s.key ≡ done tt
  unfolding start_with
  Starts-start_with {options} {bootstrap_peer} s =
      rw (start_with, s.made, Attempted-attempt s.endpoint bootstrap_peer s.attempted)
