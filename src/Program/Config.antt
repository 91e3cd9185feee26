-- ===== src/Program/Config.antt =====
-- src/bin/peer.rs: the server's certificate and its endpoint, as far as errors are returned.
use world_dat.Base.{ℕ, List, [], ◌∷◌}
use world_dat.Program.Endpoint.{Endpoints, Driver}
use world_dat.Program.Quic.{Quic}
use world_dat.Program.Results.{Result, done, ◌>>=◌}
use world_dat.Types.{SocketAddr}

-- "localhost"
abbrev pub localhost : List ℕ
localhost = 108 ∷ 111 ∷ 99 ∷ 97 ∷ 108 ∷ 104 ∷ 111 ∷ 115 ∷ 116 ∷ []

module _ {quic : Quic} (ends : Endpoints quic) where
  open ends use {ServerConfig, Error, private_key_from_der, certificate_from_der, certificate, bind}

  -- `configure_server`, once there is a certificate.
  unfoldable pub configure_with : List ℕ → List ℕ → Result Error (ServerConfig × List ℕ)
  configure_with priv_key cert_der = do
    key ← private_key_from_der priv_key
    cert ← certificate_from_der cert_der
    config ← certificate (cert ∷ []) key
    done (config, cert_der)

  -- `make_server_endpoint`, once there is a configuration: the driver and the certificate.
  unfoldable pub bind_with :
      SocketAddr → Result Error (ServerConfig × List ℕ) → Result Error (Driver Error × List ℕ)
  bind_with bind_addr configured = do
    (server_config, server_cert) ← configured
    driver ← bind server_config bind_addr
    done (driver, server_cert)
