-- ===== src/Program/Ends.antt =====
-- src/bin/peer.rs: when `main` returns.
use world_dat.Base.{
  none, some, ℕ, ◌≡◌, ◌↔◌, refl, ap, ◌∙◌, List, [], ◌∷◌, ◌++◌, All, ok, ◌>>=◌, ok_inj, bind_ok,
}
use world_dat.Program.Config.{localhost, configure_with, bind_with}
use world_dat.Program.Endpoint.{Endpoints, Driver}
use world_dat.Program.Main.{
  Handle, returned, join, server_driver, client_driver, configure_server, make_server_endpoint,
  start_server, start_client, start_clients, wait_all, main,
}
use world_dat.Program.Quic.{Quic}
use world_dat.Program.Results.{Result, fail, done, unwrap, bind_done, unwrap_done}
use world_dat.Types.{SocketAddr}

module _ {quic : Quic} (ends : Endpoints quic) where
  open ends use {
    SelfSigned, PrivateKey, Certificate, ServerConfig, Error, generate_simple_self_signed,
    serialize_der, serialize_private_key_der, private_key_from_der, certificate_from_der,
    certificate, bind,
  }

  -- Every step of the server's setup succeeds, and so does its driver.
  pub record Serves (listen : SocketAddr) : Type 0 where
    pub own : SelfSigned
    pub made : generate_simple_self_signed (localhost ∷ []) ≡ done own
    pub der : List ℕ
    pub written : serialize_der own ≡ done der
    pub key : PrivateKey
    pub key_read : private_key_from_der (serialize_private_key_der own) ≡ done key
    pub cert : Certificate
    pub cert_read : certificate_from_der der ≡ done cert
    pub config : ServerConfig
    pub configured : certificate (cert ∷ []) key ≡ done config
    pub bound : bind config listen ≡ done (some (done tt))

  -- The endpoint of a client can be bound, and its driver ends.
  abbrev pub IsBound : Result Error (Driver Error) → Type 0
  IsBound bound = (end : Result Error (Unit {0})) × (bound ≡ done (some end))

  configure_with-key :
      (priv_key cert_der : List ℕ) {r : ServerConfig × List ℕ}
      → configure_with ends priv_key cert_der ≡ done r
      → (key : PrivateKey) × (cert : Certificate) × (private_key_from_der priv_key ≡ done key)
        × (certificate_from_der cert_der ≡ done cert)
        × (certificate (cert ∷ []) key ≡ done r.0)
  unfolding configure_with
  configure_with-key priv_key cert_der e =
      let (key, k, e₁) = bind_done (private_key_from_der priv_key) _ e in
      let (cert, c, e₂) = bind_done (certificate_from_der cert_der) _ e₁ in
      let (config, f, e₃) = bind_done (certificate (cert ∷ []) key) _ e₂ in
      (key, cert, k, c, f ∙ ap (λ x. done x) (cc e₃))

  server_driver-done :
      (driver : Driver Error)
      → wait_all (server_driver driver ∷ []) ≡ ok returned
      → driver ≡ some (done tt)
  unfolding wait_all server_driver join
  server_driver-done none e = absurd (cc e)
  server_driver-done (some (fail x)) e = absurd (cc e)
  server_driver-done (some (done u)) e = refl

  client_driver-ended :
      (driver : Driver Error) (handles : List Handle)
      → wait_all (client_driver driver ∷ handles) ≡ ok returned
      → ((end : Result Error (Unit {0})) × (driver ≡ some end)) × (wait_all handles ≡ ok returned)
  unfolding wait_all client_driver join
  client_driver-ended none handles e = absurd (cc e)
  client_driver-ended (some end) handles e = ((end, refl), e)

  start_server-Serves :
      (listen : SocketAddr)
      → start_server ends listen >>= (λ h. wait_all (h ∷ [])) ≡ ok returned
      → Serves listen
  unfolding start_server make_server_endpoint configure_server bind_with wait_all
  start_server-Serves listen e =
      let (h, started, waited) = bind_ok (start_server ends listen) _ e in
      let (made, m, started₁) = bind_ok (make_server_endpoint ends listen) _ started in
      let ((driver, server_cert), d, started₂) = bind_ok (unwrap made) _ started₁ in
      let (configured, c, m₁) = bind_ok (configure_server ends) _ m in
      let (own, w, c₁) = bind_ok (unwrap (generate_simple_self_signed (localhost ∷ []))) _ c in
      let (der, s, c₂) = bind_ok (unwrap (serialize_der own)) _ c₁ in
      let bound : bind_with ends listen configured ≡ done (driver, server_cert) =
        ok_inj m₁ ∙ unwrap_done made d in
      let ((config, crt), k, b₁) = bind_done configured _ bound in
      let (driver', b, b₂) = bind_done (bind config listen) _ b₁ in
      let (key, cert, key_read, cert_read, configures) =
        configure_with-key (serialize_private_key_der own) der (ok_inj c₂ ∙ k) in
      let same : driver' ≡ driver = cc b₂ in
      let fine : driver ≡ some (done tt) =
        server_driver-done driver (ap (λ g. wait_all (g ∷ [])) (ok_inj started₂) ∙ waited) in
      record {
        own = own;
        made = unwrap_done (generate_simple_self_signed (localhost ∷ [])) w;
        der = der;
        written = unwrap_done (serialize_der own) s;
        key = key;
        key_read = key_read;
        cert = cert;
        cert_read = cert_read;
        config = config;
        configured = configures;
        bound = b ∙ ap (λ x. done x) (same ∙ fine);
      }

  Serves-start_server :
      (listen : SocketAddr) → Serves listen → start_server ends listen ≡ ok (some (done (done tt)))
  unfolding start_server make_server_endpoint configure_server configure_with bind_with join
  Serves-start_server listen s = rw (
    start_server, make_server_endpoint, configure_server, s.made, ◌>>=◌, s.written, ◌>>=◌,
    configure_with, s.key_read, s.cert_read, s.configured, bind_with, s.bound, server_driver, join,
  )

  -- The handles of clients whose drivers end, whatever they end with.
  abbrev ended_well : List (Result Error (Driver Error)) → List Handle
  ended_well [] = []
  ended_well (bound ∷ clients) = some (done (done tt)) ∷ ended_well clients

  start_clients-IsBound :
      (clients : List (Result Error (Driver Error))) (h : Handle) {handles : List Handle}
      → start_clients ends clients ≡ ok handles
      → wait_all (handles ++ h ∷ []) ≡ ok returned
      → All IsBound clients × (wait_all (h ∷ []) ≡ ok returned)
  unfolding start_clients start_client
  start_clients-IsBound [] h e waited = (tt, ap (λ hs. wait_all (hs ++ h ∷ [])) (ok_inj e) ∙ waited)
  start_clients-IsBound (bound ∷ clients) h e waited =
      let (g, started, e₁) = bind_ok (start_client ends bound) _ e in
      let (handles', more, e₂) = bind_ok (start_clients ends clients) _ e₁ in
      let (driver, b, e₃) = bind_ok (unwrap bound) _ started in
      let waited' : wait_all (client_driver driver ∷ (handles' ++ h ∷ [])) ≡ ok returned =
        ap (λ g'. wait_all (g' ∷ (handles' ++ h ∷ []))) (ok_inj e₃)
        ∙ ap (λ hs. wait_all (hs ++ h ∷ [])) (ok_inj e₂)
        ∙ waited in
      let ((end, ended), waited'') = client_driver-ended driver (handles' ++ h ∷ []) waited' in
      let (bounds, last) = start_clients-IsBound clients h more waited'' in
      (((end, unwrap_done bound b ∙ ap (λ d. done d) ended), bounds), last)

  IsBound-start_clients :
      (clients : List (Result Error (Driver Error)))
      → All IsBound clients
      → start_clients ends clients ≡ ok (ended_well clients)
  unfolding start_clients start_client client_driver join
  IsBound-start_clients [] h = refl
  IsBound-start_clients (bound ∷ clients) h =
      rw (start_clients, start_client, h.0.1, ◌>>=◌, IsBound-start_clients clients h.1)

  wait_all-ended_well :
      (clients : List (Result Error (Driver Error))) (h : Handle)
      → wait_all (ended_well clients ++ h ∷ []) ≡ wait_all (h ∷ [])
  unfolding wait_all
  wait_all-ended_well [] h = refl
  wait_all-ended_well (bound ∷ clients) h = wait_all-ended_well clients h

  -- `main` returns exactly if the runtime can be built, the endpoint of each client can be bound and its
  -- driver ends, the server's certificate can be made, written and read back with its key, the
  -- server's endpoint can be bound, and its driver ends without an error. Whatever the clients' drivers
  -- end with, and whatever becomes of the requests, does not matter.
  pub main_returns :
      {E : Type 0} (built : Result E (Unit {0})) (listen : SocketAddr)
      (clients : List (Result Error (Driver Error)))
      → (main ends built listen clients ≡ ok returned)
        ↔ ((built ≡ done tt) × All IsBound clients × Serves listen)
  unfolding main wait_all
  main_returns built listen clients = (
    λ e.
        let (runtime, b, e₀) = bind_ok (unwrap built) _ e in
        let (handles, started, e₁) = bind_ok (start_clients ends clients) _ e₀ in
        let (h, served, e₂) = bind_ok (start_server ends listen) _ e₁ in
        let (bounds, last) = start_clients-IsBound clients h started e₂ in
        (unwrap_done built b, bounds, start_server-Serves listen (rw (served, ◌>>=◌) last)),
    λ (b, bounds, s). rw (
      main,
      b,
      ◌>>=◌,
      IsBound-start_clients clients bounds,
      ◌>>=◌,
      Serves-start_server listen s,
      ◌>>=◌,
      wait_all-ended_well clients (some (done (done tt))),
    ),
  )
