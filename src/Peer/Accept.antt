-- ===== src/Peer/Accept.antt =====
-- src/peer.rs: when `start` returns, and whom the listener listens to.
use world_dat.Base.{
  Bool, ◌≡◌, ap, ◌∙◌, true, false, Option, some, is_some, List, [], ◌∷◌, ◌++◌, map, All, Run, ok,
  ◌>>=◌,
}
use world_dat.Peer.{SharedState, Codec}
use world_dat.Peer.Listen.{run_tasks, start, Conversation, talk_to_peer, listen}
use world_dat.Peer.Session.{Transport, NewStream, bi, outgoing_stream, incoming_streams}
use world_dat.Peer.Start.{Resolver, StartError}
use world_dat.Peer.Starting.{Starts}
use world_dat.Peer.Streams.{Served, Fails, incoming_streams-Served}
use world_dat.Peer2.Keys.{PeerOpt, load_tls_keys}
use world_dat.Peer2.Quinn.{Files, Quinn}
use world_dat.Program.Results.{Result, done}

module _ (files : Files) (quinn : Quinn files) (resolver : Resolver) (codec : Codec)
    (transport : Transport) (state : SharedState) (options : PeerOpt files.FilePath)
    (bootstrap_peer : Option resolver.Url) (reached : Option (Conversation codec transport))
    (incoming : List (Conversation codec transport)) (driver : Result quinn.Error (Unit {0})) where
  -- `start`, and its tasks.
  abbrev pub started : Run (Result (StartError quinn.Error resolver.Error) (Unit {0}))
  started =
      start files quinn resolver codec transport state options bootstrap_peer reached incoming
        driver

  abbrev pub tasks : Run (Unit {0})
  tasks = run_tasks codec transport state (is_some bootstrap_peer) reached incoming

  abbrev pub Prepared : Type 0
  Prepared = Starts files quinn resolver options bootstrap_peer

  -- The file for the key holds no RSA private key, and both files are read.
  abbrev pub NoKey : Type 0
  NoKey =
      (chain : List files.Certificate) × (load_tls_keys files options.key options.cert
        ≡ done ([], chain))

module _ (codec : Codec) (transport : Transport) where
  open transport use {Stream}

  -- Conversations that end without an error.
  abbrev pub AllFine : SharedState → List (Conversation codec transport) → Type 0
  AllFine state cs = All (λ c. talk_to_peer codec transport state c ≡ ok true) cs

  listen_on :
      (state : SharedState) (cs rest heard : List (Conversation codec transport)) (b : Bool)
      → AllFine state cs
      → listen codec transport state rest ≡ ok (heard, b)
      → listen codec transport state (cs ++ rest) ≡ ok (cs ++ heard, b)
  unfolding listen
  listen_on state [] rest heard b fine e = e
  listen_on state (c ∷ cs) rest heard b fine e =
      rw (listen, fine.0, ◌>>=◌, listen_on state cs rest heard b fine.1 e)

  -- The listener has one conversation after the other. If a stream can be opened to a peer and a ping
  -- sent, and the peer sends streams that are served up to one that ends in an error or to an error of
  -- the connection, and no panic (reading a message can panic), then, after conversations that end
  -- without an error, this one is the last: the listener stops without a panic, and those who connect
  -- later are never heard.
  pub listen-stops :
      (state : SharedState) (cs later : List (Conversation codec transport))
      (bad : Conversation codec transport) (sent : Stream) (ss : List (Stream × Stream))
      (failing : Option (NewStream Stream)) (more : List (Option (NewStream Stream)))
      → AllFine state cs
      → outgoing_stream codec transport state bad.opened ≡ ok (some sent)
      → bad.incoming ≡ map (λ p. some (bi p.0)) ss ++ failing ∷ more
      → Served codec transport ss
      → Fails codec transport failing
      → listen codec transport state (cs ++ bad ∷ later) ≡ ok (cs ++ bad ∷ [], false)
  unfolding listen talk_to_peer
  listen-stops state cs later bad sent ss failing more fine s e served fails =
      let (stopped, _) = incoming_streams-Served codec transport ss failing more served fails in
      let heard : incoming_streams codec transport bad.incoming ≡ ok (map (λ p. p.1) ss, false) =
        ap (incoming_streams codec transport) e ∙ stopped in
      listen_on state cs (bad ∷ later) (bad ∷ []) false fine
        (rw (listen, talk_to_peer, s, ◌>>=◌, heard, ◌>>=◌))
