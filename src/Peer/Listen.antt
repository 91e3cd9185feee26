-- ===== src/Peer/Listen.antt =====
-- src/peer.rs: `start`, and the conversations of the listener.
use world_dat.Base.{Bool, true, false, Option, none, some, is_some, List, [], ◌∷◌, Run, ok, ◌>>=◌}
use world_dat.Peer.{SharedState, Codec}
use world_dat.Peer.Session.{Transport, NewStream, outgoing_stream, incoming_streams}
use world_dat.Peer.Start.{Resolver, StartError, keys, quic, convert, start_with}
use world_dat.Peer2.Keys.{PeerOpt, load_tls_keys}
use world_dat.Peer2.Node.{first}
use world_dat.Peer2.Quinn.{Files, Quinn}
use world_dat.Program.Results.{Result, fail, done}

module _ (codec : Codec) (transport : Transport) where
  open transport use {Stream}

  -- A connection: what `open_bi` gives, and the streams that come in.
  pub record Conversation : Type 0 where
    pub opened : Option Stream
    pub incoming : List (Option (NewStream Stream))

  -- `talk_to_peer`, if its outgoing future ends first: whether it ends without an error. `join` drops
  -- the other future at an error.
  unfoldable pub talk_to_peer : SharedState → Conversation → Run Bool
  unfolding outgoing_stream incoming_streams
  talk_to_peer state conversation = do
    sent ← outgoing_stream codec transport state conversation.opened
    elim (is_some sent) [
      | true ↦ do
        (streams, complete) ← incoming_streams codec transport conversation.incoming
        ok complete
      | false ↦ ok false
    ]

  -- The listener of `start`: the conversations that it has, one after the other, and whether it still
  -- listens.
  unfoldable pub listen : SharedState → List Conversation → Run (List Conversation × Bool)
  unfolding talk_to_peer
  listen state [] = ok ([], true)
  listen state (conn ∷ incoming) = do
    fine ← talk_to_peer state conn
    elim fine [
      | true ↦ do (served, open_) ← listen state incoming; ok (conn ∷ served, open_)
      | false ↦ ok (conn ∷ [], false)
    ]

  -- The tasks that `start` spawns, which its `block_on` runs: the conversation with the bootstrap peer, if
  -- there is one and it is reached, and the listener. A panic of one of them is a panic of
  -- `block_on`.
  unfoldable pub run_tasks :
      SharedState → Bool → Option Conversation → List Conversation → Run (Unit {0})
  unfolding talk_to_peer listen
  run_tasks state bootstrap reached incoming = do
    talked ← elim bootstrap [
      | false ↦ ok true
      | true ↦ elim reached [ none ↦ ok false | some conn ↦ talk_to_peer state conn ]
    ]
    heard ← listen state incoming
    ok tt

module _ (files : Files) (quinn : Quinn files) (resolver : Resolver) (codec : Codec)
    (transport : Transport) where
  -- `start`, for the conversations until the driver ends, and what it ends with. The keys are loaded as by
  -- `load_tls_keys` of src/peer2.rs, which has the same code.
  unfoldable pub start :
      SharedState
      → PeerOpt files.FilePath
      → Option resolver.Url
      → Option (Conversation codec transport)
      → List (Conversation codec transport)
      → Result quinn.Error (Unit {0})
      → Run (Result (StartError quinn.Error resolver.Error) (Unit {0}))
  unfolding load_tls_keys first start_with run_tasks
  start state options bootstrap_peer reached incoming driver =
      elim (load_tls_keys files options.key options.cert) [
        | fail e ↦ ok (fail (keys e))
        | done (private_keys, cert_chain) ↦ do
          key ← first private_keys
          elim (start_with files quinn resolver options bootstrap_peer cert_chain key) [
            | fail e ↦ ok (fail e)
            | done spawned ↦ do
              ran ← run_tasks codec transport state (is_some bootstrap_peer) reached incoming
              ok (convert quic driver)
          ]
      ]
