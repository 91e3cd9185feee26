-- ===== src/Peer/Session.antt =====
-- src/peer.rs: the futures of a conversation with another peer, over the streams of `quinn`.
use world_dat.Base.{
  ℕ, ◌*◌, Bool, true, false, Option, none, some, List, [], ◌∷◌, Run, ok, panic, ◌>>=◌, expect,
  replicate,
}
use world_dat.Peer.{SharedState, Message, ping, Codec, new, send_message, receive_message}
use world_dat.Types
use world_dat.Types.{PeerId}

-- `Peer::new`: the state that it shares, over the digest of the `blake2` crate.
unfoldable pub new_shared : (List ℕ → List ℕ) → Run SharedState
unfolding Types.new new
new_shared blake2s = do
  id ← Types.new blake2s (replicate 64 0)
  peermap ← new
  ok (record { id = id; peermap = peermap })

-- The streams that the peer reads and writes: what each call's future gives, `none` for its error.
pub record Transport : Type 1 where
  pub Stream : Type 0
  pub write_all : Stream → List ℕ → Option Stream
  pub shutdown : Stream → Option Stream
  pub read_to_end : Stream → ℕ → Option (Stream × List ℕ)

-- `quinn::NewStream`
pub data NewStream (Stream : Type 0) : Type 0 where
  bi : Stream → NewStream Stream
  uni : NewStream Stream

module _ (codec : Codec) (transport : Transport) where
  open transport use {Stream, write_all, shutdown, read_to_end}

  -- `write_all`, then `shutdown`.
  unfoldable pub write_and_close : Stream → List ℕ → Option Stream
  write_and_close stream bytes = elim (write_all stream bytes) [
    | none ↦ none
    | some stream' ↦ shutdown stream'
  ]

  -- The future of `send_message`.
  unfoldable pub send_on : Stream → Message → Run (Option Stream)
  unfolding send_message write_and_close
  send_on stream message = do
    serialized_message ← send_message codec message
    ok (write_and_close stream serialized_message)

  -- The future of `receive_message`.
  unfoldable pub receive_on : Stream → Run (Option Stream)
  unfolding receive_message write_and_close
  receive_on stream = elim (read_to_end stream (1024 * 64)) [
    | none ↦ ok none
    | some (stream', req) ↦ do
      to_do_next ← receive_message codec req
      elim to_do_next [
        | none ↦ ok (shutdown stream')
        | some to_send ↦ ok (write_and_close stream' to_send)
      ]
  ]

  -- `outgoing_stream` of `talk_to_peer`, from what `open_bi` gives.
  unfoldable pub outgoing_stream : SharedState → Option Stream → Run (Option Stream)
  unfolding send_on
  outgoing_stream state opened = do s ← expect opened; send_on s (ping state.id)

  -- `incoming_streams` of `talk_to_peer`: the streams after they have been served, and whether all have
  -- been; `for_each` ends at the first error, which may be one of the connection, `none`.
  unfoldable pub incoming_streams : List (Option (NewStream Stream)) → Run (List Stream × Bool)
  unfolding receive_on
  incoming_streams [] = ok ([], true)
  incoming_streams (none ∷ incoming) = ok ([], false)
  incoming_streams (some uni ∷ incoming) = panic
  incoming_streams (some (bi bi_stream) ∷ incoming) = do
    received ← receive_on bi_stream
    elim received [
      | none ↦ ok ([], false)
      | some stream ↦ do
        (served, complete) ← incoming_streams incoming
        ok (stream ∷ served, complete)
    ]
