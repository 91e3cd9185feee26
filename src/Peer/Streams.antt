-- ===== src/Peer/Streams.antt =====
-- src/peer.rs: what two peers write to each other, and when a peer stops to listen.
use world_dat.Base.{
  ℕ, ◌*◌, ◌≤◌, ◌≡◌, refl, sym, subst, ap, ◌∙◌, Bool, true, false, Option, none, some, List, [], ◌∷◌,
  ◌++◌, map, length, ok, ◌>>=◌,
}
use world_dat.Peer.{SharedState, ping, pong, Codec}
use world_dat.Peer.Session.{
  Transport, NewStream, bi, uni, write_and_close, send_on, receive_on, outgoing_stream,
  incoming_streams,
}
use world_dat.Peer.Talk.{RoundTrips, receive_message-send_message}

-- A connection that loses nothing: what one end writes until it is shut down is what the other end
-- reads, if it is not longer than the limit; the other end has then written nothing yet.
pub record Link (transport : Transport) : Type 0 where
  pub written : transport.Stream → List ℕ
  pub closed : transport.Stream → Bool
  pub other_end : transport.Stream → transport.Stream
  pub writes :
      (s : transport.Stream) (bytes : List ℕ)
      → closed s ≡ false
      → (s' : transport.Stream) × (transport.write_all s bytes ≡ some s')
        × (written s' ≡ written s ++ bytes)
        × (closed s' ≡ false)
  pub closes :
      (s : transport.Stream)
      → closed s ≡ false
      → (s' : transport.Stream) × (transport.shutdown s ≡ some s')
        × (written s' ≡ written s)
        × (closed s' ≡ true)
  pub reads :
      (s : transport.Stream) (limit : ℕ)
      → closed s ≡ true
      → length (written s) ≤ limit
      → (s' : transport.Stream) × (transport.read_to_end (other_end s) limit ≡ some (s', written s))
        × (written s' ≡ [])
        × (closed s' ≡ false)

module _ (codec : Codec) (transport : Transport) (link : Link transport) where
  open transport use {Stream}

  -- A stream on which this has been written, before it was shut down.
  pub record Holds (bytes : List ℕ) (s : Stream) : Type 0 where
    pub wrote : link.written s ≡ bytes
    pub complete : link.closed s ≡ true

  write_and_close-Holds :
      (s : Stream) (bytes : List ℕ)
      → link.written s ≡ []
      → link.closed s ≡ false
      → (s' : Stream) × (write_and_close codec transport s bytes ≡ some s') × Holds bytes s'
  unfolding write_and_close
  write_and_close-Holds s bytes e open_ =
      let (mid, run, wrote, still) = link.writes s bytes open_ in
      let (s', run', kept, complete) = link.closes mid still in
      (
        s',
        rw (write_and_close, run, run'),
        record { wrote = kept ∙ wrote ∙ ap (λ p. p ++ bytes) e; complete = complete },
      )

  -- On a link that loses nothing, and with a serializer that reads back the ping and writes it in at most
  -- 64 KiB, a peer writes a ping with its own id on a new stream, and the other peer, which serves that
  -- stream, writes back a pong with the id of the first peer, whatever its own id is. Neither panics.
  pub incoming_streams-pong :
      (state : SharedState) (s : Stream)
      → link.written s ≡ []
      → link.closed s ≡ false
      → RoundTrips codec (ping state.id)
      → length (codec.to_vec (ping state.id)) ≤ 1024 * 64
      → (asked : Stream) × (answered : Stream) × (outgoing_stream codec transport state (some s)
          ≡ ok (some asked))
        × Holds (codec.to_vec (ping state.id)) asked
        × (incoming_streams codec transport (some (bi (link.other_end asked)) ∷ [])
            ≡ ok (answered ∷ [], true))
        × Holds (codec.to_vec (pong state.id)) answered
  unfolding outgoing_stream send_on incoming_streams receive_on
  incoming_streams-pong state s e open_ trips short =
      let (sends, replies) = receive_message-send_message codec (ping state.id) trips in
      let (asked, asks, h) = write_and_close-Holds s (codec.to_vec (ping state.id)) e open_ in
      let small : length (link.written asked) ≤ 1024 * 64 =
        subst (λ b. length b ≤ 1024 * 64) (sym h.wrote) short in
      let (mid, reads, fresh, open') = link.reads asked (1024 * 64) h.complete small in
      let (answered, answers, k) =
        write_and_close-Holds mid (codec.to_vec (pong state.id)) fresh open' in
      let first : outgoing_stream codec transport state (some s) ≡ ok (some asked) =
        rw (outgoing_stream, send_on, sends, ◌>>=◌, asks) in
      let served : receive_on codec transport (link.other_end asked) ≡ ok (some answered) =
        rw (receive_on, reads, h.wrote, replies, ◌>>=◌, answers) in
      (asked, answered, first, h, rw (incoming_streams, served, ◌>>=◌), k)

module _ (codec : Codec) (transport : Transport) where
  open transport use {Stream}

  -- Streams that are served, each with what it is afterwards.
  abbrev pub Served : List (Stream × Stream) → Type 0
  Served [] = Unit
  Served ((s, s') ∷ ss) = (receive_on codec transport s ≡ ok (some s')) × Served ss

  -- A stream that ends in an error, not a panic, or an error of the connection.
  abbrev pub Fails : Option (NewStream Stream) → Type 0
  Fails none = Unit
  Fails (some uni) = ⊥
  Fails (some (bi s)) = receive_on codec transport s ≡ ok none

  -- `incoming_streams` serves the streams in order up to the first failure, and then ends: the streams
  -- behind that one are not served, and none of them makes it panic. Without a failure it serves all
  -- of them.
  pub incoming_streams-Served :
      (ss : List (Stream × Stream)) (bad : Option (NewStream Stream))
      (later : List (Option (NewStream Stream)))
      → Served ss
      → Fails bad
      → (incoming_streams codec transport (map (λ p. some (bi p.0)) ss ++ bad ∷ later)
          ≡ ok (map (λ p. p.1) ss, false))
        × (incoming_streams codec transport (map (λ p. some (bi p.0)) ss)
            ≡ ok (map (λ p. p.1) ss, true))
  unfolding incoming_streams
  incoming_streams-Served [] none later h f = (refl, refl)
  incoming_streams-Served [] (some uni) later h f = absurd f
  incoming_streams-Served [] (some (bi bad)) later h f = (rw (incoming_streams, f, ◌>>=◌), refl)
  incoming_streams-Served ((s, s') ∷ ss) bad later h f =
      let (fails, ends) = incoming_streams-Served ss bad later h.1 f in
      (
        rw (incoming_streams, h.0, ◌>>=◌, fails, ◌>>=◌),
        rw (incoming_streams, h.0, ◌>>=◌, ends, ◌>>=◌),
      )
