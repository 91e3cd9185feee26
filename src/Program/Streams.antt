-- ===== src/Program/Streams.antt =====
-- src/bin/peer.rs: which streams of a connection the server handles.
use world_dat.Base.{◌≡◌, refl, ap, inl, inr, ◌⊎◌, List, [], ◌∷◌, ◌++◌, map}
use world_dat.Program.Quic.{Quic}
use world_dat.Program.Results.{Result, fail, done}
use world_dat.Program.Server.{ConnectionError, application_closed, other, handle_streams, Streams}

-- What a connection comes to: a close by the application is no error.
abbrev pub outcome : ConnectionError → Result ConnectionError (Unit {0})
outcome application_closed = done tt
outcome other = fail other

module _ (quic : Quic) where
  open quic use {SendStream, RecvStream}

  abbrev pub streams : List (SendStream × RecvStream) → Streams quic
  streams ss = map (λ s. done s) ss

  -- A connection whose streams are followed by an error and by more has its streams before the error
  -- handled, in order, and no later ones. It returns the error, unless the application has closed it;
  -- without an error it has all of its streams handled and returns normally.
  pub handle_streams-outcome :
      (ss : List (SendStream × RecvStream)) (e : ConnectionError) (later : Streams quic)
      → (handle_streams quic (streams ss ++ fail e ∷ later) ≡ (ss, outcome e))
        × (handle_streams quic (streams ss) ≡ (ss, done tt))
  unfolding handle_streams
  handle_streams-outcome [] application_closed later = (refl, refl)
  handle_streams-outcome [] other later = (refl, refl)
  handle_streams-outcome (s ∷ ss) e later =
      let (failed, ended) = handle_streams-outcome ss e later in
      (ap (λ r. (s ∷ r.0, r.1)) failed, ap (λ r. (s ∷ r.0, r.1)) ended)

  -- A connection as the server may meet it: it fails at once, or it has streams up to an error,
  -- or up to its end.
  pub data Meeting : Type 0 where
    refused : ConnectionError → Meeting
    broken : List (SendStream × RecvStream) → ConnectionError → Streams quic → Meeting
    closed : List (SendStream × RecvStream) → Meeting

  abbrev pub incoming : Meeting → Result ConnectionError (Streams quic)
  incoming (refused e) = fail e
  incoming (broken ss e later) = done (streams ss ++ fail e ∷ later)
  incoming (closed ss) = done (streams ss)

  -- The streams that it has before its error, or else all.
  abbrev pub heard : Meeting → List (SendStream × RecvStream)
  heard (refused e) = []
  heard (broken ss e later) = ss
  heard (closed ss) = ss

  -- Any connection is met so.
  pub streams-Meeting :
      (sent : Streams quic)
      → ((ss : List (SendStream × RecvStream)) × (sent ≡ streams ss))
        ⊎ ((ss : List (SendStream × RecvStream)) × (e : ConnectionError) × (later : Streams quic)
            × (sent ≡ streams ss ++ fail e ∷ later))
  streams-Meeting [] = inl ([], refl)
  streams-Meeting (fail e ∷ sent) = inr ([], e, sent, refl)
  streams-Meeting (done s ∷ sent) = elim (streams-Meeting sent) [
    | inl (ss, e) ↦ inl (s ∷ ss, ap (λ r. done s ∷ r) e)
    | inr (ss, e, later, f) ↦ inr (s ∷ ss, e, later, ap (λ r. done s ∷ r) f)
  ]

  pub incoming-Meeting :
      (c : Result ConnectionError (Streams quic)) → (m : Meeting) × (c ≡ incoming m)
  incoming-Meeting (fail e) = (refused e, refl)
  incoming-Meeting (done sent) = elim (streams-Meeting sent) [
    | inl (ss, e) ↦ (closed ss, ap (λ r. done r) e)
    | inr (ss, e, later, f) ↦ (broken ss e later, ap (λ r. done r) f)
  ]
