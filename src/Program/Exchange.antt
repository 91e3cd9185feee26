-- ===== src/Program/Exchange.antt =====
-- src/bin/peer.rs: what a client of the program gets from its server.
use world_dat.Base.{
  ℕ, ◌+◌, ◌-◌, ◌*◌, ◌^◌, ◌≤◌, ◌<◌, ◌≡◌, ap, ◌∙◌, true, false, List, [], ◌∷◌, ◌++◌, length, leb, Run,
  ok, ◌>>=◌, arith, Returns, append_assoc,
}
use world_dat.Program.Client.{client_message, send_request, print_response}
use world_dat.Program.Lossy.{
  IsUtf8, from_utf8_lossy-IsUtf8, from_utf8_lossy-length, from_utf8_lossy-IsUtf8_always,
  ascii_before-IsUtf8, ascii-IsUtf8,
}
use world_dat.Program.Quic.{Quic, Reliable, Stdout, Open}
use world_dat.Program.Results.{fail, done, unwrap}
use world_dat.Program.Utf8.{from_utf8_lossy}
use world_dat.Program.Server.{response, failed_reading, handle_request}

-- "Received: "
abbrev pub received : List ℕ
received = 82 ∷ 101 ∷ 99 ∷ 101 ∷ 105 ∷ 118 ∷ 101 ∷ 100 ∷ 58 ∷ 32 ∷ []

module _ (quic : Quic) (link : Reliable quic) (stdout : Stdout) (open_out : Open stdout) where
  open quic use {SendStream, RecvStream, write_all, finish, read_to_end}

  -- A client and the server on the two ends of a new stream: the standard output after it.
  abbrev pub exchange : SendStream → SendStream → List ℕ → stdout.Out → Run stdout.Out
  exchange client server message out = do
    asked ← send_request quic client message
    answered ← unwrap (handle_request quic (server, link.other_end asked))
    print_response quic stdout (link.other_end answered) out

  -- The output shows this and a line feed behind what it has shown.
  abbrev pub Prints : stdout.Out → List ℕ → stdout.Out → Type 0
  Prints out bytes out' = open_out.shown out' ≡ open_out.shown out ++ (bytes ++ 10 ∷ [])

  -- A stream on which nothing has been sent.
  pub record Unused (s : SendStream) : Type 0 where
    pub empty : link.written s ≡ []
    pub unfinished : link.finished s ≡ false

  -- A stream on which this has been sent.
  pub record Carries (bytes : List ℕ) (s : SendStream) : Type 0 where
    pub wrote : link.written s ≡ bytes
    pub complete : link.finished s ≡ true

  sends :
      (s : SendStream) (bytes : List ℕ)
      → Unused s
      → (mid : SendStream) × (s' : SendStream) × (write_all s bytes ≡ done mid)
        × (finish mid ≡ done s')
        × Carries bytes s'
  sends s bytes u =
      let (mid, wrote, sofar, open_) = link.writes s bytes u.unfinished in
      let (s', finished, kept, closed) = link.finishes mid open_ in
      (
        mid,
        s',
        wrote,
        finished,
        record { wrote = kept ∙ sofar ∙ ap (λ p. p ++ bytes) u.empty; complete = closed },
      )

  reads_all :
      (s : SendStream) (bytes : List ℕ) (limit : ℕ)
      → Carries bytes s
      → length bytes ≤ limit
      → read_to_end limit (link.other_end s) ≡ done bytes
  reads_all s bytes limit c h =
      let fits : leb (length bytes) limit ≡ true = ground (arith, h) in
      link.reads s limit c.complete ∙ rw (c.wrote, fits)

  reads_none :
      (s : SendStream) (bytes : List ℕ) (limit : ℕ)
      → Carries bytes s
      → limit < length bytes
      → read_to_end limit (link.other_end s) ≡ fail link.too_long
  reads_none s bytes limit c h =
      let long : leb (length bytes) limit ≡ false = ground (arith, h) in
      link.reads s limit c.complete ∙ rw (c.wrote, long)

  send_request-Carries :
      (client : SendStream) (message : List ℕ)
      → Unused client
      → (asked : SendStream) × (send_request quic client message ≡ ok asked) × Carries message asked
  unfolding send_request
  send_request-Carries client message u =
      let (mid, s, wrote, finished, c) = sends client message u in
      (s, rw (send_request, wrote, finished), c)

  handle_request-Carries :
      (server asked : SendStream) (message : List ℕ)
      → Unused server
      → Carries message asked
      → length message ≤ 64 * 1024
      → (answered : SendStream) × (handle_request quic (server, link.other_end asked)
          ≡ done answered)
        × Carries (response message) answered
  unfolding handle_request
  handle_request-Carries server asked message u c h =
      let (mid, s, wrote, finished, c') = sends server (response message) u in
      (s, rw (handle_request, reads_all asked message (64 * 1024) c h, wrote, finished), c')

  response-length : (message : List ℕ) → length (response message) ≤ 10 + 3 * length message
  unfolding response
  response-length message = omega (arith, from_utf8_lossy-length message)

  print_response-Prints :
      (answered : SendStream) (bytes : List ℕ) (out : stdout.Out)
      → Carries bytes answered
      → length bytes ≤ 2 ^ 64 - 1
      → Returns (print_response quic stdout (link.other_end answered) out) (Prints out bytes)
  unfolding print_response
  print_response-Prints answered bytes out c h =
      let (mid, wrote, more) = open_out.writes out bytes in
      let (fed, wrote', more') = open_out.writes mid (10 ∷ []) in
      let (out', flushed, same) = open_out.flushes fed in
      (
        out',
        rw (
          print_response,
          reads_all answered bytes (2 ^ 64 - 1) c h,
          ◌>>=◌,
          wrote,
          ◌>>=◌,
          wrote',
          ◌>>=◌,
          flushed,
        ),
        same
            ∙ more'
            ∙ ap (λ p. p ++ 10 ∷ []) more
            ∙ append_assoc (open_out.shown out) bytes (10 ∷ []),
      )

  response-IsUtf8 : (message : List ℕ) → IsUtf8 (response message)
  unfolding response
  response-IsUtf8 message =
      ascii_before-IsUtf8 received (from_utf8_lossy message) (omega arith)
        (from_utf8_lossy-IsUtf8_always message)

  -- On a link that loses nothing and with an output that stays open, a client that sends any request of at
  -- most 64 KiB on a new stream panics nowhere, is answered by the server, and prints the response
  -- and a line feed. The response is valid UTF-8, even if the request is not, and has at most ten
  -- bytes more than three times those of the request.
  pub exchange-response :
      (client server : SendStream) (message : List ℕ) (out : stdout.Out)
      → Unused client
      → Unused server
      → length message ≤ 64 * 1024
      → Returns (exchange client server message out) (Prints out (response message))
        × IsUtf8 (response message)
        × (length (response message) ≤ 10 + 3 * length message)
  exchange-response client server message out u v h =
      let (asked, asks, c) = send_request-Carries client message u in
      let (answered, answers, d) = handle_request-Carries server asked message v c h in
      let short = response-length message in
      let (out', prints, shows) =
        print_response-Prints answered (response message) out d (omega (arith, short)) in
      ((out', rw (asks, ◌>>=◌, answers) prints, shows), response-IsUtf8 message, short)

  -- On a link that loses nothing and with an output that stays open, a client that sends a request of at most
  -- 64 KiB of valid UTF-8 on a new stream panics nowhere, is answered by the server, and prints
  -- "Received: ", the request and a line feed.
  pub exchange-received :
      (client server : SendStream) (message : List ℕ) (out : stdout.Out)
      → Unused client
      → Unused server
      → length message ≤ 64 * 1024
      → IsUtf8 message
      → Returns (exchange client server message out) (Prints out (received ++ message))
  unfolding response
  exchange-received client server message out u v h good =
      let (out', runs, shows) = (exchange-response client server message out u v h).0 in
      (
        out',
        runs,
        shows
            ∙ ap (λ m. open_out.shown out ++ ((received ++ m) ++ 10 ∷ []))
                (from_utf8_lossy-IsUtf8 good),
      )

  -- Each of the ten clients that `main` starts prints, on a link that loses nothing and with an output that
  -- stays open, "Received: This is client", its number and a line feed, and panics nowhere.
  pub exchange-client_message :
      (client server : SendStream) (i : ℕ) (out : stdout.Out)
      → Unused client
      → Unused server
      → i < 10
      → Returns
          (exchange client server (client_message i) out)
          (Prints out (received ++ client_message i))
  unfolding client_message
  exchange-client_message client server i out u v h =
      exchange-received client server (client_message i) out u v (omega arith)
        (ascii-IsUtf8 (client_message i) (omega (arith, h)))

  -- On a link that loses nothing, a client sends a request of more than 64 KiB without an error, and the
  -- server fails to read it.
  pub handle_request_long :
      (client server : SendStream) (message : List ℕ)
      → Unused client
      → 64 * 1024 < length message
      → (asked : SendStream) × (send_request quic client message ≡ ok asked)
        × (handle_request quic (server, link.other_end asked) ≡ fail failed_reading)
  unfolding handle_request
  handle_request_long client server message u h =
      let (asked, asks, c) = send_request-Carries client message u in
      (asked, asks, rw (handle_request, reads_none asked message (64 * 1024) c h))
