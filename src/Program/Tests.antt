-- ===== src/Program/Tests.antt =====
-- src/bin/peer.rs: the theorems at a link that keeps what is written in a list.
use world_dat.Base.{
  none, some, Returns, ◌↔◌, All, ◌≤◌, ℕ, ◌≡◌, ◌+◌, ◌*◌, refl, Bool, true, false, List, [], ◌∷◌,
  ◌++◌, length, leb, ok, replicate, if◌then◌else◌, arith,
}
use world_dat.Program.Endpoint.{Endpoints, Driver}
use world_dat.Program.Ends.{Serves, IsBound, main_returns}
use world_dat.Program.Main.{main, returned, waits_forever}
use world_dat.Types.{SocketAddr}
use world_dat.Types.Samples.{home}
use world_dat.Program.Exchange.{
  received, exchange, Prints, Unused, exchange-received, exchange-response,
}
use world_dat.Program.Lossy.{IsUtf8, ascii-IsUtf8}
use world_dat.Program.Quic.{Quic, Reliable, Stdout, Open}
use world_dat.Program.Results.{Result, fail, done}
use world_dat.Program.Server.{response, handle_streams, ConnectionError, Streams, other}
use world_dat.Program.Streams.{outcome, streams, handle_streams-outcome}
use world_dat.Program.Utf8.{from_utf8_lossy}

-- A valid character, one that is cut off, and a byte that starts none.
lossy_test :
    from_utf8_lossy (195 ∷ 169 ∷ 226 ∷ 130 ∷ 65 ∷ 255 ∷ [])
    ≡ 195 ∷ 169 ∷ 239 ∷ 191 ∷ 189 ∷ 65 ∷ 239 ∷ 191 ∷ 189 ∷ []
unfolding from_utf8_lossy
lossy_test = refl

-- What has been written, and whether the end has been.
abbrev Wire : Type 0
Wire = List ℕ × Bool

abbrev wires : Quic
wires = record {
  SendStream = Wire;
  RecvStream = Wire;
  StreamError = Unit;
  write_all = λ s bytes. done (s.0 ++ bytes, s.1);
  finish = λ s. done (s.0, true);
  read_to_end = λ limit s. if leb (length s.0) limit then done s.0 else fail tt;
}

abbrev link : Reliable wires
link = record {
  written = λ s. s.0;
  finished = λ s. s.1;
  other_end = λ s. s;
  too_long = tt;
  writes = λ s bytes h. (_, refl, refl, h);
  finishes = λ s h. (_, refl, refl, refl);
  reads = λ s limit h. refl;
}

abbrev unused : Wire
unused = ([], false)

-- What has been printed.
abbrev stdout : Stdout
stdout = record {
  Out = List ℕ;
  Error = Unit {0};
  write_all = λ out bytes. done (out ++ bytes);
  flush = λ out. done out;
}

abbrev open_out : Open stdout
open_out = record {
  shown = λ out. out;
  writes = λ out bytes. (_, refl, refl);
  flushes = λ out. (_, refl, refl);
}

unused-Unused : Unused wires link stdout open_out unused
unused-Unused = record { empty = refl; unfinished = refl }

exchange-received_example :
    Returns
      (exchange wires link stdout open_out unused unused (72 ∷ 105 ∷ []) (33 ∷ []))
      (Prints wires link stdout open_out (33 ∷ []) (received ++ 72 ∷ 105 ∷ []))
exchange-received_example =
    exchange-received wires link stdout open_out unused unused (72 ∷ 105 ∷ []) (33 ∷ [])
      unused-Unused unused-Unused (omega arith) (ascii-IsUtf8 (72 ∷ 105 ∷ []) (omega arith))

abbrev long_message : List ℕ
long_message = replicate (64 * 1024 + 1) 0

handle_streams-outcome_example :
    (handle_streams wires
        (streams wires ((unused, unused) ∷ []) ++ fail other ∷ done (unused, unused) ∷ [])
      ≡ ((unused, unused) ∷ [], outcome other))
    × (handle_streams wires (streams wires ((unused, unused) ∷ []))
        ≡ ((unused, unused) ∷ [], done tt))
handle_streams-outcome_example =
    handle_streams-outcome wires ((unused, unused) ∷ []) other (done (unused, unused) ∷ [])

abbrev met : Result ConnectionError (Streams wires)
met = done (done (unused, unused) ∷ fail other ∷ done (unused, unused) ∷ [])

exchange-response_example :
    Returns
      (exchange wires link stdout open_out unused unused (255 ∷ []) [])
      (Prints wires link stdout open_out [] (response (255 ∷ [])))
    × IsUtf8 (response (255 ∷ []))
    × (length (response (255 ∷ [])) ≤ 10 + 3 * 1)
exchange-response_example =
    exchange-response wires link stdout open_out unused unused (255 ∷ []) [] unused-Unused
      unused-Unused (omega arith)

-- An endpoint that always works.
abbrev endpoints : Endpoints wires
endpoints = record {
  SelfSigned = Unit {0};
  PrivateKey = List ℕ;
  Certificate = List ℕ;
  ServerConfig = List ℕ;
  Endpoint = Unit {0};
  Connection = SocketAddr;
  Error = Unit {0};
  generate_simple_self_signed = λ names. done tt;
  serialize_der = λ c. done (1 ∷ []);
  serialize_private_key_der = λ c. 2 ∷ [];
  private_key_from_der = λ der. done der;
  certificate_from_der = λ der. done der;
  certificate = λ certs key. done key;
  bind = λ config addr. done (some (done tt));
  connect = λ endpoint addr name. done (done addr);
  open_bi = λ connection. done (unused, unused);
}

abbrev built : Result (Unit {0}) (Unit {0})
built = done tt

-- Two clients, of whose drivers one fails.
abbrev clients : List (Result (Unit {0}) (Driver (Unit {0})))
clients = done (some (fail tt)) ∷ done (some (done tt)) ∷ []

main_returns_example :
    (main endpoints built home clients ≡ ok returned)
    ↔ ((built ≡ done tt) × All (IsBound endpoints) clients × Serves endpoints home)
main_returns_example = main_returns endpoints built home clients

main_test : main endpoints built home clients ≡ ok returned
unfolding main
main_test = refl

-- The driver of the second client never ends.
main_waits_test :
    main endpoints built home (done (some (fail tt)) ∷ done none ∷ []) ≡ ok waits_forever
unfolding main
main_waits_test = refl
