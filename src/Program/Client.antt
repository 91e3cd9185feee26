-- ===== src/Program/Client.antt =====
-- src/bin/peer.rs: the client, and the messages of `main`.
use world_dat.Base.{ℕ, ◌+◌, ◌-◌, ◌^◌, List, [], ◌∷◌, map, Run, ◌>>=◌}
use world_dat.Program.Quic.{Quic, Stdout}
use world_dat.Program.Results.{unwrap}

-- `format!("This is client {}", i)`, as bytes, for an `i` of one digit.
unfoldable pub client_message : ℕ → List ℕ
client_message i =
    84
    ∷ 104
    ∷ 105
    ∷ 115
    ∷ 32
    ∷ 105
    ∷ 115
    ∷ 32
    ∷ 99
    ∷ 108
    ∷ 105
    ∷ 101
    ∷ 110
    ∷ 116
    ∷ 32
    ∷ (48 + i)
    ∷ []

-- The messages of the clients that `main` starts.
unfoldable pub client_messages : List (List ℕ)
unfolding client_message
client_messages = map client_message (0 ∷ 1 ∷ 2 ∷ 3 ∷ 4 ∷ 5 ∷ 6 ∷ 7 ∷ 8 ∷ 9 ∷ [])

module _ (quic : Quic) where
  open quic use {SendStream, RecvStream, write_all, finish, read_to_end}

  -- `run_client` up to the end of its sending.
  unfoldable pub send_request : SendStream → List ℕ → Run SendStream
  send_request send message = do send' ← unwrap (write_all send message); unwrap (finish send')

  -- The rest of `run_client`: the standard output after it has printed.
  unfoldable pub print_response : (stdout : Stdout) → RecvStream → stdout.Out → Run stdout.Out
  print_response stdout recv out = do
    resp ← unwrap (read_to_end (2 ^ 64 - 1) recv)
    out' ← unwrap (stdout.write_all out resp)
    out'' ← unwrap (stdout.write_all out' (10 ∷ []))
    unwrap (stdout.flush out'')
