-- ===== src/Program/Quic.antt =====
-- The streams of the `quinn` crate and the standard output, as src/bin/peer.rs uses them.
use world_dat.Base.{ℕ, ◌≡◌, Bool, true, false, List, ◌++◌, length, leb, if◌then◌else◌}
use world_dat.Program.Results.{Result, fail, done}

-- `read_to_end` takes the limit of the size; each call gives what its future ends with.
pub record Quic : Type 1 where
  pub SendStream : Type 0
  pub RecvStream : Type 0
  pub StreamError : Type 0
  pub write_all : SendStream → List ℕ → Result StreamError SendStream
  pub finish : SendStream → Result StreamError SendStream
  pub read_to_end : ℕ → RecvStream → Result StreamError (List ℕ)

-- The standard output: each call ends with an error or with what the output has become.
pub record Stdout : Type 1 where
  pub Out : Type 0
  pub Error : Type 0
  pub write_all : Out → List ℕ → Result Error Out
  pub flush : Out → Result Error Out

-- An output that stays open: all that is written is shown after what was there.
pub record Open (stdout : Stdout) : Type 0 where
  pub shown : stdout.Out → List ℕ
  pub writes :
      (out : stdout.Out) (bytes : List ℕ)
      → (out' : stdout.Out) × (stdout.write_all out bytes ≡ done out')
        × (shown out' ≡ shown out ++ bytes)
  pub flushes :
      (out : stdout.Out)
      → (out' : stdout.Out) × (stdout.flush out ≡ done out') × (shown out' ≡ shown out)

-- A connection that loses nothing: what is written until `finish` is what the other end reads, if it
-- is not longer than the limit.
pub record Reliable (q : Quic) : Type 0 where
  pub written : q.SendStream → List ℕ
  pub finished : q.SendStream → Bool
  pub other_end : q.SendStream → q.RecvStream
  pub too_long : q.StreamError
  pub writes :
      (s : q.SendStream) (bytes : List ℕ)
      → finished s ≡ false
      → (s' : q.SendStream) × (q.write_all s bytes ≡ done s')
        × (written s' ≡ written s ++ bytes)
        × (finished s' ≡ false)
  pub finishes :
      (s : q.SendStream)
      → finished s ≡ false
      → (s' : q.SendStream) × (q.finish s ≡ done s')
        × (written s' ≡ written s)
        × (finished s' ≡ true)
  pub reads :
      (s : q.SendStream) (limit : ℕ)
      → finished s ≡ true
      → q.read_to_end limit (other_end s)
        ≡ (if leb (length (written s)) limit then done (written s) else fail too_long)
