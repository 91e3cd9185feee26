-- ===== src/Sim/Quit.antt =====
-- src/bin/sim.rs: `quit`, which waits for all workers.
use world_dat.Base.{
  ℕ, suc, ◌<◌, ◌≡◌, refl, ◌∙◌, true, false, some, arith, List, [], ◌∷◌, length, All, ◌>>=◌, Returns,
}
use world_dat.HashMap.{IterationOrder}
use world_dat.HashMap.Laws.{All-arrange}
use world_dat.PeerMap.Invariant.{Entry}
use world_dat.Sim.{WorkerSim, quit, quit_each}
use world_dat.Types.{SocketAddr}
use world_dat.Worker.{WorkerState, Turn, ended, stop}
use world_dat.Worker.Handle.{IsValid}
use world_dat.Worker.Queue.{inbox, ends, IsControl}
use world_dat.Worker.Stop.{Stops, stop-Stops}
use world_dat.Worker.Turns.{Proceeds, run-Proceeds}

-- A worker that runs, with a sender, and with fewer messages in its inbox than `n` by more than one, none
-- of them a `quit`.
pub record Serving (n : ℕ) (e : SocketAddr × WorkerState) : Type 0 where
  pub valid : IsValid e.1
  pub runs : e.1.control_receiver.receiver_alive ≡ true
  pub sends : e.1.control_receiver.sender_alive ≡ true
  pub going : ends (inbox e.1) true ≡ false
  pub controls : All IsControl (inbox e.1)
  pub short : suc (length (inbox e.1)) < n

-- The threads have ended, each as its worker's `quit` leaves it.
abbrev pub AllStopped : List (SocketAddr × WorkerState) → List Turn → Type 0
AllStopped [] [] = Unit
AllStopped [] (t ∷ ts) = ⊥
AllStopped (e ∷ es) [] = ⊥
AllStopped (e ∷ es) (t ∷ ts) =
    ((final : WorkerState) × (t ≡ ended final) × Stops e.1 final) × AllStopped es ts

module _ (entries : IterationOrder Entry) (before : SocketAddr → ℕ) (n : ℕ) where
  stop-Proceeds :
      {s s' : WorkerState}
      → Proceeds s (inbox s) s'
      → suc (length (inbox s)) < n
      → Returns
          (stop entries n s')
          (λ r. (final : WorkerState) × (r ≡ some (ended final)) × Stops s final)
  stop-Proceeds p short =
      let (r, stopped, (final, how, f)) =
        stop-Stops entries n p.valid p.runs p.controls (omega (arith, p.fewer, short)) in
      (
        r,
        stopped,
        (
          final,
          how,
          record {
            valid = f.valid;
            same_id = f.same_id ∙ p.same_id;
            knowledge = f.knowledge ∙ p.knowledge;
            answered = f.answered ∙ p.answered;
          },
        ),
      )

  quit_each-AllStopped :
      (es : List (SocketAddr × WorkerState))
      → All (Serving n) es
      → Returns (quit_each entries before n es) (AllStopped es)
  unfolding quit_each
  quit_each-AllStopped [] h = ([], refl, tt)
  quit_each-AllStopped (e ∷ es) h =
      let (t, turns, p) =
        run-Proceeds entries (before e.0) (inbox e.1) h.0.valid refl h.0.runs h.0.sends h.0.controls
          h.0.going in
      let (r, stopped, (final, how, s)) = stop-Proceeds p h.0.short in
      let (ts, rest, k) = quit_each-AllStopped es h.1 in
      (
        ended final ∷ ts,
        rw (quit_each, turns, ◌>>=◌, stopped, ◌>>=◌, how, rest),
        ((final, refl, s), k),
      )

  -- `quit` with valid workers that run, with only ids of 32 bytes and no `quit` in their inboxes, panics
  -- nowhere, however many turns each thread takes before its own `quit` is sent. It ends the threads
  -- of all workers, in the order of `drain`, if each may take at least two turns more after that than
  -- there were messages in its inbox at first. Each has then served all of its inbox: it knows what
  -- the pongs taught, in order, and has sent one pong for each ping.
  pub quit-AllStopped :
      {Rand64 : Type 0} (order : IterationOrder (SocketAddr × WorkerState)) (sim : WorkerSim Rand64)
      → All (Serving n) sim.workers
      → Returns (quit order entries before n sim) (AllStopped (order.arrange sim.workers))
  unfolding quit
  quit-AllStopped order sim h =
      quit_each-AllStopped (order.arrange sim.workers) (All-arrange order (Serving n) sim.workers h)
