-- ===== src/Sim/Handshake.antt =====
-- src/bin/sim.rs and src/worker.rs: a new worker and the one at the bootstrap address.
use world_dat.Base.{
  ℕ, ◌+◌, ◌<◌, ◌≡◌, refl, ap, ◌∙◌, true, false, some, List, [], ◌∷◌, ◌++◌, length, length-append,
  All, All-append, Run, ◌>>=◌, expect, Returns, if◌then◌else◌, arith,
}
use world_dat.HashMap
use world_dat.HashMap.{IterationOrder}
use world_dat.PeerMap.Invariant.{Entry}
use world_dat.Sim.{Workers, new_worker, collect, deliver}
use world_dat.Sim.Bootstrap.{new_worker-Introduced}
use world_dat.Sim.Carry.{Running, with_mail, sent_to, deliver-mailed, parcels, collect-parcels}
use world_dat.Sim.World.{rest}
use world_dat.Types.{
  PeerId, SocketAddr, socket_addr_eq, addr_eq, addr_eq_iff, pong, find_peer_response_peer_found,
  id_eq,
}
use world_dat.Types.Distance.{IsPeerId}
use world_dat.Worker.{WorkerState, WorkerMessage, incoming, Turn, ended, waiting, run}
use world_dat.Worker.Handle.{IsValid, knows, outbox}
use world_dat.Worker.Loop.{run-Finishes}
use world_dat.Worker.Queue.{
  inbox, served, ends, learn_all, IsControl, ends-append, served-append, learn_all-append,
}

module _ (order : IterationOrder Entry) (p : PeerId) (addr boot : SocketAddr) where
  -- A new worker is made and runs, what it has sent is collected and delivered, and the worker at the
  -- bootstrap address runs.
  abbrev pub visit : Workers → ℕ → Run Turn
  visit ws n = do
    t ← new_worker p addr (some boot) >>= run order 3
    ws' ← deliver ws (collect 2 addr (rest t)).0
    b ← expect (HashMap.get boot ws')
    run order n b

  -- The worker at the bootstrap address once it has met the new one: it waits, and knows it under its
  -- address; of the others it knows what its earlier messages said.
  pub record Meets (b : WorkerState) (t : Turn) : Type 0 where
    pub final : WorkerState
    pub how : t ≡ waiting final
    pub valid : IsValid final
    pub knowledge :
        (q : PeerId)
        → knows final q
          ≡ (if id_eq p q then some addr else learn_all (knows b) (served (inbox b)) q)

  -- What the new worker has sent, as the control messages that arrive.
  abbrev answers : List WorkerMessage
  answers = incoming addr (pong p) ∷ incoming addr (find_peer_response_peer_found p addr) ∷ []

  sent_to-answers :
      (s : WorkerState)
      → outbox s ≡ (boot, pong p) ∷ (boot, find_peer_response_peer_found p addr) ∷ []
      → sent_to boot (collect 2 addr s).0 ≡ answers
  sent_to-answers s e =
      let there : addr_eq boot boot ≡ true = (addr_eq_iff boot boot).1 refl in
      ap (λ r. sent_to boot r.0) (collect-parcels 2 addr s (omega (arith, ap length e)))
      ∙ ap (λ q. sent_to boot (parcels addr q)) e
      ∙ rw there

  module _ (good : IsPeerId p) where
    meets :
        {b : WorkerState} (n : ℕ)
        → IsValid b
        → All IsControl (inbox b)
        → b.control_receiver.sender_alive ≡ true
        → ends (inbox b) true ≡ false
        → length (inbox b) + 2 < n
        → Returns (run order n (with_mail b answers)) (Meets b)
    meets {b} n v controls alive goes_on h =
        let q : List WorkerMessage = inbox b ++ answers in
        let v' : IsValid (with_mail b answers) = record { map = v.map; listened = v.listened } in
        let (t, ran, f) =
          run-Finishes order n {s = with_mail b answers} v'
            (All-append IsControl (inbox b) answers controls (good, (good, tt)))
            (omega (arith, length-append (inbox b) answers)) in
        (
          t,
          ran,
          record {
            final = f.final;
            how =
                f.how
                ∙ ap (λ e. if ends q e then ended f.final else waiting f.final) alive
                ∙ ap (λ e. if e then ended f.final else waiting f.final)
                    (ends-append (inbox b) answers true goes_on);
            valid = f.valid;
            knowledge = λ x.
                ap (λ k. k x)
                  (f.knowledge
                    ∙ ap (learn_all (knows b)) (served-append (inbox b) answers true goes_on)
                    ∙ learn_all-append (knows b) (served (inbox b)) (served answers));
          },
        )

    -- A new worker meets the worker at the bootstrap address, if that one is valid, runs and has no `quit`
    -- in its inbox: when the new one has run for three turns and what it has sent has been collected and
    -- delivered, the other one, within three turns more than there are messages in its inbox, panics
    -- nowhere, waits, and knows the new one under its address. Of all others it knows what the pongs
    -- that it had before taught it.
    pub visit-Meets :
        (ws : Workers) {b : WorkerState} (n : ℕ)
        → Running ws
        → HashMap.get boot ws ≡ some b
        → IsValid b
        → All IsControl (inbox b)
        → b.control_receiver.sender_alive ≡ true
        → ends (inbox b) true ≡ false
        → length (inbox b) + 2 < n
        → Returns (visit ws n) (Meets b)
    visit-Meets ws {b} n running at_boot v controls alive goes_on h =
        let (t, introduced, i) = new_worker-Introduced order addr boot good 0 in
        let (ws', delivered, get) = deliver-mailed ws (collect 2 addr (rest t)).0 running in
        let sent : sent_to boot (collect 2 addr (rest t)).0 ≡ answers =
          ap (λ u. sent_to boot (collect 2 addr (rest u)).0) i.how
          ∙ sent_to-answers i.final i.sent in
        let there : HashMap.get boot ws' ≡ some (with_mail b answers) =
          get boot ∙ rw (at_boot, sent) in
        let (t', ran, m) = meets n v controls alive goes_on h in
        (t', rw (introduced, ◌>>=◌, delivered, there) ran, m)
