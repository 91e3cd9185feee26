-- ===== src/Lib.antt =====
-- WorldDat: a peer of a distributed hash table. This library models its core and proves what it
-- does.
--
-- A peer has an id, a 256-bit hash (src/hash.rs). The XOR of two ids is their distance, and
-- `leading_zeros` of it, `distance_rank`, is the bucket of the other peer. A peer map
-- (src/types.rs) keeps the peers in 256 buckets; there are two of them, `PeerMap`, whose buckets
-- are hash maps, and `FlatPeerMap`, whose buckets are slices of one vector. A worker
-- (src/worker.rs) owns a `PeerMap`; it takes messages from its control channel and puts its answers
-- into another channel. The simulator (src/bin/sim.rs) makes workers and carries the messages
-- between them. An older peer (src/peer.rs) has a map, messages and a handler of its own;
-- src/lib.rs does not name it, nor its successor (src/peer2.rs), which gives the requests that it
-- reads to a worker. The program (src/bin/peer.rs) starts ten clients and a server that echoes what
-- they send; it does not use the worker yet.
--
-- Base      lists, machine words, slices, sums, and `Run`, a result or a panic
-- Hash      src/hash.rs: `Blake2Hash`, its order, its XOR, `leading_zeros`, serde
-- Types     src/types.rs: `PeerId`, `Contact`, `Message`, addresses
-- HashMap   `std::collections::HashMap`: an association list; the order of `iter` is a parameter
-- PeerMap   src/types.rs: `Bucket` and `PeerMap`
-- FlatMap   src/types.rs: `FlatPeerMap`
-- Channel   `std::sync::mpsc`: a queue, and whether its ends are alive
-- Worker    src/worker.rs: `WorkerState` and its thread, `WorkerHandle`, `WorkerMessageHandle`
-- Sim       src/bin/sim.rs: `WorkerSim`: the setup, the queue of new workers, the loop of `run`, the
--           messages between workers, `quit`; and the whole simulated network, World
-- Peer      src/peer.rs: the peer before the worker, with a map of its own
-- Peer2     src/peer2.rs: the TLS keys, the setup, the connections, the requests; `escaped`
-- Program   src/bin/peer.rs: the server, the clients and `main`, over the streams of quinn
--
-- A file models what its name says by functions with the names of the code's; its child modules
-- have the proofs, and a module Tests has the examples. A call that may panic returns `Run`; the
-- object that a method changes is an argument and a result. `usize` and `u32` are natural numbers,
-- with the remainder written out where the code computes with them. Bytes are natural numbers, and
-- `IsHash` says that there are 32 of them below 256, which the Rust type says.
--
-- The loops over buckets run by the widths that are left, 255 at first: the code's loop ends at
-- width 256. The loop of a worker thread runs by a number of turns; one more than there are
-- messages is enough, and two more if `quit` is sent; before that `quit` of the simulator lets each
-- thread take any number of turns, and a thread that has ended has no receiver. The loop that
-- collects a worker's messages runs by as many turns as there are.
--
-- Threads are modelled as atomic actions in any order. One of a worker is a turn: it takes a
-- control message and answers it, and nothing else touches the worker's state. One of the
-- simulator's thread is an action of the round of `run`: a step of the queue at any time that may
-- have passed, one message collected, or one delivered. `Step` is either kind, for any worker, and
-- `Reach` a sequence of them from the start of `run`. A delay and the time that has passed are
-- milliseconds. Sim/Heard, Sim/Progress and Sim/Tracked follow the introduction of each worker from
-- its inbox to the worker at the bootstrap address; Sim/Load and Sim/Traffic weigh the messages
-- that are left; Sim/Settling and Sim/Rest lead from any world to one without messages; Sim/InPlay
-- and Sim/Placed follow the workers from the queue into the map. Sim/Schedules runs a given order
-- of actions.
--
-- The program's streams are those of a record `Quic`; `Reliable` says what its exchange relies on:
-- what one end writes until it finishes is what the other end reads, up to the limit. `Transport`
-- and `Link` are the same for the older peer, whose streams go both ways, and `Resolver` finds the
-- address of its bootstrap peer. `Endpoints` has the certificates and endpoints of the program; an
-- endpoint's driver is what it ends with, or that it never ends, and then `main` waits forever.
-- `Stdout` is the standard output, and `Open` says that it stays open. The runtime that `main`
-- builds is an argument. `Files` and `Quinn` are what both old peers call for their setup. What
-- happens to the one of src/peer2.rs while its driver runs is a list of events in any order: the
-- tasks of its streams end on their own, and of its worker there is the control channel, from which
-- the worker takes requests until its thread ends. The tasks of the one of src/peer.rs are run by
-- the call that waits for its driver, so that a panic of one is a panic of `start`.
--
-- Parameters: the digest of the blake2 crate, the serde format, the serializer of messages, the
-- random generator and the cast to bytes, the order of a hash map's iteration, the streams,
-- endpoints, files and certificates of quinn, rustls and rcgen, the standard output and the
-- resolver of addresses; the options that src/peer2.rs takes from the crate's root, which has none.
-- `Message::Raw`, which src/peer2.rs sends and src/types.rs does not have, is the type `Request`.
-- Reading a message with the serializer may panic, as the visitor of src/hash.rs does.
--
-- Not modelled: logging, Debug and base64 output, the thread handle, the command line options of
-- the program, its verifier of certificates; src/proto.rs, which has messages and no operations; of
-- src/peer.rs `run` and that two of its futures run side by side, of which the outgoing one is
-- taken to end first; of src/peer2.rs `Peer::new`, which calls `start` without its arguments, and
-- the end of `run`, where it stops its worker.
pub mod Base
pub mod Channel
pub mod FlatMap
pub mod Hash
pub mod HashMap
pub mod Peer
pub mod Peer2
pub mod PeerMap
pub mod Program
pub mod Sim
pub mod Types
pub mod Worker
