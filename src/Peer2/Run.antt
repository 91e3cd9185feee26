-- ===== src/Peer2/Run.antt =====
-- src/peer2.rs: when the setup of `run` panics.
use world_dat.Peer2.Quinn.{Quinn}
