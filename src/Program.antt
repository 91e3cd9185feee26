-- ===== src/Program.antt =====
-- src/bin/peer.rs: the program, ten clients and a server that echoes their requests.
pub mod Results
pub mod Quic
pub mod Utf8
pub mod Lossy
pub mod Server
pub mod Client
pub mod Exchange
pub mod Streams
pub mod Endpoint
pub mod Config
pub mod Main
pub mod Ends
mod Tests
