-- ===== src/Tracks.antt =====
-- The tracks of `RtpClient` of server/src/rtp_server/client_rtp.rs: what a client sends to the
-- server, and what the server sends to it.
pub mod Receiving
pub mod Handlers
pub mod Reachable
pub mod Handover
pub mod Sending
pub mod Targets
pub mod Live
pub mod Exclusive
pub mod Streams
pub mod SendIo
pub mod ReceiveIo
pub mod Heard
mod Tests
