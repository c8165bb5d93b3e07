-- ===== src/Peer.antt =====
-- The peer connection of `RtpClient` of server/src/rtp_server/client_rtp.rs.
pub mod Actions
pub mod Candidates
pub mod Client
pub mod Conversion
pub mod Negotiation
pub mod Renegotiation
pub mod Serving
pub mod Setup
pub mod Payloads
pub mod Reuse
mod Tests
pub mod Notifying
