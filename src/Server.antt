-- ===== src/Server.antt =====
-- `RtpServer` of server/src/rtp_server/server.rs: rooms, join tokens, and the requests of clients.
pub mod State
pub mod Rooms
pub mod Sessions
pub mod Requests
pub mod Offers
pub mod Phases
pub mod Uninterrupted
pub mod KeptTokens
pub mod Interleaving
pub mod FewerTokens
pub mod Admissions
pub mod Late
pub mod Ending
pub mod InterleavedRooms
pub mod Touches
pub mod Steps
pub mod Tokens
pub mod Joining
pub mod Issuing
pub mod Closing
mod Tests
mod InterleavingTests
