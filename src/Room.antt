-- ===== src/Room.antt =====
-- `Room` of server/src/rtp_server/room.rs: its state, its methods, and what they keep.
pub mod State
pub mod Clients
pub mod Broadcasts
pub mod Invariant
pub mod Shutdown
pub mod Steps
pub mod Identity
pub mod View
pub mod Leave
pub mod Start
pub mod Stop
pub mod Tasks
pub mod Settling
pub mod Names
mod Tests
