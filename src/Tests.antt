-- ===== src/Tests.antt =====
-- The theorems at concrete inputs, over small implementations of the crates.
pub mod Crates
pub mod Server
mod Shared
mod Handshake
mod Client
mod Rooms
mod Runtime
mod Login
mod Network
mod Frontend
mod Chat
mod Representation
