-- ===== src/Room.antt =====
-- server/src/lib.rs: sessions, the registry of voice rooms, and the routing of room messages.
pub mod Session
pub mod Permission
pub mod Registry
pub mod Routing
