-- ===== src/Shared.antt =====
-- shared/src/lib.rs: the wire contract of client and server. Each part has its definitions in a
-- file here and its theorems below that file.
pub mod Uid
pub mod Content
pub mod Payload
pub mod Messages
pub mod Wire
pub mod Json
