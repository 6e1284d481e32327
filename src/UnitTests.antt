-- ===== src/UnitTests.antt =====
-- The unit tests of the repository, translated, with whatever ids and keys they draw, and run on the
-- model.
pub mod Rooms
pub mod Routing
pub mod Auth
pub mod Protocol
