-- ===== src/Collections.antt =====
-- The standard library's `HashSet` and `HashMap`, as far as the server uses them.
-- A set is the list of its elements and a map the list of its entries, in the order in which an
-- iterator of it hands them out; that order is unspecified, and no theorem rests on it.
pub mod Set
pub mod Map
