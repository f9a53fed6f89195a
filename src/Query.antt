-- ===== src/Query.antt =====
-- crates/graphloom/src/query: the parts of the query methods that keep a state of their own.
pub mod Drift
pub mod Concurrency
pub mod Context
