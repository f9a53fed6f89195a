-- ===== src/Explain.antt =====
-- crates/graphloom/src/explainability: runs, their persisted envelopes and the in-memory store.
pub mod Types
pub mod Queries
pub mod Store
pub mod LiveHub
pub mod RecorderState
pub mod Recorder
