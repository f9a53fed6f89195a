-- ===== src/Storage.antt =====
-- crates/graphloom-storage/src: path.rs, which maps logical names to keys, and storage/memory.rs, the
-- store that keeps objects by key.
pub mod Path
pub mod Memory
mod Examples
