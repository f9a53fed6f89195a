-- ===== src/Init.antt =====
-- crates/graphloom/src/cli/init: the publication of the files of a new project.
pub mod Disk
pub mod Views
pub mod Names
pub mod Rollback
pub mod Moves
pub mod Agree
pub mod Leaves
pub mod Staging
pub mod Undoing
pub mod Recovery
pub mod Plan
pub mod Written
pub mod Jobs
pub mod Published
pub mod Committed
pub mod Transaction
mod Examples
