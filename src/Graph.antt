-- ===== src/Graph.antt =====
-- crates/graphloom/src/operations/graph: rows of the graph tables, the merge of extracted rows and
-- the final tables. The floating-point weight of a relationship is a type parameter.
pub mod Rows
pub mod Group
pub mod Merge
pub mod Finalize
mod Examples
