-- ===== src/Graph.antt =====
-- The dependency graph: server/src/services/graph.
pub mod Row
pub mod Traverse
pub mod Inference
pub mod External
pub mod Builder
pub mod Service
