-- ===== src/Graph.antt =====
-- The graph and the lists of ready work (internal/server/http_graph.go).
pub mod Ready
pub mod ReadyProofs
pub mod Prune
pub mod Neighbors
pub mod PruneProofs
pub mod Edges
pub mod EdgeProofs
mod Tests
