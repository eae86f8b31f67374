-- ===== src/Graph.antt =====
-- core/src/graph.rs: the directed weighted graph that walks are drawn on.
pub mod Node
pub mod Edges
pub mod Walks
