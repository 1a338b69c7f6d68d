-- ===== src/Graph.antt =====
-- The LangGraph workflow (src/fintech_agent/graph): its state, its nodes and its edges.
pub mod State
pub mod Services
pub mod Edges
