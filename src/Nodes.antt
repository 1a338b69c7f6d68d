-- ===== src/Nodes.antt =====
-- The nodes of the graph (src/fintech_agent/nodes). A node takes the state and the optional audit
-- logger, and gives back the state with its updates merged in, and the logger.
pub mod Intake
pub mod FetchEvidence
pub mod Conflicts
pub mod Decision
pub mod Approval
pub mod Draft
pub mod Closing
