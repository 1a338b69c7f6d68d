-- ===== src/Schemas.antt =====
-- The data that the parts exchange (src/fintech_agent/schemas).
pub mod Enums
pub mod Evidence
pub mod CaseState
