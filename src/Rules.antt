-- ===== src/Rules.antt =====
-- The deterministic rule engines (src/fintech_agent/rules), and what they guarantee together.
pub mod Risk
pub mod Approval
pub mod Idempotency
pub mod SourceOfTruth
pub mod Conflict
pub mod Refund
pub mod TrainTicket
pub mod UtilityBill
pub mod WalletTopup
pub mod FraudAccountLock
pub mod MerchantSettlement
pub mod Guarantees
