-- ===== src/Nodes/FetchEvidence.antt =====
-- src/fintech_agent/nodes/fetch_evidence.py: the evidence of a case, tool by tool.
mod Steps
mod Transactions
mod Fraud
mod Merchant
unfoldable pub use Steps.*
unfoldable pub use Transactions.*
unfoldable pub use Fraud.*
unfoldable pub use Merchant.*
use back_office_fintech.Common.{Option, none, some, Bool, true, false}
use back_office_fintech.Schemas.Enums.{ServiceType}
use back_office_fintech.Schemas.CaseState.{ExtractedInfo}
use back_office_fintech.Audit.{AuditLogger}
use back_office_fintech.Graph.State.{AgentState}
use back_office_fintech.Graph.Services.{Services}

abbrev service_of : Option ExtractedInfo → Option ServiceType
service_of none = none
service_of (some x) = x.service_type

fetch_by_service :
    Services
    → AgentState
    → Option AuditLogger
    → Option ServiceType
    → AgentState × Option AuditLogger
fetch_by_service services s audit (some ServiceType.account_security) =
    fetch_fraud_evidence services s audit
fetch_by_service services s audit (some ServiceType.merchant_settlement) =
    fetch_merchant_evidence services s audit
fetch_by_service services s audit _ = fetch_transaction_evidence services s audit

unfoldable pub fetch_evidence :
    Services → AgentState → Option AuditLogger → AgentState × Option AuditLogger
unfolding fetch_by_service
fetch_evidence services s audit = fetch_by_service services s audit (service_of s.extracted_info)
