-- ===== src/Schemas/CaseState.antt =====
-- `ExtractedInfo` of src/fintech_agent/schemas/case_state.py, and the records of
-- src/fintech_agent/schemas/actions.py and approval.py that the graph carries. The confidence of an
-- extraction is a float and is left out; the claims are JSON values.
use back_office_fintech.Common.{ℕ, String, Bool, Option, none, some, List, not, false, is_empty}
use back_office_fintech.Common.Value.{Value}
use back_office_fintech.Schemas.Enums.{
  ActionType, ApprovalStatus, IssueType, RiskLevel, ServiceType,
}

pub record ExtractedInfo : Type 0 where
  pub user_id : Option String
  pub transaction_id : Option String
  pub service_type : Option ServiceType
  pub issue_type : Option IssueType
  pub order_id : Option String
  pub bill_code : Option String
  pub customer_code : Option String
  pub phone : Option String
  pub email : Option String
  pub wallet_id : Option String
  pub merchant_id : Option String
  pub merchant_name : Option String
  pub tax_code : Option String
  pub settlement_date : Option String
  pub settlement_cycle : Option String
  pub payout_id : Option String
  pub batch_id : Option String
  pub bank_account_number : Option String
  pub amount_claimed : Option ℕ
  pub language : Option String
  pub extraction_method : Option String
  pub missing_fields : List String
  pub claims : List Value

pub record RecommendedAction : Type 0 where
  pub action_type : ActionType
  pub diagnosis : String
  pub summary : String
  pub risk_level : RiskLevel
  pub evidence_refs : List String
  pub approval_required : Bool

-- The deadline is in seconds.
pub record ApprovalPacket : Type 0 where
  pub case_id : String
  pub proposed_action : ActionType
  pub amount : ℕ
  pub transaction_id : String
  pub user_id : String
  pub reason : String
  pub evidence_summary : List String
  pub risk_level : RiskLevel
  pub rule_version : String
  pub requires_approval : Bool
  pub approval_deadline : Option ℕ
  pub escalate_to : Option String

pub record ApprovalDecision : Type 0 where
  pub case_id : String
  pub approver : String
  pub status : ApprovalStatus
  pub comment : Option String

-- `if x`, on an optional text: it is there and not empty.
abbrev pub is_truthy : Option String → Bool
is_truthy none = false
is_truthy (some s) = not (is_empty s)
