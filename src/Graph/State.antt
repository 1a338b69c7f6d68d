-- ===== src/Graph/State.antt =====
-- `AgentState` of src/fintech_agent/graph/state.py. The dictionary has no key at first; a key that
-- every reader reads with the same default (`[]`, `False`, 0, and 3 for `max_retries`) is a plain
-- field that holds that default while the key is absent, and any other key is an `Option`.
use back_office_fintech.Common.{ℕ, String, Bool, false, Option, none, List, []}
use back_office_fintech.Common.Dict.{Dict}
use back_office_fintech.Common.Value.{Value}
use back_office_fintech.Claims.{ClaimVerificationSummary}
use back_office_fintech.Schemas.Enums.{ApprovalStatus, CaseStatus}
use back_office_fintech.Schemas.Evidence.{EvidenceBundle, EvidenceConflict}
use back_office_fintech.Schemas.CaseState.{
  ApprovalDecision, ApprovalPacket, ExtractedInfo, RecommendedAction,
}

-- The dictionary `rule_decision`.
pub record RuleDecision : Type 0 where
  pub action : String
  pub diagnosis : String
  pub approval_required : Bool

pub record AgentState : Type 0 where
  pub case_id : Option String
  pub raw_complaint : Option String
  pub user_id : Option String
  pub extracted_info : Option ExtractedInfo
  pub missing_info : List String
  pub evidence_bundle : Option EvidenceBundle
  pub tool_results : Dict String
  pub selected_workflow : Option String
  pub conflicts : List EvidenceConflict
  pub has_conflict : Bool
  pub claim_verification_summary : Option ClaimVerificationSummary
  pub rule_decision : Option RuleDecision
  pub recommended_action : Option RecommendedAction
  pub approval_packet : Option ApprovalPacket
  pub approval_decision : Option ApprovalDecision
  pub approval_status : Option ApprovalStatus
  pub approval_required : Bool
  pub draft_output : Option (Dict Value)
  pub generated_response : Option Value
  pub resolution_ticket : Option Value
  pub status : Option CaseStatus
  pub errors : List String
  pub retry_count : ℕ
  pub max_retries : ℕ
  pub audit_event_ids : List String
  pub correlation_id : Option String

-- The empty dictionary.
abbrev pub empty_state : AgentState
empty_state = record {
  case_id = none;
  raw_complaint = none;
  user_id = none;
  extracted_info = none;
  missing_info = [];
  evidence_bundle = none;
  tool_results = [];
  selected_workflow = none;
  conflicts = [];
  has_conflict = false;
  claim_verification_summary = none;
  rule_decision = none;
  recommended_action = none;
  approval_packet = none;
  approval_decision = none;
  approval_status = none;
  approval_required = false;
  draft_output = none;
  generated_response = none;
  resolution_ticket = none;
  status = none;
  errors = [];
  retry_count = 0;
  max_retries = 3;
  audit_event_ids = [];
  correlation_id = none;
}
