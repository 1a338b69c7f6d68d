-- ===== src/Nodes/Approval.antt =====
-- src/fintech_agent/nodes/approval_gate.py.
use back_office_fintech.Common.{
  String, true, Option, none, some, [], ◌∷◌, ◌+◌, is_empty, if◌then◌else◌,
}
use back_office_fintech.Common.Text.{concat, show_ℕ, text_or_empty}
use back_office_fintech.Common.Value.{Value, fields_of, nat}
use back_office_fintech.Schemas.Enums.{
  ActionType, ApprovalStatus, AuditEventType, CaseStatus, RiskLevel, action_type_value,
  action_type_of_value, risk_level_value,
}
use back_office_fintech.Schemas.CaseState.{ApprovalPacket, ExtractedInfo, RecommendedAction}
use back_office_fintech.Audit.{AuditLogger, EventSpec, log_if}
use back_office_fintech.Graph.State.{AgentState, RuleDecision}
use back_office_fintech.Graph.Services.{Services}
use back_office_fintech.Nodes.Intake.{or_else}
use back_office_fintech.Nodes.Decision.{debit_of}

abbrev pub transaction_or_unknown : Option ExtractedInfo → String
transaction_or_unknown none = "UNKNOWN"
transaction_or_unknown (some x) = or_else x.transaction_id "UNKNOWN"

abbrev risk_of : Option RecommendedAction → RiskLevel
risk_of none = RiskLevel.high
risk_of (some a) = a.risk_level

-- `rule_decision.get("action", "manual_review")` and its like, on a dictionary that may be empty.
abbrev decided_action : Option RuleDecision → String
decided_action none = "manual_review"
decided_action (some d) = d.action

abbrev decided_reason : Option RuleDecision → String
decided_reason none = "unknown"
decided_reason (some d) = d.diagnosis

abbrev decided_note : Option RuleDecision → String
decided_note none = ""
decided_note (some d) = d.diagnosis

-- `state.get('selected_workflow', 'unknown')`; a missing key is an absent workflow here.
abbrev workflow_or_unknown : Option String → String
workflow_or_unknown none = "unknown"
workflow_or_unknown (some w) = w

abbrev packet_of : Services → AgentState → ActionType → ApprovalPacket
packet_of services s a = record {
  case_id = text_or_empty s.case_id;
  proposed_action = a;
  amount = debit_of s;
  transaction_id = transaction_or_unknown s.extracted_info;
  user_id = or_else s.user_id "UNKNOWN";
  reason = decided_reason s.rule_decision;
  evidence_summary =
      decided_note s.rule_decision
      ∷ concat ("amount=" ∷ show_ℕ (debit_of s) ∷ [])
      ∷ concat ("risk=" ∷ risk_level_value (risk_of s.recommended_action) ∷ [])
      ∷ concat ("workflow=" ∷ workflow_or_unknown s.selected_workflow ∷ [])
      ∷ [];
  risk_level = risk_of s.recommended_action;
  rule_version = "1.0.0";
  requires_approval = true;
  approval_deadline = some (services.now + 86400);
  escalate_to = none;
}

abbrev approval_spec : ApprovalPacket → EventSpec
approval_spec packet = record {
  case_id = packet.case_id;
  actor = "system";
  event_type = AuditEventType.approval_requested;
  previous_status = none;
  new_status = some "waiting_approval";
  correlation_id = none;
  details = fields_of (
      ("action", Value.text (action_type_value packet.proposed_action))
      ∷ ("amount", nat packet.amount)
      ∷ ("risk", Value.text (risk_level_value packet.risk_level))
      ∷ ("transaction_id", Value.text packet.transaction_id)
      ∷ []);
}

request_approval :
    Services → AgentState → ActionType → Option AuditLogger → AgentState × Option AuditLogger
request_approval services s a audit =
    let packet = packet_of services s a in
    let (audit', ids) = log_if services.audit_env audit (approval_spec packet) s.audit_event_ids in
    (
      record s {
        approval_packet = some packet;
        approval_status = some ApprovalStatus.pending;
        status = some CaseStatus.waiting_approval;
        audit_event_ids = ids;
      },
      audit',
    )

-- `none` is the `ValueError` of `ActionType(...)`, or pydantic's where the packet has no case
-- identifier; the other fields of the packet that may not be empty are "UNKNOWN" where they would be.
unfoldable pub approval_gate :
    Services → AgentState → Option AuditLogger → Option (AgentState × Option AuditLogger)
unfolding request_approval
approval_gate services s audit =
    if s.approval_required
    then elim (action_type_of_value (decided_action s.rule_decision)) [
      | none ↦ none
      | some a ↦
          if is_empty (text_or_empty s.case_id)
          then none
          else some (request_approval services s a audit)
    ]
    else some (
      record s {
        approval_status = some ApprovalStatus.not_required;
        status = some CaseStatus.draft_created;
      },
      audit,
    )
