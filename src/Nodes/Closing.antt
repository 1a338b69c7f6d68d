-- ===== src/Nodes/Closing.antt =====
-- src/fintech_agent/nodes/manual_review.py, audit_close.py and retry_dead_letter.py.
use back_office_fintech.Common.{
  String, true, Option, none, some, [], ◌∷◌, ◌++◌, ◌+◌, length, ltb, if◌then◌else◌,
}
use back_office_fintech.Common.Text.{concat, show_ℕ, text_or_empty}
use back_office_fintech.Common.Dict.{Dict, lookup}
use back_office_fintech.Common.Value.{Value, fields_of, texts, nat}
use back_office_fintech.Schemas.Enums.{ActionType, AuditEventType, CaseStatus}
use back_office_fintech.Schemas.CaseState.{RecommendedAction}
use back_office_fintech.Audit.{AuditLogger, EventSpec, log_if, spec_of}
use back_office_fintech.Rules.Risk.{classify_risk}
use back_office_fintech.Graph.State.{AgentState}
use back_office_fintech.Graph.Edges.{is_waiting_approval}
use back_office_fintech.Graph.Services.{Services}
use back_office_fintech.Nodes.Decision.{debit_of, rule_decision_of}
use back_office_fintech.Nodes.Conflicts.{descriptions, status_text}

abbrev review_diagnosis : String
review_diagnosis = "Conflict detected — requires manual review by ops team"

abbrev review_recommendation : AgentState → RecommendedAction
review_recommendation s = record {
  action_type = ActionType.manual_review;
  diagnosis = review_diagnosis;
  summary =
      concat ("Manual review required: " ∷ show_ℕ (length s.conflicts) ∷ " conflict(s) found" ∷ []);
  risk_level = classify_risk ActionType.manual_review (debit_of s);
  evidence_refs = [];
  approval_required = true;
}

abbrev review_spec : AgentState → EventSpec
review_spec s = record {
  case_id = text_or_empty s.case_id;
  actor = "agent";
  event_type = AuditEventType.workflow_routed;
  previous_status = none;
  new_status = some "manual_review";
  correlation_id = none;
  details = fields_of (
      ("target", Value.text "manual_review")
      ∷ ("conflict_count", nat (length s.conflicts))
      ∷ ("error_count", nat (length s.errors))
      ∷ []);
}

unfoldable pub manual_review :
    Services → AgentState → Option AuditLogger → AgentState × Option AuditLogger
manual_review services s audit =
    let (audit', ids) = log_if services.audit_env audit (review_spec s) s.audit_event_ids in
    (
      record s {
        status = some CaseStatus.manual_review;
        draft_output = some (
            ("type", Value.text "manual_review")
            ∷ ("reason", texts s.errors)
            ∷ ("conflicts", texts (descriptions s.conflicts))
            ∷ ("status", Value.text "pending_human")
            ∷ []);
        recommended_action = some (review_recommendation s);
        approval_required = true;
        rule_decision = some (rule_decision_of ActionType.manual_review review_diagnosis true);
        audit_event_ids = ids;
      },
      audit',
    )

abbrev paused_spec : AgentState → EventSpec
paused_spec s = record {
  case_id = text_or_empty s.case_id;
  actor = "system";
  event_type = AuditEventType.workflow_routed;
  previous_status = none;
  new_status = some "waiting_approval";
  correlation_id = none;
  details = fields_of (("note", Value.text "case paused, waiting for human approval") ∷ []);
}

-- `state.get("draft_output", {}).get("type", "none")`
abbrev draft_type_of : Option (Dict Value) → Value
draft_type_of none = Value.text "none"
draft_type_of (some d) = elim (lookup "type" d) [ none ↦ Value.text "none" | some v ↦ v ]

abbrev closed_spec : AgentState → EventSpec
closed_spec s = record {
  case_id = text_or_empty s.case_id;
  actor = "system";
  event_type = AuditEventType.case_closed;
  previous_status = some (status_text s.status);
  new_status = some "closed";
  correlation_id = none;
  details =
      fields_of (
        ("draft_type", draft_type_of s.draft_output) ∷ ("error_count", nat (length s.errors)) ∷ []);
}

unfoldable pub audit_and_close :
    Services → AgentState → Option AuditLogger → AgentState × Option AuditLogger
audit_and_close services s audit =
    let waiting = is_waiting_approval s.status in
    let (audit', ids) =
      log_if services.audit_env audit (if waiting then paused_spec s else closed_spec s)
        s.audit_event_ids in
    (
      record s {
        status = some (if waiting then CaseStatus.waiting_approval else CaseStatus.closed);
        audit_event_ids = ids;
      },
      audit',
    )

abbrev retry_spec : AgentState → EventSpec
retry_spec s =
    spec_of (text_or_empty s.case_id) AuditEventType.retry_scheduled (
      fields_of
        (("retry_count", nat (s.retry_count + 1)) ∷ ("max_retries", nat s.max_retries) ∷ []))

abbrev exhausted_spec : AgentState → EventSpec
exhausted_spec s = record {
  case_id = text_or_empty s.case_id;
  actor = "system";
  event_type = AuditEventType.dead_letter_created;
  previous_status = none;
  new_status = some "dead_letter";
  correlation_id = none;
  details =
      fields_of
        (("reason", Value.text "max retries exceeded") ∷ ("retry_count", nat s.retry_count) ∷ []);
}

unfoldable pub retry_or_dead_letter :
    Services → AgentState → Option AuditLogger → AgentState × Option AuditLogger
retry_or_dead_letter services s audit =
    let again = ltb s.retry_count s.max_retries in
    let (audit', ids) =
      log_if services.audit_env audit (if again then retry_spec s else exhausted_spec s)
        s.audit_event_ids in
    (
      (if again
          then record s {
            retry_count = s.retry_count + 1;
            status = some CaseStatus.fetching_evidence;
            audit_event_ids = ids;
          }
          else record s {
            status = some CaseStatus.dead_letter;
            errors = s.errors ++ "max retries exceeded" ∷ [];
            audit_event_ids = ids;
          }),
      audit',
    )
