-- ===== src/Nodes/Conflicts.antt =====
-- src/fintech_agent/nodes/conflict_detection.py and workflow_router.py.
use back_office_fintech.Common.{
  String, Bool, false, Option, none, some, List, [], ◌∷◌, ◌++◌, length, is_nonempty, is_one_of,
  if◌then◌else◌,
}
use back_office_fintech.Common.Text.{text_or_empty}
use back_office_fintech.Common.Value.{Value, fields_of, texts, nat}
use back_office_fintech.Schemas.Enums.{AuditEventType, CaseStatus, case_status_value}
use back_office_fintech.Schemas.Evidence.{EvidenceBundle, EvidenceConflict, empty_bundle}
use back_office_fintech.Audit.{AuditLogger, EventSpec, log_if}
use back_office_fintech.Rules.Conflict.{detect_all_conflicts}
use back_office_fintech.Claims.{ClaimType, ClaimVerificationSummary, claim_type_value}
use back_office_fintech.Claims.Summary.{verify_all_claims}
use back_office_fintech.Graph.State.{AgentState}
use back_office_fintech.Graph.Services.{Services}

-- `state.get("evidence_bundle") or EvidenceBundle()`
abbrev pub bundle_of : AgentState → EvidenceBundle
bundle_of s = elim s.evidence_bundle [ none ↦ empty_bundle | some e ↦ e ]

abbrev pub descriptions : List EvidenceConflict → List String
descriptions [] = []
descriptions (c ∷ cs) = c.description ∷ descriptions cs

abbrev conflict_spec : String → List EvidenceConflict → EventSpec
conflict_spec id conflicts = record {
  case_id = id;
  actor = "agent";
  event_type = AuditEventType.conflict_detected;
  previous_status = none;
  new_status = some "conflict_detected";
  correlation_id = none;
  details = fields_of (
      ("conflict_count", nat (length conflicts))
      ∷ ("conflicts", texts (descriptions conflicts))
      ∷ []);
}

abbrev type_values : List ClaimType → List String
type_values [] = []
type_values (t ∷ ts) = claim_type_value t ∷ type_values ts

abbrev claim_spec : String → ClaimVerificationSummary → EventSpec
claim_spec id summary = record {
  case_id = id;
  actor = "claim_verifier";
  event_type = AuditEventType.info_extracted;
  previous_status = none;
  new_status = none;
  correlation_id = none;
  details = fields_of (
      ("claim_count", nat (length summary.claims))
      ∷ ("matched", texts (type_values summary.matched_claims))
      ∷ ("mismatched", texts (type_values summary.mismatched_claims))
      ∷ ("not_verifiable", texts (type_values summary.not_verifiable_claims))
      ∷ ("has_customer_detail_mismatch", Value.bool summary.has_customer_detail_mismatch)
      ∷ ("has_system_evidence_conflict", Value.bool summary.has_system_evidence_conflict)
      ∷ []);
}

-- The node with the summary of the verified claims.
unfoldable pub detect_with :
    Services
    → AgentState
    → Option AuditLogger
    → ClaimVerificationSummary
    → AgentState × Option AuditLogger
detect_with services s audit summary =
    let evidence = bundle_of s in
    let id = text_or_empty s.case_id in
    let conflicts = detect_all_conflicts evidence s.user_id in
    let has_conflict = is_nonempty conflicts in
    let next_status = if has_conflict then CaseStatus.conflict_detected else CaseStatus.routed in
    let (audit1, ids1) =
      if has_conflict
      then log_if services.audit_env audit (conflict_spec id conflicts) s.audit_event_ids
      else (audit, s.audit_event_ids) in
    let (audit2, ids2) =
      if is_nonempty summary.claims
      then log_if services.audit_env audit1 (claim_spec id summary) ids1
      else (audit1, ids1) in
    (
      record s {
        evidence_bundle = some (record evidence { conflicts = conflicts });
        conflicts = conflicts;
        has_conflict = has_conflict;
        claim_verification_summary = some summary;
        status = some next_status;
        audit_event_ids = ids2;
      },
      audit2,
    )

abbrev pub detect_result :
    Services
    → AgentState
    → Option AuditLogger
    → Option ClaimVerificationSummary
    → Option (AgentState × Option AuditLogger)
detect_result services s audit none = none
detect_result services s audit (some summary) = some (detect_with services s audit summary)

-- The verification of the customer's claims, as the node calls it.
unfoldable pub verify_state : Services → AgentState → Option ClaimVerificationSummary
verify_state services s =
    verify_all_claims services.claim_env s.extracted_info (text_or_empty s.raw_complaint)
      (bundle_of s)

-- `none` where the verification of the claims raises an exception.
unfoldable pub detect_conflict :
    Services → AgentState → Option AuditLogger → Option (AgentState × Option AuditLogger)
detect_conflict services s audit = detect_result services s audit (verify_state services s)

abbrev pub known_workflows : List String
known_workflows =
    "train_ticket" ∷ "utility_bill" ∷ "wallet_topup" ∷ "fraud_account_lock"
    ∷ "merchant_settlement_delay" ∷ []

abbrev pub is_known_workflow : Option String → Bool
is_known_workflow none = false
is_known_workflow (some w) = is_one_of w known_workflows

abbrev pub status_text : Option CaseStatus → String
status_text none = ""
status_text (some c) = case_status_value c

abbrev routed_spec : AgentState → EventSpec
routed_spec s = record {
  case_id = text_or_empty s.case_id;
  actor = "agent";
  event_type = AuditEventType.workflow_routed;
  previous_status = some (status_text s.status);
  new_status = some "rule_decision";
  correlation_id = none;
  details = fields_of (("workflow", Value.text (text_or_empty s.selected_workflow)) ∷ []);
}

abbrev unrouted_spec : AgentState → EventSpec
unrouted_spec s = record {
  case_id = text_or_empty s.case_id;
  actor = "agent";
  event_type = AuditEventType.workflow_routed;
  previous_status = none;
  new_status = some "manual_review";
  correlation_id = none;
  details = fields_of (
      ("workflow", Value.text "manual_review")
      ∷ ("reason", Value.text "unknown service type")
      ∷ []);
}

unfoldable pub route_workflow :
    Services → AgentState → Option AuditLogger → AgentState × Option AuditLogger
route_workflow services s audit =
    let known = is_known_workflow s.selected_workflow in
    let (audit', ids) =
      log_if services.audit_env audit (if known then routed_spec s else unrouted_spec s)
        s.audit_event_ids in
    (
      (if known
          then record s { status = some CaseStatus.rule_decision; audit_event_ids = ids }
          else record s {
            status = some CaseStatus.manual_review;
            errors = s.errors ++ "unknown service type, cannot route" ∷ [];
            audit_event_ids = ids;
          }),
      audit',
    )
