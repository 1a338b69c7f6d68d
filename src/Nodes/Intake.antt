-- ===== src/Nodes/Intake.antt =====
-- src/fintech_agent/nodes/case_intake.py, extract_info.py and missing_info.py.
use Prim.Native.String.{count}
use back_office_fintech.Common.{
  String, Bool, true, false, not, ◌&&◌, ◌||◌, Option, none, some, List, [], ◌∷◌, ◌++◌, str_eq,
  is_nonempty, is_one_of, if◌then◌else◌,
}
use back_office_fintech.Common.Text.{concat, text_or_empty}
use back_office_fintech.Common.Value.{Value, Fields, fields_of, texts, nat}
use back_office_fintech.Schemas.Enums.{
  AuditEventType, CaseStatus, IssueType, ServiceType, case_status_value, service_type_value,
  issue_type_value,
}
use back_office_fintech.Schemas.CaseState.{ExtractedInfo, is_truthy}
use back_office_fintech.Audit.{AuditLogger, EventSpec, log_if, spec_of}
use back_office_fintech.Graph.State.{AgentState}
use back_office_fintech.Graph.Services.{Services}

-- `x or y`
abbrev pub or_else : Option String → String → String
or_else x y = if is_truthy x then text_or_empty x else y

unfoldable pub case_intake :
    Services → AgentState → Option AuditLogger → AgentState × Option AuditLogger
case_intake services s audit =
    let id = or_else s.case_id (concat ("CASE_" ∷ services.new_case_id ∷ [])) in
    let spec : EventSpec = record {
      case_id = id;
      actor = "system";
      event_type = AuditEventType.case_received;
      previous_status = none;
      new_status = some "new";
      correlation_id = none;
      details =
          fields_of (("raw_complaint_length", nat (count (text_or_empty s.raw_complaint))) ∷ []);
    } in
    let (audit', ids) = log_if services.audit_env audit spec s.audit_event_ids in
    (
      record s {
        case_id = some id;
        status = some CaseStatus.extracting;
        errors = [];
        audit_event_ids = ids;
        correlation_id = some (or_else s.correlation_id services.new_correlation_id);
      },
      audit',
    )

abbrev pub workflow_of_service : ServiceType → Option String
workflow_of_service ServiceType.train_ticket = some "train_ticket"
workflow_of_service ServiceType.electric_bill = some "utility_bill"
workflow_of_service ServiceType.water_bill = some "utility_bill"
workflow_of_service ServiceType.wallet_topup = some "wallet_topup"
workflow_of_service ServiceType.account_security = some "fraud_account_lock"
workflow_of_service ServiceType.merchant_settlement = some "merchant_settlement_delay"
workflow_of_service ServiceType.unknown = none

abbrev pub select_workflow : Option ServiceType → Option String
select_workflow none = none
select_workflow (some t) = workflow_of_service t

abbrev pub is_workflow : String → Option String → Bool
is_workflow w none = false
is_workflow w (some v) = str_eq v w

abbrev when_true : Bool → String → List String
when_true true s = s ∷ []
when_true false s = []

abbrev has_service : Option ServiceType → Bool
has_service none = false
has_service (some _) = true

-- The missing fields that the node finds by itself, where the extractor names none.
unfoldable pub compute_missing : ExtractedInfo → Option String → List String
compute_missing x workflow =
    let is_fraud = is_workflow "fraud_account_lock" workflow in
    let is_merchant = is_workflow "merchant_settlement_delay" workflow in
    when_true (not (is_truthy x.transaction_id) && not is_fraud && not is_merchant) "transaction_id"
    ++ ((if is_merchant
          then when_true
              (not (
                is_truthy x.merchant_id
                || is_truthy x.phone
                || is_truthy x.email
                || is_truthy x.tax_code))
              "merchant_id"
          else when_true
              (not (is_truthy x.user_id)
                && not (is_truthy x.phone || is_truthy x.email || is_truthy x.wallet_id))
              "user_id")
        ++ when_true (not (has_service x.service_type)) "service_type")

abbrev missing_of : ExtractedInfo → Option String → List String
missing_of x workflow =
    if is_nonempty x.missing_fields then x.missing_fields else compute_missing x workflow

abbrev text_of_service : Option ServiceType → String
text_of_service none = "UNKNOWN"
text_of_service (some t) = service_type_value t

abbrev text_of_issue : Option IssueType → String
text_of_issue none = "UNKNOWN"
text_of_issue (some t) = issue_type_value t

-- The confidence, a float, is left out of the logged details.
abbrev extraction_spec : String → ExtractedInfo → List String → CaseStatus → EventSpec
extraction_spec id x missing next_status = record {
  case_id = id;
  actor = "agent";
  event_type = AuditEventType.info_extracted;
  previous_status = none;
  new_status = some (case_status_value next_status);
  correlation_id = none;
  details = fields_of (
      ("extraction_method", Value.text (or_else x.extraction_method "unknown"))
      ∷ ("transaction_id", Value.text (or_else x.transaction_id "MISSING"))
      ∷ ("service_type", Value.text (text_of_service x.service_type))
      ∷ ("issue_type", Value.text (text_of_issue x.issue_type))
      ∷ ("missing_fields", texts missing)
      ∷ []);
}

abbrev failure_spec : String → EventSpec
failure_spec id = spec_of id AuditEventType.llm_extraction_failed (
    fields_of
      (("reason", Value.text "openai_failed_or_invalid") ∷ ("fallback", Value.text "regex") ∷ []))

-- The audit calls of `extract_info`: a failure first where the fallback was used.
log_extraction :
    Services
    → String
    → ExtractedInfo
    → List String
    → CaseStatus
    → Option AuditLogger
    → List String
    → Option AuditLogger × List String
log_extraction services id x missing next_status audit ids =
    let (audit', ids') =
      if is_workflow "fallback_regex" x.extraction_method
      then log_if services.audit_env audit (failure_spec id) ids
      else (audit, ids) in
    log_if services.audit_env audit' (extraction_spec id x missing next_status) ids'

unfoldable pub extract_info :
    Services → AgentState → Option AuditLogger → AgentState × Option AuditLogger
unfolding log_extraction
extract_info services s audit =
    let x = services.extract_complaint_info (text_or_empty s.raw_complaint) s.user_id in
    let workflow = select_workflow x.service_type in
    let missing = missing_of x workflow in
    let next_status =
      if is_nonempty missing then CaseStatus.missing_info else CaseStatus.fetching_evidence in
    let (audit', ids) =
      log_extraction services (text_or_empty s.case_id) x missing next_status audit
        s.audit_event_ids in
    (
      record s {
        extracted_info = some x;
        missing_info = missing;
        selected_workflow = workflow;
        status = some next_status;
        user_id = some (or_else x.user_id (text_or_empty s.user_id));
        audit_event_ids = ids;
      },
      audit',
    )

abbrev dead_letter_spec : String → Fields → EventSpec
dead_letter_spec id d = record {
  case_id = id;
  actor = "system";
  event_type = AuditEventType.dead_letter_created;
  previous_status = none;
  new_status = some "dead_letter";
  correlation_id = none;
  details = d;
}

dead_letter :
    Services → AgentState → Fields → String → Option AuditLogger → AgentState × Option AuditLogger
dead_letter services s d error audit =
    let (audit', ids) =
      log_if services.audit_env audit (dead_letter_spec (text_or_empty s.case_id) d)
        s.audit_event_ids in
    (
      record s {
        status = some CaseStatus.dead_letter;
        errors = s.errors ++ error ∷ [];
        audit_event_ids = ids;
      },
      audit',
    )

unfoldable pub missing_info_handler :
    Services → AgentState → Option AuditLogger → AgentState × Option AuditLogger
unfolding dead_letter
missing_info_handler services s audit =
    let is_fraud = is_workflow "fraud_account_lock" s.selected_workflow in
    if is_one_of "transaction_id" s.missing_info && not is_fraud
    then dead_letter services s
        (fields_of (
          ("reason", Value.text "transaction_id missing") ∷ ("missing", texts s.missing_info) ∷ []))
        "critical: transaction_id missing" audit
    else if is_fraud && is_one_of "user_id" s.missing_info
    then dead_letter services s
        (fields_of (
          ("reason", Value.text "identity_missing_for_fraud")
          ∷ ("missing", texts s.missing_info)
          ∷ ("workflow", Value.text "fraud_account_lock")
          ∷ []))
        "critical: identity_missing — Chưa đủ thông tin định danh tài khoản. Vui lòng cung cấp số điện thoại/email/user_id/wallet_id đăng ký ví để agent tra cứu trạng thái khóa và dữ liệu Risk/Fraud."
        audit
    else let (audit', ids) =
        log_if services.audit_env audit
          (spec_of (text_or_empty s.case_id) AuditEventType.missing_info_detected (
            fields_of (
              ("missing", texts s.missing_info)
              ∷ ("action", Value.text "proceed_with_partial")
              ∷ [])))
          s.audit_event_ids in
      (record s { status = some CaseStatus.fetching_evidence; audit_event_ids = ids }, audit')
