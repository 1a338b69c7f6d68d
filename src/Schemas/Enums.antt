-- ===== src/Schemas/Enums.antt =====
-- The enumerations of src/fintech_agent/schemas/enums.py. Each is a Python `StrEnum`: `..._value`
-- is the text of a member, and a call of the class on a text looks the member up by its text.
use back_office_fintech.Common.{
  String, Option, none, some, List, [], ◌∷◌, ◌≡◌, refl, str_eq, if◌then◌else◌,
}

pub data ServiceType : Type 0 where
  train_ticket electric_bill water_bill wallet_topup account_security merchant_settlement unknown :
      ServiceType

pub data IssueType : Type 0 where
  paid_but_no_ticket paid_but_provider_not_confirmed provider_failed provider_no_record
        duplicate_charge topup_pending account_locked settlement_delayed payout_not_received
        payout_failed bank_account_invalid unc_not_received unknown :
      IssueType

pub data WalletLedgerStatus : Type 0 where
  debited not_debited refunded reversed unknown : WalletLedgerStatus

pub data ProviderStatusValue : Type 0 where
  ticket_issued ticket_not_issued booking_pending booking_failed confirmed not_confirmed pending
        failed provider_no_record bill_code_not_found amount_mismatch unknown :
      ProviderStatusValue

pub data RefundStatusValue : Type 0 where
  not_requested requested approved executed rejected failed : RefundStatusValue

pub data CaseStatus : Type 0 where
  new extracting missing_info fetching_evidence conflict_detected routed rule_decision recommending
        waiting_approval draft_created manual_review dead_letter closed reopened :
      CaseStatus

pub data RiskLevel : Type 0 where
  low medium high critical : RiskLevel

pub data ActionType : Type 0 where
  draft_customer_response create_refund_request_draft create_reconciliation_ticket_draft
        create_force_success_draft create_unlock_account_draft
        create_request_documents_response_draft request_identity_correction
        create_manual_payout_draft create_merchant_email_draft request_bank_account_correction
        send_unc_email_draft manual_settlement_review manual_review wait_sla no_action :
      ActionType

pub data ApprovalStatus : Type 0 where
  not_required pending approved rejected timeout : ApprovalStatus

pub data AuditEventType : Type 0 where
  case_received info_extracted missing_info_detected evidence_fetch_started tool_called
        tool_result_received tool_failed tool_timeout tool_retry retry_scheduled dead_letter_created
        conflict_detected workflow_routed rule_applied diagnosis_generated action_recommended
        action_proposed approval_requested approval_timeout approval_escalated human_approved
        human_rejected human_edited draft_created case_closed case_reopened llm_extraction_failed
        safety_blocked response_generated :
      AuditEventType

unfoldable pub service_type_value : ServiceType → String
service_type_value ServiceType.train_ticket = "train_ticket"
service_type_value ServiceType.electric_bill = "electric_bill"
service_type_value ServiceType.water_bill = "water_bill"
service_type_value ServiceType.wallet_topup = "wallet_topup"
service_type_value ServiceType.account_security = "account_security"
service_type_value ServiceType.merchant_settlement = "merchant_settlement"
service_type_value ServiceType.unknown = "unknown"

unfoldable pub issue_type_value : IssueType → String
issue_type_value IssueType.paid_but_no_ticket = "paid_but_no_ticket"
issue_type_value IssueType.paid_but_provider_not_confirmed = "paid_but_provider_not_confirmed"
issue_type_value IssueType.provider_failed = "provider_failed"
issue_type_value IssueType.provider_no_record = "provider_no_record"
issue_type_value IssueType.duplicate_charge = "duplicate_charge"
issue_type_value IssueType.topup_pending = "topup_pending"
issue_type_value IssueType.account_locked = "account_locked"
issue_type_value IssueType.settlement_delayed = "settlement_delayed"
issue_type_value IssueType.payout_not_received = "payout_not_received"
issue_type_value IssueType.payout_failed = "payout_failed"
issue_type_value IssueType.bank_account_invalid = "bank_account_invalid"
issue_type_value IssueType.unc_not_received = "unc_not_received"
issue_type_value IssueType.unknown = "unknown"

unfoldable pub wallet_ledger_status_value : WalletLedgerStatus → String
wallet_ledger_status_value WalletLedgerStatus.debited = "debited"
wallet_ledger_status_value WalletLedgerStatus.not_debited = "not_debited"
wallet_ledger_status_value WalletLedgerStatus.refunded = "refunded"
wallet_ledger_status_value WalletLedgerStatus.reversed = "reversed"
wallet_ledger_status_value WalletLedgerStatus.unknown = "unknown"

unfoldable pub provider_status_value_value : ProviderStatusValue → String
provider_status_value_value ProviderStatusValue.ticket_issued = "ticket_issued"
provider_status_value_value ProviderStatusValue.ticket_not_issued = "ticket_not_issued"
provider_status_value_value ProviderStatusValue.booking_pending = "booking_pending"
provider_status_value_value ProviderStatusValue.booking_failed = "booking_failed"
provider_status_value_value ProviderStatusValue.confirmed = "confirmed"
provider_status_value_value ProviderStatusValue.not_confirmed = "not_confirmed"
provider_status_value_value ProviderStatusValue.pending = "pending"
provider_status_value_value ProviderStatusValue.failed = "failed"
provider_status_value_value ProviderStatusValue.provider_no_record = "provider_no_record"
provider_status_value_value ProviderStatusValue.bill_code_not_found = "bill_code_not_found"
provider_status_value_value ProviderStatusValue.amount_mismatch = "amount_mismatch"
provider_status_value_value ProviderStatusValue.unknown = "unknown"

unfoldable pub refund_status_value_value : RefundStatusValue → String
refund_status_value_value RefundStatusValue.not_requested = "not_requested"
refund_status_value_value RefundStatusValue.requested = "requested"
refund_status_value_value RefundStatusValue.approved = "approved"
refund_status_value_value RefundStatusValue.executed = "executed"
refund_status_value_value RefundStatusValue.rejected = "rejected"
refund_status_value_value RefundStatusValue.failed = "failed"

unfoldable pub case_status_value : CaseStatus → String
case_status_value CaseStatus.new = "new"
case_status_value CaseStatus.extracting = "extracting"
case_status_value CaseStatus.missing_info = "missing_info"
case_status_value CaseStatus.fetching_evidence = "fetching_evidence"
case_status_value CaseStatus.conflict_detected = "conflict_detected"
case_status_value CaseStatus.routed = "routed"
case_status_value CaseStatus.rule_decision = "rule_decision"
case_status_value CaseStatus.recommending = "recommending"
case_status_value CaseStatus.waiting_approval = "waiting_approval"
case_status_value CaseStatus.draft_created = "draft_created"
case_status_value CaseStatus.manual_review = "manual_review"
case_status_value CaseStatus.dead_letter = "dead_letter"
case_status_value CaseStatus.closed = "closed"
case_status_value CaseStatus.reopened = "reopened"

unfoldable pub risk_level_value : RiskLevel → String
risk_level_value RiskLevel.low = "low"
risk_level_value RiskLevel.medium = "medium"
risk_level_value RiskLevel.high = "high"
risk_level_value RiskLevel.critical = "critical"

unfoldable pub action_type_value : ActionType → String
action_type_value ActionType.draft_customer_response = "draft_customer_response"
action_type_value ActionType.create_refund_request_draft = "create_refund_request_draft"
action_type_value ActionType.create_reconciliation_ticket_draft =
    "create_reconciliation_ticket_draft"
action_type_value ActionType.create_force_success_draft = "create_force_success_draft"
action_type_value ActionType.create_unlock_account_draft = "create_unlock_account_draft"
action_type_value ActionType.create_request_documents_response_draft =
    "create_request_documents_response_draft"
action_type_value ActionType.request_identity_correction = "request_identity_correction"
action_type_value ActionType.create_manual_payout_draft = "create_manual_payout_draft"
action_type_value ActionType.create_merchant_email_draft = "create_merchant_email_draft"
action_type_value ActionType.request_bank_account_correction = "request_bank_account_correction"
action_type_value ActionType.send_unc_email_draft = "send_unc_email_draft"
action_type_value ActionType.manual_settlement_review = "manual_settlement_review"
action_type_value ActionType.manual_review = "manual_review"
action_type_value ActionType.wait_sla = "wait_sla"
action_type_value ActionType.no_action = "no_action"

unfoldable pub approval_status_value : ApprovalStatus → String
approval_status_value ApprovalStatus.not_required = "not_required"
approval_status_value ApprovalStatus.pending = "pending"
approval_status_value ApprovalStatus.approved = "approved"
approval_status_value ApprovalStatus.rejected = "rejected"
approval_status_value ApprovalStatus.timeout = "timeout"

unfoldable pub audit_event_type_value : AuditEventType → String
audit_event_type_value AuditEventType.case_received = "case_received"
audit_event_type_value AuditEventType.info_extracted = "info_extracted"
audit_event_type_value AuditEventType.missing_info_detected = "missing_info_detected"
audit_event_type_value AuditEventType.evidence_fetch_started = "evidence_fetch_started"
audit_event_type_value AuditEventType.tool_called = "tool_called"
audit_event_type_value AuditEventType.tool_result_received = "tool_result_received"
audit_event_type_value AuditEventType.tool_failed = "tool_failed"
audit_event_type_value AuditEventType.tool_timeout = "tool_timeout"
audit_event_type_value AuditEventType.tool_retry = "tool_retry"
audit_event_type_value AuditEventType.retry_scheduled = "retry_scheduled"
audit_event_type_value AuditEventType.dead_letter_created = "dead_letter_created"
audit_event_type_value AuditEventType.conflict_detected = "conflict_detected"
audit_event_type_value AuditEventType.workflow_routed = "workflow_routed"
audit_event_type_value AuditEventType.rule_applied = "rule_applied"
audit_event_type_value AuditEventType.diagnosis_generated = "diagnosis_generated"
audit_event_type_value AuditEventType.action_recommended = "action_recommended"
audit_event_type_value AuditEventType.action_proposed = "action_proposed"
audit_event_type_value AuditEventType.approval_requested = "approval_requested"
audit_event_type_value AuditEventType.approval_timeout = "approval_timeout"
audit_event_type_value AuditEventType.approval_escalated = "approval_escalated"
audit_event_type_value AuditEventType.human_approved = "human_approved"
audit_event_type_value AuditEventType.human_rejected = "human_rejected"
audit_event_type_value AuditEventType.human_edited = "human_edited"
audit_event_type_value AuditEventType.draft_created = "draft_created"
audit_event_type_value AuditEventType.case_closed = "case_closed"
audit_event_type_value AuditEventType.case_reopened = "case_reopened"
audit_event_type_value AuditEventType.llm_extraction_failed = "llm_extraction_failed"
audit_event_type_value AuditEventType.safety_blocked = "safety_blocked"
audit_event_type_value AuditEventType.response_generated = "response_generated"

abbrev pub action_types : List ActionType
action_types =
    ActionType.draft_customer_response ∷ ActionType.create_refund_request_draft
    ∷ ActionType.create_reconciliation_ticket_draft ∷ ActionType.create_force_success_draft
    ∷ ActionType.create_unlock_account_draft ∷ ActionType.create_request_documents_response_draft
    ∷ ActionType.request_identity_correction ∷ ActionType.create_manual_payout_draft
    ∷ ActionType.create_merchant_email_draft ∷ ActionType.request_bank_account_correction
    ∷ ActionType.send_unc_email_draft ∷ ActionType.manual_settlement_review
    ∷ ActionType.manual_review ∷ ActionType.wait_sla ∷ ActionType.no_action ∷ []

member_with : String → List ActionType → Option ActionType
unfolding action_type_value
member_with s [] = none
member_with s (a ∷ rest) = if str_eq (action_type_value a) s then some a else member_with s rest

-- `ActionType(s)`; `none` is the `ValueError`.
unfoldable pub action_type_of_value : String → Option ActionType
unfolding member_with
action_type_of_value s = member_with s action_types

-- Every action is found again by its text.
pub action_type_of_value-value :
    (a : ActionType) → action_type_of_value (action_type_value a) ≡ some a
unfolding action_type_of_value action_type_value str_eq
action_type_of_value-value ActionType.draft_customer_response = refl
action_type_of_value-value ActionType.create_refund_request_draft = refl
action_type_of_value-value ActionType.create_reconciliation_ticket_draft = refl
action_type_of_value-value ActionType.create_force_success_draft = refl
action_type_of_value-value ActionType.create_unlock_account_draft = refl
action_type_of_value-value ActionType.create_request_documents_response_draft = refl
action_type_of_value-value ActionType.request_identity_correction = refl
action_type_of_value-value ActionType.create_manual_payout_draft = refl
action_type_of_value-value ActionType.create_merchant_email_draft = refl
action_type_of_value-value ActionType.request_bank_account_correction = refl
action_type_of_value-value ActionType.send_unc_email_draft = refl
action_type_of_value-value ActionType.manual_settlement_review = refl
action_type_of_value-value ActionType.manual_review = refl
action_type_of_value-value ActionType.wait_sla = refl
action_type_of_value-value ActionType.no_action = refl
