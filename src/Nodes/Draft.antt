-- ===== src/Nodes/Draft.antt =====
-- src/fintech_agent/nodes/draft_action.py: the draft for a recommended action.
pub mod Reply
pub mod Transactions
pub mod Merchant
use back_office_fintech.Common.{
  ℕ, String, Bool, true, false, ◌||◌, Option, none, some, List, [], ◌∷◌, ◌++◌, is_one_of,
  if◌then◌else◌,
}
use back_office_fintech.Common.Text.{concat, has_substring, lower}
use back_office_fintech.Common.Dict.{Dict}
use back_office_fintech.Common.Value.{
  Value, Fields, fields_of, texts, nat, optional_text, optional_num,
}
use back_office_fintech.Schemas.Enums.{
  ActionType, AuditEventType, CaseStatus, action_type_value, risk_level_value,
}
use back_office_fintech.Schemas.CaseState.{RecommendedAction}
use back_office_fintech.Schemas.Evidence.{
  BankTransferReceipt, EvidenceBundle, MerchantBankAccount, MerchantPayout, MerchantProfile,
  MerchantSettlementLedger,
}
use back_office_fintech.Audit.{AuditLogger, EventSpec, log_if, spec_of}
use back_office_fintech.Graph.State.{AgentState}
use back_office_fintech.Graph.Services.{DraftCall, DraftReply, Fetched, Services}
use back_office_fintech.Nodes.Intake.{is_workflow, or_else}
use back_office_fintech.Nodes.Approval.{transaction_or_unknown}
use back_office_fintech.Nodes.Conflicts.{bundle_of}
use back_office_fintech.Nodes.Decision.{debit_of, paid_of}
use back_office_fintech.Nodes.Draft.Reply.{
  Drafted, text_or, reply_amount, case_or_unknown, with_reply, draft_type, evidence_lines, made,
  raised,
}
use back_office_fintech.Nodes.Draft.Transactions.{
  draft_refund, draft_reconciliation, draft_response, draft_manual_review, draft_unlock,
  draft_documents, draft_force_success,
}
use back_office_fintech.Nodes.Draft.Merchant.{
  draft_manual_payout, draft_unc_email, draft_bank_account_correction,
  draft_manual_settlement_review,
}

-- The branches of `create_draft`, by the type of the action.
unfoldable pub draft_for : Services → AgentState → RecommendedAction → ActionType → Drafted
unfolding draft_refund draft_reconciliation draft_response draft_manual_review draft_unlock
    draft_documents draft_force_success draft_manual_payout draft_unc_email
    draft_bank_account_correction draft_manual_settlement_review
draft_for services s a ActionType.create_refund_request_draft = draft_refund services s a
draft_for services s a ActionType.create_reconciliation_ticket_draft =
    draft_reconciliation services s a
draft_for services s a ActionType.draft_customer_response = draft_response services s a
draft_for services s a ActionType.manual_review = draft_manual_review services s a
draft_for services s a ActionType.create_unlock_account_draft = draft_unlock services s a
draft_for services s a ActionType.create_request_documents_response_draft =
    draft_documents services s a
draft_for services s a ActionType.create_force_success_draft = draft_force_success services s a
draft_for services s a ActionType.create_manual_payout_draft =
    draft_manual_payout services (bundle_of s) a
draft_for services s a ActionType.send_unc_email_draft = draft_unc_email services (bundle_of s) a
draft_for services s a ActionType.request_bank_account_correction =
    draft_bank_account_correction services (bundle_of s) a
draft_for services s a ActionType.manual_settlement_review =
    draft_manual_settlement_review services (bundle_of s) a
draft_for services s a ActionType.no_action =
    made
      (draft_type "no_action"
        ∷ ("diagnosis", Value.text a.diagnosis)
        ∷ ("status", Value.text "closed")
        ∷ [])
      CaseStatus.closed false
      (some (
        fields_of
          (("draft_type", Value.text "no_action") ∷ ("diagnosis", Value.text a.diagnosis) ∷ [])))
draft_for services s a other =
    made (draft_type (action_type_value other) ∷ ("status", Value.text "no_draft_needed") ∷ [])
      CaseStatus.closed false none

abbrev blocked_spec : String → String → EventSpec
blocked_spec id error = record {
  case_id = id;
  actor = "system";
  event_type = AuditEventType.safety_blocked;
  previous_status = none;
  new_status = none;
  correlation_id = none;
  details =
      fields_of
        (("blocked_action", Value.text "duplicate_draft") ∷ ("reason", Value.text error) ∷ []);
}

abbrev is_duplicate_error : String → Bool
is_duplicate_error error =
    has_substring "duplicate" (lower error) || has_substring "idempotency" (lower error)

-- The handler of the `except` clause; the safety event is logged and its id is not kept.
fail_draft : Services → AgentState → Option AuditLogger → String → AgentState × Option AuditLogger
fail_draft services s audit error =
    if is_duplicate_error error
    then (
      record s {
        draft_output = some (
            draft_type "no_action"
            ∷ ("diagnosis", Value.text (concat ("duplicate: " ∷ error ∷ [])))
            ∷ ("status", Value.text "duplicate_blocked")
            ∷ []);
        errors = s.errors ++ error ∷ [];
        status = some CaseStatus.closed;
      },
      (log_if services.audit_env audit (blocked_spec (case_or_unknown s) error) []).0,
    )
    else (
      record s { errors = s.errors ++ error ∷ []; status = some CaseStatus.manual_review },
      audit,
    )

abbrev log_draft :
    Services → AgentState → Option AuditLogger → Option Fields → Option AuditLogger × List String
log_draft services s audit none = (audit, s.audit_event_ids)
log_draft services s audit (some d) =
    log_if services.audit_env audit (spec_of (case_or_unknown s) AuditEventType.draft_created d)
      s.audit_event_ids

finish_draft :
    Services → AgentState → Option AuditLogger → Drafted → AgentState × Option AuditLogger
unfolding fail_draft
finish_draft services s audit (made output status sets_approval details) =
    let (audit', ids) = log_draft services s audit details in
    (
      record s {
        draft_output = some output;
        approval_required = sets_approval || s.approval_required;
        status = some status;
        audit_event_ids = ids;
      },
      audit',
    )
finish_draft services s audit (raised error) = fail_draft services s audit error

draft_action :
    Services
    → AgentState
    → Option RecommendedAction
    → Option AuditLogger
    → AgentState × Option AuditLogger
unfolding draft_for finish_draft
draft_action services s none audit = (
  record s {
    status = some CaseStatus.manual_review;
    errors = s.errors ++ "no recommended_action for draft" ∷ [];
  },
  audit,
)
draft_action services s (some a) audit =
    finish_draft services s audit (draft_for services s a a.action_type)

unfoldable pub create_draft :
    Services → AgentState → Option AuditLogger → AgentState × Option AuditLogger
unfolding draft_action
create_draft services s audit = draft_action services s s.recommended_action audit
