-- ===== src/Nodes/Draft/Transactions.antt =====
-- src/fintech_agent/nodes/draft_action.py: the branches that call a draft tool, and the manual review.
use back_office_fintech.Common.{String, false, none, some, [], ◌∷◌, if◌then◌else◌}
use back_office_fintech.Common.Text.{concat}
use back_office_fintech.Common.Value.{Value, fields_of}
use back_office_fintech.Schemas.Enums.{ActionType, CaseStatus}
use back_office_fintech.Schemas.CaseState.{RecommendedAction}
use back_office_fintech.Graph.State.{AgentState}
use back_office_fintech.Graph.Services.{DraftCall, Services}
use back_office_fintech.Nodes.Intake.{is_workflow, or_else}
use back_office_fintech.Nodes.Approval.{transaction_or_unknown}
use back_office_fintech.Nodes.Decision.{debit_of, paid_of}
use back_office_fintech.Nodes.Draft.Reply.{
  Drafted, text_or, reply_amount, case_or_unknown, with_reply, draft_type, evidence_lines, made,
}

unfoldable pub draft_refund : Services → AgentState → RecommendedAction → Drafted
draft_refund services s a =
    with_reply
      (services.call_draft_tool (
        DraftCall.refund_request (case_or_unknown s) (transaction_or_unknown s.extracted_info)
          (or_else s.user_id "UNKNOWN") (debit_of s) a.diagnosis (evidence_lines a)))
      λ r.
        made
          (draft_type "refund_request_draft"
            ∷ ("draft_id", text_or r.draft_id "")
            ∷ ("amount", reply_amount r.amount)
            ∷ ("status", text_or r.status "created")
            ∷ [])
          CaseStatus.draft_created false
          (some (
            fields_of (
              ("draft_type", Value.text "refund_request_draft")
              ∷ ("amount", reply_amount r.amount)
              ∷ ("draft_id", text_or r.draft_id "")
              ∷ [])))

unfoldable pub draft_reconciliation : Services → AgentState → RecommendedAction → Drafted
draft_reconciliation services s a =
    with_reply
      (services.call_draft_tool (
        DraftCall.reconciliation_ticket (case_or_unknown s)
          (transaction_or_unknown s.extracted_info) (or_else s.user_id "UNKNOWN") a.diagnosis
          (evidence_lines a)))
      λ r.
        made
          (draft_type "reconciliation_ticket_draft"
            ∷ ("draft_id", text_or r.draft_id "")
            ∷ ("status", text_or r.status "created")
            ∷ [])
          CaseStatus.draft_created false
          (some (
            fields_of (
              ("draft_type", Value.text "reconciliation_ticket_draft")
              ∷ ("draft_id", text_or r.draft_id "")
              ∷ [])))

customer_message : Services → AgentState → RecommendedAction → String
customer_message services s a =
    if is_workflow "wallet_topup" s.selected_workflow
    then services.texts.topup_customer a.diagnosis
    else if is_workflow "fraud_account_lock" s.selected_workflow
    then services.texts.fraud_customer a.diagnosis
    else if is_workflow "merchant_settlement_delay" s.selected_workflow
    then services.texts.merchant_customer a.diagnosis
    else concat ("Kết quả kiểm tra: " ∷ a.diagnosis ∷ [])

unfoldable pub draft_response : Services → AgentState → RecommendedAction → Drafted
unfolding customer_message
draft_response services s a =
    with_reply
      (services.call_draft_tool (
        DraftCall.customer_response (case_or_unknown s) (transaction_or_unknown s.extracted_info)
          (customer_message services s a)))
      λ r.
        made
          (draft_type "customer_response_draft"
            ∷ ("draft_id", text_or r.draft_id "")
            ∷ ("status", text_or r.status "created")
            ∷ [])
          CaseStatus.draft_created false
          (some (fields_of (("draft_type", Value.text "customer_response_draft") ∷ [])))

unfoldable pub draft_manual_review : Services → AgentState → RecommendedAction → Drafted
draft_manual_review services s a =
    made
      (draft_type "manual_review"
        ∷ ("status", Value.text "pending")
        ∷ (if is_workflow "wallet_topup" s.selected_workflow
            then (
              "cs_message",
              Value.text (services.texts.topup_cs ActionType.manual_review a.diagnosis),
            )
              ∷ []
            else if is_workflow "fraud_account_lock" s.selected_workflow
            then (
              "cs_message",
              Value.text (services.texts.fraud_cs ActionType.manual_review a.diagnosis),
            )
              ∷ []
            else []))
      CaseStatus.manual_review false none

unfoldable pub draft_unlock : Services → AgentState → RecommendedAction → Drafted
draft_unlock services s a =
    with_reply
      (services.call_draft_tool (
        DraftCall.unlock_account (case_or_unknown s) (or_else s.user_id "UNKNOWN")
          (services.texts.fraud_cs ActionType.create_unlock_account_draft a.diagnosis)
          (evidence_lines a)))
      λ r.
        made
          (draft_type "unlock_account_draft"
            ∷ ("draft_id", text_or r.draft_id "")
            ∷ ("user_id", text_or r.user_id "")
            ∷ ("status", text_or r.status "pending_approval")
            ∷ ("note", text_or r.note "Draft only. Human approval required.")
            ∷ [])
          CaseStatus.draft_created false
          (some (
            fields_of (
              ("draft_type", Value.text "unlock_account_draft")
              ∷ ("draft_id", text_or r.draft_id "")
              ∷ [])))

unfoldable pub draft_documents : Services → AgentState → RecommendedAction → Drafted
draft_documents services s a =
    with_reply
      (services.call_draft_tool (
        DraftCall.request_documents (case_or_unknown s) (or_else s.user_id "UNKNOWN")
          (services.texts.fraud_cs ActionType.create_request_documents_response_draft a.diagnosis)
          (evidence_lines a)))
      λ r.
        made
          (draft_type "request_documents_response_draft"
            ∷ ("draft_id", text_or r.draft_id "")
            ∷ ("user_id", text_or r.user_id "")
            ∷ ("status", text_or r.status "created")
            ∷ ("message", text_or r.message "")
            ∷ ("note", text_or r.note "Draft only.")
            ∷ [])
          CaseStatus.draft_created false
          (some (
            fields_of (
              ("draft_type", Value.text "request_documents_response_draft")
              ∷ ("draft_id", text_or r.draft_id "")
              ∷ [])))

unfoldable pub draft_force_success : Services → AgentState → RecommendedAction → Drafted
draft_force_success services s a =
    with_reply
      (services.call_draft_tool (
        DraftCall.force_success (case_or_unknown s) (transaction_or_unknown s.extracted_info)
          (or_else s.user_id "UNKNOWN") (paid_of s)
          (services.texts.topup_cs ActionType.create_force_success_draft a.diagnosis)
          (evidence_lines a)))
      λ r.
        made
          (draft_type "force_success_draft"
            ∷ ("draft_id", text_or r.draft_id "")
            ∷ ("amount", reply_amount r.amount)
            ∷ ("status", text_or r.status "created")
            ∷ ("note", text_or r.note "Draft only. Human approval required.")
            ∷ [])
          CaseStatus.draft_created false
          (some (
            fields_of (
              ("draft_type", Value.text "force_success_draft")
              ∷ ("amount", reply_amount r.amount)
              ∷ ("draft_id", text_or r.draft_id "")
              ∷ [])))
