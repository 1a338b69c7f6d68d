-- ===== src/Rules/TrainTicket.antt =====
-- src/fintech_agent/rules/train_ticket_rules.py: the decision of the train ticket workflow.
pub mod Decisions
use back_office_fintech.Common.{
  String, Bool, true, false, Option, none, some, [], ◌∷◌, if◌then◌else◌,
}
use back_office_fintech.Common.Text.{concat}
use back_office_fintech.Schemas.Enums.{ActionType, ProviderStatusValue}
use back_office_fintech.Schemas.Evidence.{
  EvidenceBundle, RefundStatus, TrainProviderStatus, WalletLedger, has_conflicts,
}
use back_office_fintech.Rules.Refund.{RefundEligibility, full_refund_eligibility_check}

pub record TrainDecision : Type 0 where
  pub action : ActionType
  pub diagnosis : String
  pub approval_required : Bool

abbrev pub train_decision : ActionType → String → Bool → TrainDecision
train_decision a d r = record { action = a; diagnosis = d; approval_required = r }

-- "ticket not issued or booking failed": the refund check decides.
abbrev train_refund_branch : RefundEligibility → TrainDecision
train_refund_branch refund_check =
    if refund_check.eligible
    then train_decision ActionType.create_refund_request_draft
        (concat ("wallet_debited_ticket_not_issued (" ∷ refund_check.reason ∷ ")" ∷ [])) true
    else train_decision ActionType.no_action
        (concat ("refund_not_eligible (" ∷ refund_check.reason ∷ ")" ∷ [])) false

-- The tests on the provider's status, in order; `rest` is the decision after all of them. A ticket
-- that is issued without a code passes them all.
abbrev train_by_status : ProviderStatusValue → Option String → TrainDecision → TrainDecision
train_by_status ProviderStatusValue.ticket_issued (some code) rest =
    train_decision ActionType.draft_customer_response "ticket_issued_with_code" false
train_by_status ProviderStatusValue.ticket_issued none rest = rest
train_by_status ProviderStatusValue.provider_no_record ticket_code rest =
    train_decision ActionType.create_reconciliation_ticket_draft "provider_no_record_wallet_debited"
      false
train_by_status ProviderStatusValue.booking_pending ticket_code rest =
    train_decision ActionType.wait_sla "booking_pending_within_sla" false
train_by_status _ ticket_code rest = rest

train_debited :
    WalletLedger → Option TrainProviderStatus → Option RefundStatus → EvidenceBundle → TrainDecision
train_debited ledger none refund evidence =
    train_decision ActionType.manual_review "provider_status_unavailable" true
train_debited ledger (some provider) refund evidence =
    train_by_status provider.booking_status provider.ticket_code (
      train_refund_branch (
        full_refund_eligibility_check (some ledger) (some provider.booking_status) refund evidence))

train_with_ledger :
    Option WalletLedger
    → Option TrainProviderStatus
    → Option RefundStatus
    → EvidenceBundle
    → TrainDecision
unfolding train_debited
train_with_ledger none provider refund evidence =
    train_decision ActionType.manual_review "wallet_ledger_unavailable" true
train_with_ledger (some ledger) provider refund evidence =
    if ledger.has_user_debit
    then train_debited ledger provider refund evidence
    else train_decision ActionType.draft_customer_response "wallet_not_debited" false

unfoldable pub decide_train_ticket :
    Option WalletLedger
    → Option TrainProviderStatus
    → Option RefundStatus
    → EvidenceBundle
    → TrainDecision
unfolding train_with_ledger
decide_train_ticket ledger provider refund evidence =
    if has_conflicts evidence
    then train_decision ActionType.manual_review "conflict_detected" true
    else train_with_ledger ledger provider refund evidence
