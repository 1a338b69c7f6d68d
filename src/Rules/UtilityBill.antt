-- ===== src/Rules/UtilityBill.antt =====
-- src/fintech_agent/rules/utility_bill_rules.py: the decision of the utility bill workflow.
pub mod Decisions
use back_office_fintech.Common.{
  String, Bool, true, false, Option, none, some, [], ◌∷◌, if◌then◌else◌,
}
use back_office_fintech.Common.Text.{concat}
use back_office_fintech.Schemas.Enums.{ActionType, ProviderStatusValue, provider_status_value_value}
use back_office_fintech.Schemas.Evidence.{
  EvidenceBundle, RefundStatus, UtilityProviderStatus, WalletLedger, has_conflicts,
}
use back_office_fintech.Rules.Refund.{RefundEligibility, full_refund_eligibility_check}

pub record UtilityDecision : Type 0 where
  pub action : ActionType
  pub diagnosis : String
  pub approval_required : Bool

abbrev pub utility_decision : ActionType → String → Bool → UtilityDecision
utility_decision a d r = record { action = a; diagnosis = d; approval_required = r }

abbrev utility_refund_branch : RefundEligibility → UtilityDecision
utility_refund_branch refund_check =
    if refund_check.eligible
    then utility_decision ActionType.create_refund_request_draft
        (concat ("provider_failed_wallet_debited (" ∷ refund_check.reason ∷ ")" ∷ [])) true
    else utility_decision ActionType.no_action
        (concat ("refund_not_eligible (" ∷ refund_check.reason ∷ ")" ∷ [])) false

-- The tests on the provider's status; `on_failed` is the decision for `failed`.
abbrev utility_by_status : ProviderStatusValue → UtilityDecision → UtilityDecision
utility_by_status ProviderStatusValue.confirmed on_failed =
    utility_decision ActionType.draft_customer_response "bill_confirmed_and_paid" false
utility_by_status ProviderStatusValue.not_confirmed on_failed =
    utility_decision ActionType.create_reconciliation_ticket_draft
      "provider_not_confirmed_needs_reconciliation" false
utility_by_status ProviderStatusValue.provider_no_record on_failed =
    utility_decision ActionType.create_reconciliation_ticket_draft
      "provider_no_record_wallet_debited" false
utility_by_status ProviderStatusValue.pending on_failed =
    utility_decision ActionType.wait_sla "provider_pending_within_sla" false
utility_by_status ProviderStatusValue.amount_mismatch on_failed =
    utility_decision ActionType.manual_review "amount_mismatch_between_wallet_and_provider" true
utility_by_status ProviderStatusValue.failed on_failed = on_failed
utility_by_status other on_failed =
    utility_decision ActionType.manual_review
      (concat ("unknown_provider_status (" ∷ provider_status_value_value other ∷ ")" ∷ [])) true

utility_debited :
    WalletLedger
    → Option UtilityProviderStatus
    → Option RefundStatus
    → EvidenceBundle
    → UtilityDecision
utility_debited ledger none refund evidence =
    utility_decision ActionType.manual_review "provider_status_unavailable" true
utility_debited ledger (some provider) refund evidence =
    utility_by_status provider.provider_status (
      utility_refund_branch (
        full_refund_eligibility_check (some ledger) (some provider.provider_status) refund
          evidence))

utility_with_ledger :
    Option WalletLedger
    → Option UtilityProviderStatus
    → Option RefundStatus
    → EvidenceBundle
    → UtilityDecision
unfolding utility_debited
utility_with_ledger none provider refund evidence =
    utility_decision ActionType.manual_review "wallet_ledger_unavailable" true
utility_with_ledger (some ledger) provider refund evidence =
    if ledger.has_user_debit
    then utility_debited ledger provider refund evidence
    else utility_decision ActionType.draft_customer_response "wallet_not_debited" false

unfoldable pub decide_utility_bill :
    Option WalletLedger
    → Option UtilityProviderStatus
    → Option RefundStatus
    → EvidenceBundle
    → UtilityDecision
unfolding utility_with_ledger
decide_utility_bill ledger provider refund evidence =
    if has_conflicts evidence
    then utility_decision ActionType.manual_review "conflict_detected" true
    else utility_with_ledger ledger provider refund evidence
