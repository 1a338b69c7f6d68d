-- ===== src/Rules/WalletTopup.antt =====
-- src/fintech_agent/rules/wallet_topup_rules.py: the decision of the wallet top-up workflow.
pub mod Decisions
use back_office_fintech.Common.{
  String, Bool, true, false, not, ◌&&◌, Option, none, some, [], ◌∷◌, str_eq, is_one_of,
  if◌then◌else◌,
}
use back_office_fintech.Common.Text.{concat, lower, text_or_empty}
use back_office_fintech.Schemas.Enums.{ActionType}
use back_office_fintech.Schemas.Evidence.{
  EvidenceBundle, ReconciliationStatus, Transaction, has_conflicts,
}

pub record WalletTopupDecision : Type 0 where
  pub action : ActionType
  pub diagnosis : String
  pub approval_required : Bool

abbrev pub topup_decision : ActionType → String → Bool → WalletTopupDecision
topup_decision a d r = record { action = a; diagnosis = d; approval_required = r }

-- `x is True` and `x is False` on an optional flag.
abbrev pub is_true : Option Bool → Bool
is_true (some true) = true
is_true (some false) = false
is_true none = false

abbrev pub is_false : Option Bool → Bool
is_false (some true) = false
is_false (some false) = true
is_false none = false

-- The tests on the bank's side of a pending transaction.
topup_by_bank : String → Option Bool → WalletTopupDecision
topup_by_bank bank_status money_received =
    if str_eq bank_status "success" && is_true money_received
    then topup_decision ActionType.create_force_success_draft
        "bank_success_money_received_wallet_pending" true
    else if str_eq bank_status "success" && is_false money_received
    then topup_decision ActionType.manual_review "bank_success_but_money_not_in_master_wallet" true
    else if is_one_of bank_status ("failed" ∷ "fail" ∷ "rejected" ∷ [])
    then topup_decision ActionType.draft_customer_response "bank_transfer_failed_wait_reversal"
        false
    else if is_false money_received
    then topup_decision ActionType.draft_customer_response "money_not_received_in_master_wallet"
        false
    else topup_decision ActionType.manual_review
        (concat ("unknown_bank_status (" ∷ bank_status ∷ ")" ∷ [])) true

topup_pending : Option ReconciliationStatus → WalletTopupDecision
unfolding topup_by_bank
topup_pending none = topup_decision ActionType.manual_review "reconciliation_unavailable" true
topup_pending (some reconciliation) =
    topup_by_bank (lower (text_or_empty reconciliation.bank_status))
      reconciliation.money_received_in_master_wallet

topup_with_transaction : Option Transaction → Option ReconciliationStatus → WalletTopupDecision
unfolding topup_pending
topup_with_transaction none reconciliation =
    topup_decision ActionType.manual_review "transaction_unavailable" true
topup_with_transaction (some transaction) reconciliation =
    if not (str_eq transaction.status "pending")
    then topup_decision ActionType.draft_customer_response
        (concat ("transaction_not_pending (status=" ∷ transaction.status ∷ ")" ∷ [])) false
    else topup_pending reconciliation

unfoldable pub decide_wallet_topup :
    Option Transaction → Option ReconciliationStatus → EvidenceBundle → WalletTopupDecision
unfolding topup_with_transaction
decide_wallet_topup transaction reconciliation evidence =
    if has_conflicts evidence
    then topup_decision ActionType.manual_review "conflict_detected" true
    else topup_with_transaction transaction reconciliation
