-- ===== src/Rules/MerchantSettlement.antt =====
-- src/fintech_agent/rules/merchant_settlement_rules.py: the decision of the merchant settlement
-- workflow. The system date and the reading of ISO dates (`datetime`) are a parameter, `Calendar`.
pub mod Decisions
pub mod Amounts
pub mod Accounts
mod Predicates
unfoldable pub use Predicates.*
use back_office_fintech.Common.{
  ℕ, String, Bool, true, false, ◌&&◌, ◌||◌, Option, none, some, [], ◌∷◌, is_none, is_empty,
  if◌then◌else◌, ltb, str_eq,
}
use back_office_fintech.Common.Int.{ℤ, pos, leb_ℤ, ltb_ℤ, ◌-ℤ◌}
use back_office_fintech.Common.Text.{concat}
use back_office_fintech.Common.Dict.{Dict}
use back_office_fintech.Common.Value
use back_office_fintech.Common.Value.{Value, optional_text, optional_num}
use back_office_fintech.Schemas.Enums.{ActionType}
use back_office_fintech.Schemas.Evidence.{
  BankTransferReceipt, EvidenceBundle, MerchantBankAccount, MerchantPayout, MerchantProfile,
  MerchantSettlementLedger, SettlementBatch,
}

pub record MerchantSettlementDecision : Type 0 where
  pub action : ActionType
  pub diagnosis : String
  pub approval_required : Bool
  pub details : Option (Dict Value)

abbrev pub settlement_decision :
    ActionType → String → Bool → Option (Dict Value) → MerchantSettlementDecision
settlement_decision a d r x = record {
  action = a;
  diagnosis = d;
  approval_required = r;
  details = x;
}

-- `date.today()` and `date.fromisoformat` as ordinals of days; `none` is its `ValueError`.
pub record Calendar : Type 0 where
  pub today : ℕ
  pub from_iso_format : String → Option ℕ

-- Rule 5: the due date is there, can be read, and lies after today.
unfoldable pub is_not_due : Calendar → MerchantSettlementLedger → Bool
is_not_due cal ledger = elim ledger.due_date [
  | none ↦ false
  | some s ↦
      if is_empty s
      then false
      else elim (cal.from_iso_format s) [ none ↦ false | some due ↦ ltb cal.today due ]
]

abbrev pub amount_or_zero : Option ℤ → ℤ
amount_or_zero none = pos 0
amount_or_zero (some n) = n

abbrev pub unc_sent : Option BankTransferReceipt → Bool
unc_sent none = false
unc_sent (some receipt) = elim receipt.sent_to_merchant [ none ↦ false | some b ↦ b ]

abbrev unc_number_of : Option BankTransferReceipt → Value
unc_number_of none = Value.null
unc_number_of (some receipt) = optional_text receipt.unc_number

abbrev receipt_url_of : Option BankTransferReceipt → Value
receipt_url_of none = Value.null
receipt_url_of (some receipt) = optional_text receipt.receipt_url

-- Rules 10 to 12: the payout has succeeded.
settlement_paid : MerchantPayout → Option BankTransferReceipt → ℤ → MerchantSettlementDecision
settlement_paid payout receipt net_amount =
    let payout_amount = amount_or_zero payout.amount in
    if ltb_ℤ (pos 0) payout_amount && ltb_ℤ payout_amount net_amount
    then settlement_decision ActionType.manual_settlement_review
        "payout_amount_less_than_ledger_difference_payout" true
        (some (
          ("payout_amount", Value.num payout_amount)
          ∷ ("ledger_net_amount", Value.num net_amount)
          ∷ ("difference", Value.num (net_amount -ℤ payout_amount))
          ∷ []))
    else if unc_sent receipt
    then settlement_decision ActionType.draft_customer_response "payout_success_unc_already_sent"
        false
        (some (
          ("payout_id", Value.text payout.payout_id)
          ∷ ("unc_number", unc_number_of receipt)
          ∷ ("receipt_url", receipt_url_of receipt)
          ∷ []))
    else settlement_decision ActionType.send_unc_email_draft "payout_success_unc_not_sent" true (
        some
          (("payout_id", Value.text payout.payout_id) ∷ ("unc_number", unc_number_of receipt) ∷ []))

abbrev batch_id_of : Option SettlementBatch → Value
batch_id_of none = Value.null
batch_id_of (some batch) = Value.text batch.batch_id

abbrev batch_status_of : Option SettlementBatch → Value
batch_status_of none = Value.null
batch_status_of (some batch) = optional_text batch.status

abbrev batch_payout : MerchantProfile → Option SettlementBatch → ℤ → MerchantSettlementDecision
batch_payout merchant batch net_amount =
    settlement_decision ActionType.create_manual_payout_draft "batch_failed_create_manual_payout"
      true
      (some (
        ("amount", Value.num net_amount)
        ∷ ("merchant_id", Value.text merchant.merchant_id)
        ∷ ("batch_id", batch_id_of batch)
        ∷ ("batch_status", batch_status_of batch)
        ∷ ("draft_only", Value.bool true)
        ∷ []))

abbrev settlement_unknown : MerchantSettlementDecision
settlement_unknown =
    settlement_decision ActionType.manual_settlement_review "unknown_or_conflicting_evidence" true
      none

-- Rules 9 and 10 to 12, 8, 7, the rejected payout and 13, where there is a payout record.
settlement_payout :
    MerchantProfile
    → Option SettlementBatch
    → MerchantPayout
    → Option BankTransferReceipt
    → ℤ
    → MerchantSettlementDecision
unfolding settlement_paid
settlement_payout merchant batch payout receipt net_amount =
    if is_payout_in_progress payout receipt
    then settlement_decision ActionType.draft_customer_response "payout_in_progress_monitor" false (
        some (
          ("payout_id", Value.text payout.payout_id)
          ∷ ("payout_status", optional_text payout.status)
          ∷ ("duplicate_payout_risk", Value.bool true)
          ∷ []))
    else if is_payout_success payout
    then settlement_paid payout receipt net_amount
    else if is_payout_failed_retriable payout
    then settlement_decision ActionType.create_manual_payout_draft
        "payout_failed_retriable_retry_payout" true
        (some (
          ("payout_id", Value.text payout.payout_id)
          ∷ ("failure_reason", optional_text payout.failure_reason)
          ∷ ("amount", Value.num net_amount)
          ∷ ("draft_only", Value.bool true)
          ∷ []))
    else if (is_payout_failed payout || is_payout_not_created (some payout)) && batch_failed batch
    then batch_payout merchant batch net_amount
    else if is_payout_failed payout
    then settlement_decision ActionType.manual_settlement_review "payout_failed_non_retriable" true
        (some (
          ("payout_id", Value.text payout.payout_id)
          ∷ ("failure_reason", optional_text payout.failure_reason)
          ∷ []))
    else settlement_unknown

-- Rule 7 and 13 without a payout record.
settlement_no_payout : MerchantProfile → Option SettlementBatch → ℤ → MerchantSettlementDecision
settlement_no_payout merchant batch net_amount =
    if batch_failed batch then batch_payout merchant batch net_amount else settlement_unknown

settlement_by_payout :
    MerchantProfile
    → Option SettlementBatch
    → Option MerchantPayout
    → Option BankTransferReceipt
    → ℤ
    → MerchantSettlementDecision
unfolding settlement_payout settlement_no_payout
settlement_by_payout merchant batch none receipt net_amount =
    settlement_no_payout merchant batch net_amount
settlement_by_payout merchant batch (some payout) receipt net_amount =
    settlement_payout merchant batch payout receipt net_amount

-- Rules 4 to 6.
settlement_by_ledger :
    Calendar
    → MerchantProfile
    → EvidenceBundle
    → Option MerchantSettlementLedger
    → MerchantSettlementDecision
unfolding settlement_by_payout is_not_due
settlement_by_ledger cal merchant evidence none =
    settlement_decision ActionType.manual_settlement_review "settlement_ledger_not_found" true none
settlement_by_ledger cal merchant evidence (some ledger) =
    let net_amount = amount_or_zero ledger.net_settlement_amount in
    if is_not_due cal ledger
    then settlement_decision ActionType.draft_customer_response "settlement_not_due_yet" false
        (some (("due_date", optional_text ledger.due_date) ∷ []))
    else if leb_ℤ net_amount (pos 0)
    then settlement_decision ActionType.draft_customer_response "net_settlement_zero_or_negative"
        false
        (some (
          ("gross_amount", optional_num ledger.gross_amount)
          ∷ ("fee_amount", optional_num ledger.fee_amount)
          ∷ ("refund_amount", optional_num ledger.refund_amount)
          ∷ ("chargeback_amount", optional_num ledger.chargeback_amount)
          ∷ ("net_settlement_amount", Value.num net_amount)
          ∷ []))
    else settlement_by_payout merchant evidence.settlement_batch evidence.merchant_payout
        evidence.bank_transfer_receipt net_amount

-- Rule 3.
settlement_by_bank :
    Calendar
    → MerchantProfile
    → EvidenceBundle
    → Option MerchantBankAccount
    → MerchantSettlementDecision
unfolding settlement_by_ledger
settlement_by_bank cal merchant evidence none =
    settlement_decision ActionType.request_bank_account_correction "bank_account_missing" false none
settlement_by_bank cal merchant evidence (some bank_acct) =
    elim (is_bank_account_invalid bank_acct) [
      | some bank_bad ↦
          settlement_decision ActionType.request_bank_account_correction
            (concat ("bank_account_" ∷ bank_bad ∷ [])) false
            (some (
              ("reason", Value.text bank_bad)
              ∷ ("bank_account_id", Value.text bank_acct.bank_account_id)
              ∷ []))
      | none ↦ settlement_by_ledger cal merchant evidence evidence.merchant_settlement_ledger
    ]

abbrev pub is_on_hold : MerchantProfile → Bool
is_on_hold merchant = elim merchant.status [ none ↦ false | some s ↦ str_eq s "on_hold" ]

-- Rules 1 and 2.
settlement_by_merchant :
    Calendar → Option MerchantProfile → EvidenceBundle → MerchantSettlementDecision
unfolding settlement_by_bank
settlement_by_merchant cal none evidence =
    settlement_decision ActionType.request_identity_correction "merchant_not_found" false none
settlement_by_merchant cal (some merchant) evidence =
    if is_on_hold merchant
    then settlement_decision ActionType.manual_settlement_review "merchant_on_hold_escalate_ops"
        true none
    else settlement_by_bank cal merchant evidence evidence.merchant_bank_account

unfoldable pub decide_merchant_settlement : Calendar → EvidenceBundle → MerchantSettlementDecision
unfolding settlement_by_merchant
decide_merchant_settlement cal evidence =
    settlement_by_merchant cal evidence.merchant_profile evidence
