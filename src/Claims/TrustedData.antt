-- ===== src/Claims/TrustedData.antt =====
-- src/fintech_agent/rules/claim_verifier.py: the data that an action may use.
use back_office_fintech.Common.{String, Bool, Option, none, some, [], if◌then◌else◌}
use back_office_fintech.Common.Int.{ℤ, pos}
use back_office_fintech.Common.Text.{text_or_empty}
use back_office_fintech.Common.Dict.{Dict, insert}
use back_office_fintech.Schemas.CaseState.{is_truthy}
use back_office_fintech.Schemas.Enums.{wallet_ledger_status_value}
use back_office_fintech.Schemas.Evidence.{
  AccountStatus, EvidenceBundle, FraudCase, ReconciliationStatus, Transaction, WalletLedger,
}
use back_office_fintech.Claims.{ClaimValue}
use back_office_fintech.Claims.Amounts.{SourcedAmount, get_trusted_amount}
use back_office_fintech.Claims.Verifiers.{or_unknown}

abbrev pub flag : Bool → ClaimValue
flag b = ClaimValue.number (pos (if b then 1 else 0))

unfoldable pub with_amount : Option SourcedAmount → Dict ClaimValue → Dict ClaimValue
with_amount none d = d
with_amount (some (amount, source)) d =
    insert "action_amount_source" (ClaimValue.word source)
      (insert "action_amount" (ClaimValue.number amount) d)

unfoldable pub with_transaction : Option Transaction → Dict ClaimValue → Dict ClaimValue
with_transaction none d = d
with_transaction (some t) d = insert "service_type" (ClaimValue.word t.service_type) (
    insert "user_id" (ClaimValue.word t.user_id)
      (insert "transaction_id" (ClaimValue.word t.transaction_id) d))

unfoldable pub with_ledger : Option WalletLedger → Dict ClaimValue → Dict ClaimValue
with_ledger none d = d
with_ledger (some w) d = insert "has_credit_refund" (flag w.has_credit_refund) (
    insert "has_user_debit" (flag w.has_user_debit)
      (insert "wallet_status" (ClaimValue.word (wallet_ledger_status_value w.status)) d))

-- `if value is not None: data[key] = value`
abbrev pub insert_number : String → Option ℤ → Dict ClaimValue → Dict ClaimValue
insert_number key none d = d
insert_number key (some n) d = insert key (ClaimValue.number n) d

-- `if value: data[key] = value`
abbrev pub insert_text : String → Option String → Dict ClaimValue → Dict ClaimValue
insert_text key value d =
    if is_truthy value then insert key (ClaimValue.word (text_or_empty value)) d else d

abbrev pub insert_flag : String → Option Bool → Dict ClaimValue → Dict ClaimValue
insert_flag key none d = d
insert_flag key (some b) d = insert key (flag b) d

unfoldable pub with_reconciliation : Option ReconciliationStatus → Dict ClaimValue → Dict ClaimValue
with_reconciliation none d = d
with_reconciliation (some r) d =
    insert_text "bank_status" r.bank_status (insert_number "bank_amount" r.bank_amount d)

unfoldable pub with_account : Option AccountStatus → Dict ClaimValue → Dict ClaimValue
with_account none d = d
with_account (some a) d = insert_text "lock_reason" a.lock_reason (
    insert_flag "withdrawal_enabled" a.withdrawal_enabled (
      insert "account_status" (ClaimValue.word (or_unknown a.account_status))
        (insert "user_id" (ClaimValue.word a.user_id) d)))

unfoldable pub with_fraud : Option FraudCase → Dict ClaimValue → Dict ClaimValue
with_fraud none d = d
with_fraud (some f) d = insert_text "recommended_decision" f.recommended_decision (
    insert_text "fraud_status" f.fraud_status
      (insert_text "risk_level" f.risk_level (insert_number "risk_score" f.risk_score d)))

-- `_build_trusted_data_for_action`
unfoldable pub build_trusted_data_for_action : EvidenceBundle → Dict ClaimValue
build_trusted_data_for_action e = with_fraud e.fraud_case (
    with_account e.account_status (
      with_reconciliation e.reconciliation_status (
        with_ledger e.wallet_ledger
          (with_transaction e.transaction (with_amount (get_trusted_amount e) [])))))
