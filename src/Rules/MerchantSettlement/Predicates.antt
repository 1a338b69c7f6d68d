-- ===== src/Rules/MerchantSettlement/Predicates.antt =====
-- The helper predicates of src/fintech_agent/rules/merchant_settlement_rules.py.
use back_office_fintech.Common.{
  String, Bool, true, false, not, ◌&&◌, ◌||◌, Option, none, some, List, [], ◌∷◌, str_eq, is_empty,
  is_one_of, if◌then◌else◌,
}
use back_office_fintech.Common.Text.{concat, lower, has_substring, text_or_empty}
use back_office_fintech.Schemas.Evidence.{
  BankTransferReceipt, MerchantBankAccount, MerchantPayout, SettlementBatch,
}

abbrev pub status_of : Option String → String
status_of s = lower (text_or_empty s)

abbrev is_inactive : Option Bool → Bool
is_inactive none = false
is_inactive (some b) = not b

-- Why the account cannot be used, or `none`.
unfoldable pub is_bank_account_invalid : MerchantBankAccount → Option String
is_bank_account_invalid acct =
    let status = status_of acct.verification_status in
    if is_one_of status ("pending" ∷ "rejected" ∷ "failed" ∷ [])
    then some (concat ("verification_" ∷ status ∷ []))
    else if is_inactive acct.is_active
    then some "inactive"
    else if not (is_empty (text_or_empty acct.failure_reason)) && not (str_eq status "verified")
    then some (concat ("failure_" ∷ text_or_empty acct.failure_reason ∷ []))
    else if str_eq status "name_mismatch"
    then some "name_mismatch"
    else none

abbrev receipt_is_pending : Option BankTransferReceipt → Bool
receipt_is_pending none = false
receipt_is_pending (some receipt) =
    is_one_of (status_of receipt.bank_status) ("pending" ∷ "processing" ∷ [])

unfoldable pub is_payout_in_progress : MerchantPayout → Option BankTransferReceipt → Bool
is_payout_in_progress payout receipt =
    is_one_of (status_of payout.status) ("processing" ∷ "pending" ∷ "submitted" ∷ [])
    || receipt_is_pending receipt

unfoldable pub is_payout_success : MerchantPayout → Bool
is_payout_success payout =
    is_one_of (status_of payout.status) ("success" ∷ "completed" ∷ "settled" ∷ [])

unfoldable pub is_payout_failed : MerchantPayout → Bool
is_payout_failed payout =
    is_one_of (status_of payout.status) ("failed" ∷ "rejected" ∷ "error" ∷ "bank_rejected" ∷ [])

unfoldable pub is_payout_not_created : Option MerchantPayout → Bool
is_payout_not_created none = false
is_payout_not_created (some payout) = str_eq (status_of payout.status) "not_created"

abbrev has_any_substring : List String → String → Bool
has_any_substring [] s = false
has_any_substring (k ∷ ks) s = has_substring k s || has_any_substring ks s

unfoldable pub is_payout_failed_retriable : MerchantPayout → Bool
is_payout_failed_retriable payout =
    is_payout_failed payout
    && has_any_substring ("timeout" ∷ "system_error" ∷ "temporary" ∷ "retry" ∷ [])
        (status_of payout.failure_reason)

-- `batch_failed` of rule 7.
unfoldable pub batch_failed : Option SettlementBatch → Bool
batch_failed none = true
batch_failed (some batch) =
    is_one_of (status_of batch.status) ("failed" ∷ "not_generated" ∷ "error" ∷ [])
