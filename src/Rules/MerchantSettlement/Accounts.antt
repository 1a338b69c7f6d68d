-- ===== src/Rules/MerchantSettlement/Accounts.antt =====
-- Which bank accounts the settlement rules accept.
use back_office_fintech.Common.{false, none, some, ◌≡◌, ◌≢◌, ◌↔◌, ◌⊎◌, arith, str_eq_iff}
use back_office_fintech.Common.Text.{text_or_empty}
use back_office_fintech.Schemas.Evidence.{MerchantBankAccount}
use back_office_fintech.Rules.MerchantSettlement.{is_bank_account_invalid, status_of}

-- The verification is not under way, refused or contradicted by the name, the account is not marked
-- inactive, and a recorded failure is tolerated only for a verified account.
pub record IsAccepted (a : MerchantBankAccount) : Type 0 where
  pub not_pending : status_of a.verification_status ≢ "pending"
  pub not_rejected : status_of a.verification_status ≢ "rejected"
  pub not_failed : status_of a.verification_status ≢ "failed"
  pub not_mismatched : status_of a.verification_status ≢ "name_mismatch"
  pub not_inactive : a.is_active ≢ some false
  pub no_failure :
      (text_or_empty a.failure_reason ≡ "") ⊎ (status_of a.verification_status ≡ "verified")

IsAccepted-of_valid : (a : MerchantBankAccount) → is_bank_account_invalid a ≡ none → IsAccepted a
unfolding is_bank_account_invalid
IsAccepted-of_valid a h = ground (
  arith,
  str_eq_iff (status_of a.verification_status) "pending",
  str_eq_iff (status_of a.verification_status) "rejected",
  str_eq_iff (status_of a.verification_status) "failed",
  str_eq_iff (status_of a.verification_status) "name_mismatch",
  str_eq_iff (status_of a.verification_status) "verified",
  str_eq_iff (text_or_empty a.failure_reason) "",
)

valid_of_accepted : (a : MerchantBankAccount) → IsAccepted a → is_bank_account_invalid a ≡ none
unfolding is_bank_account_invalid
valid_of_accepted a h = ground (
  arith,
  str_eq_iff (status_of a.verification_status) "pending",
  str_eq_iff (status_of a.verification_status) "rejected",
  str_eq_iff (status_of a.verification_status) "failed",
  str_eq_iff (status_of a.verification_status) "name_mismatch",
  str_eq_iff (status_of a.verification_status) "verified",
  str_eq_iff (text_or_empty a.failure_reason) "",
)

-- A bank account passes the check exactly when it is not pending, rejected, failed, mismatched by
-- name or inactive, and has no recorded failure unless it is verified. A status that is missing or
-- unknown passes.
pub is_bank_account_invalid-none_iff :
    (a : MerchantBankAccount) → (is_bank_account_invalid a ≡ none) ↔ IsAccepted a
is_bank_account_invalid-none_iff a = (IsAccepted-of_valid a, valid_of_accepted a)
