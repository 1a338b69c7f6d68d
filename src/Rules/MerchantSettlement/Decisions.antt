-- ===== src/Rules/MerchantSettlement/Decisions.antt =====
-- When the settlement engine proposes a manual payout, of how much, and its approval flag.
use back_office_fintech.Common.{true, false, Option, none, some, ◌≡◌, ◌↔◌, ◌⊎◌, arith}
use back_office_fintech.Common.Int.{pos, ◌<ℤ◌}
use back_office_fintech.Schemas.Enums.{ActionType}
use back_office_fintech.Schemas.Evidence.{
  BankTransferReceipt, EvidenceBundle, MerchantBankAccount, MerchantPayout, MerchantProfile,
  MerchantSettlementLedger, SettlementBatch,
}
use back_office_fintech.Rules.Approval.{needs_approval}
use back_office_fintech.Rules.MerchantSettlement.{
  Calendar, amount_or_zero, batch_failed, decide_merchant_settlement, is_bank_account_invalid,
  is_not_due, is_on_hold, is_payout_failed, is_payout_failed_retriable, is_payout_in_progress,
  is_payout_not_created, is_payout_success,
}

abbrev pub IsActiveMerchant : Option MerchantProfile → Type 0
IsActiveMerchant none = ⊥
IsActiveMerchant (some m) = is_on_hold m ≡ false

abbrev pub HasUsableAccount : Option MerchantBankAccount → Type 0
HasUsableAccount none = ⊥
HasUsableAccount (some a) = is_bank_account_invalid a ≡ none

-- The ledger is there, its due date is not in the future, and its net amount is positive.
abbrev pub IsOwed : Calendar → Option MerchantSettlementLedger → Type 0
IsOwed cal none = ⊥
IsOwed cal (some l) = (is_not_due cal l ≡ false) × (pos 0 <ℤ amount_or_zero l.net_settlement_amount)

-- No payout is under way or done, and the last one failed for a reason that allows a retry, or the
-- batch has failed and there is no payout, or one that failed or was never created.
abbrev pub IsUnpaid :
    Option MerchantPayout → Option BankTransferReceipt → Option SettlementBatch → Type 0
IsUnpaid none receipt batch = batch_failed batch ≡ true
IsUnpaid (some p) receipt batch =
    (is_payout_in_progress p receipt ≡ false)
    × (is_payout_success p ≡ false)
    × ((is_payout_failed_retriable p ≡ true)
        ⊎ ((is_payout_failed p ≡ true) × (batch_failed batch ≡ true))
        ⊎ ((is_payout_not_created (some p) ≡ true) × (batch_failed batch ≡ true)))

pub record IsPayable (cal : Calendar) (e : EvidenceBundle) : Type 0 where
  pub active : IsActiveMerchant e.merchant_profile
  pub account : HasUsableAccount e.merchant_bank_account
  pub owed : IsOwed cal e.merchant_settlement_ledger
  pub unpaid : IsUnpaid e.merchant_payout e.bank_transfer_receipt e.settlement_batch

payout_needs :
    (cal : Calendar) (e : EvidenceBundle)
    → (decide_merchant_settlement cal e).action ≡ ActionType.create_manual_payout_draft
    → IsPayable cal e
unfolding decide_merchant_settlement
payout_needs cal e h = ground arith

payout_follows :
    (cal : Calendar) (e : EvidenceBundle)
    → IsPayable cal e
    → (decide_merchant_settlement cal e).action ≡ ActionType.create_manual_payout_draft
unfolding decide_merchant_settlement
payout_follows cal e h = ground arith

-- The settlement engine proposes a manual payout exactly when the merchant is known and not on hold,
-- the bank account passes the check, a positive net amount is owed that is not due in the future, no
-- payout is under way or done, and the last payout failed for a reason that allows a retry, or the
-- batch has failed and the payout is missing, failed or was never created.
pub decide_merchant_settlement-payout_iff :
    (cal : Calendar) (e : EvidenceBundle)
    → ((decide_merchant_settlement cal e).action ≡ ActionType.create_manual_payout_draft)
      ↔ IsPayable cal e
decide_merchant_settlement-payout_iff cal e = (payout_needs cal e, payout_follows cal e)

-- In every branch the settlement engine asks for an approval exactly for the actions that need one.
pub decide_merchant_settlement-approval :
    (cal : Calendar) (e : EvidenceBundle)
    → (decide_merchant_settlement cal e).approval_required
      ≡ needs_approval (decide_merchant_settlement cal e).action
unfolding decide_merchant_settlement
decide_merchant_settlement-approval cal e = ground arith
