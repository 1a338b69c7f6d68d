-- ===== src/Rules/Guarantees.antt =====
-- The rule engines together with the idempotency and the risk rules.
use back_office_fintech.Common.{
  ℕ, String, Bool, true, false, Option, ◌≡◌, ◌⊎◌, ◌∙◌, sym, inl, inr, arith,
}
use back_office_fintech.Schemas.Enums.{ActionType}
use back_office_fintech.Schemas.Evidence.{
  AccountStatus, EvidenceBundle, FraudCase, ReconciliationStatus, RefundStatus, TrainProviderStatus,
  Transaction, UtilityProviderStatus, WalletLedger,
}
use back_office_fintech.Rules.Approval.{needs_approval}
use back_office_fintech.Rules.Risk.{requires_approval}
use back_office_fintech.Rules.Idempotency.{is_duplicate_action}
use back_office_fintech.Rules.Refund.Eligibility.{HasNoRefund}
use back_office_fintech.Rules.TrainTicket.{decide_train_ticket}
use back_office_fintech.Rules.TrainTicket.Decisions.{
  decide_train_ticket-approval, decide_train_ticket-refund_iff,
}
use back_office_fintech.Rules.UtilityBill.{decide_utility_bill}
use back_office_fintech.Rules.UtilityBill.Decisions.{
  decide_utility_bill-approval, decide_utility_bill-refund_iff,
}
use back_office_fintech.Rules.WalletTopup.{decide_wallet_topup}
use back_office_fintech.Rules.WalletTopup.Decisions.{decide_wallet_topup-approval}
use back_office_fintech.Rules.FraudAccountLock.{decide_fraud_account_lock}
use back_office_fintech.Rules.FraudAccountLock.Decisions.{decide_fraud_account_lock-approval}
use back_office_fintech.Rules.MerchantSettlement.{Calendar, decide_merchant_settlement}
use back_office_fintech.Rules.MerchantSettlement.Decisions.{decide_merchant_settlement-approval}

not_duplicate :
    (id : String) (n : ℕ) (r : Option RefundStatus)
    → HasNoRefund r
    → is_duplicate_action id ActionType.create_refund_request_draft n r ≡ false
unfolding is_duplicate_action
not_duplicate id n r h = ground arith

-- A refund that the train ticket or the utility bill engine proposes is never refused as a
-- duplicate of the refund record that the engine saw, whatever the transaction and the amount.
pub proposed_refund-not_duplicate :
    (l : Option WalletLedger) (t : Option TrainProviderStatus) (u : Option UtilityProviderStatus)
    (r : Option RefundStatus) (e : EvidenceBundle) (id : String) (n : ℕ)
    → ((decide_train_ticket l t r e).action ≡ ActionType.create_refund_request_draft)
      ⊎ ((decide_utility_bill l u r e).action ≡ ActionType.create_refund_request_draft)
    → is_duplicate_action id ActionType.create_refund_request_draft n r ≡ false
proposed_refund-not_duplicate l t u r e id n h = not_duplicate id n r (elim h [
  | inl p ↦ ((decide_train_ticket-refund_iff l t r e).0 p).open_refund
  | inr q ↦ ((decide_utility_bill-refund_iff l u r e).0 q).open_refund
])

-- The flag of a decision is what the risk rules say about its action, whatever the amount.
abbrev pub FollowsRisk : ActionType → Bool → Type 0
FollowsRisk action flag = (n : ℕ) → requires_approval action n ≡ flag

-- The actions of the settlement engine that the risk rules rate as low.
abbrev pub is_underrated : ActionType → Bool
is_underrated ActionType.create_manual_payout_draft = true
is_underrated ActionType.send_unc_email_draft = true
is_underrated ActionType.manual_settlement_review = true
is_underrated _ = false

-- The flag of a decision is set and the risk rules want no approval, for the underrated actions; for the
-- others they agree.
abbrev pub DiffersFromRisk : ActionType → Bool → Type 0
DiffersFromRisk action flag =
    (n : ℕ)
    → (is_underrated action ≡ true → (flag ≡ true) × (requires_approval action n ≡ false))
      × (is_underrated action ≡ false → requires_approval action n ≡ flag)

abbrev Rated : ActionType → Type 0
Rated action = is_underrated action ≡ false

module _ (e : EvidenceBundle) where
  train-Rated :
      (l : Option WalletLedger) (p : Option TrainProviderStatus) (r : Option RefundStatus)
      → Rated (decide_train_ticket l p r e).action
  unfolding decide_train_ticket
  train-Rated l p r = ground arith

  utility-Rated :
      (l : Option WalletLedger) (p : Option UtilityProviderStatus) (r : Option RefundStatus)
      → Rated (decide_utility_bill l p r e).action
  unfolding decide_utility_bill
  utility-Rated l p r = ground arith

  topup-Rated :
      (t : Option Transaction) (c : Option ReconciliationStatus)
      → Rated (decide_wallet_topup t c e).action
  unfolding decide_wallet_topup
  topup-Rated t c = ground arith

  fraud-Rated :
      (a : Option AccountStatus) (c : Option FraudCase)
      → Rated (decide_fraud_account_lock a c e).action
  unfolding decide_fraud_account_lock
  fraud-Rated a c = ground arith

-- The risk rules on an action, against the need for an approval.
rated_same : (a : ActionType) (n : ℕ) → Rated a → requires_approval a n ≡ needs_approval a
unfolding requires_approval
rated_same a n h = ground arith

underrated_differs :
    (a : ActionType) (n : ℕ)
    → is_underrated a ≡ true
    → (needs_approval a ≡ true) × (requires_approval a n ≡ false)
unfolding requires_approval
underrated_differs a n h = ground arith

follows : (a : ActionType) (flag : Bool) → flag ≡ needs_approval a → Rated a → FollowsRisk a flag
follows a flag q h n = rated_same a n h ∙ sym q

differs : (a : ActionType) (flag : Bool) → flag ≡ needs_approval a → DiffersFromRisk a flag
differs a flag q n = (
  λ u. let (needs, low) = underrated_differs a n u in (q ∙ needs, low),
  λ h. rated_same a n h ∙ sym q,
)

-- The approval flag of every decision of the train ticket, utility bill, top-up and fraud lock engines is
-- what `requires_approval` of the risk rules says about the proposed action, whatever the amount.
-- The settlement engine differs: where it proposes a manual payout, a UNC email or a manual settlement
-- review its flag is set although the risk rules want no approval; for its other actions they agree.
pub approval_required-vs-requires_approval :
    (cal : Calendar) (l : Option WalletLedger) (p : Option TrainProviderStatus)
    (u : Option UtilityProviderStatus) (r : Option RefundStatus) (t : Option Transaction)
    (c : Option ReconciliationStatus) (a : Option AccountStatus) (f : Option FraudCase)
    (e : EvidenceBundle)
    → FollowsRisk
        (decide_train_ticket l p r e).action
        (decide_train_ticket l p r e).approval_required
      × FollowsRisk
          (decide_utility_bill l u r e).action
          (decide_utility_bill l u r e).approval_required
      × FollowsRisk (decide_wallet_topup t c e).action (decide_wallet_topup t c e).approval_required
      × FollowsRisk
          (decide_fraud_account_lock a f e).action
          (decide_fraud_account_lock a f e).approval_required
      × DiffersFromRisk
          (decide_merchant_settlement cal e).action
          (decide_merchant_settlement cal e).approval_required
approval_required-vs-requires_approval cal l p u r t c a f e = (
  follows _ _ (decide_train_ticket-approval l p r e) (train-Rated e l p r),
  follows _ _ (decide_utility_bill-approval l u r e) (utility-Rated e l u r),
  follows _ _ (decide_wallet_topup-approval t c e) (topup-Rated e t c),
  follows _ _ (decide_fraud_account_lock-approval a f e) (fraud-Rated e a f),
  differs _ _ (decide_merchant_settlement-approval cal e),
)
