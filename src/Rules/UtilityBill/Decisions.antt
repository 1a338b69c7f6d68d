-- ===== src/Rules/UtilityBill/Decisions.antt =====
-- When the utility bill engine proposes a refund, and what its approval flag says.
use back_office_fintech.Common.{true, Option, none, some, [], ◌≡◌, ◌↔◌, arith}
use back_office_fintech.Schemas.Enums.{ActionType, ProviderStatusValue}
use back_office_fintech.Schemas.Evidence.{
  EvidenceBundle, RefundStatus, UtilityProviderStatus, WalletLedger,
}
use back_office_fintech.Rules.Refund.{full_refund_eligibility_check}
use back_office_fintech.Rules.Refund.Eligibility.{
  IsRefundable, HasNoRefund, IsDebited, eligible_of_IsRefundable, IsRefundable-of_eligible,
}
use back_office_fintech.Rules.Approval.{needs_approval}
use back_office_fintech.Rules.UtilityBill.{decide_utility_bill}

-- The provider has said `failed`.
abbrev pub HasFailed : Option UtilityProviderStatus → Type 0
HasFailed none = ⊥
HasFailed (some p) = p.provider_status ≡ ProviderStatusValue.failed

pub record IsBillRefundable (l : Option WalletLedger) (p : Option UtilityProviderStatus)
    (r : Option RefundStatus) (e : EvidenceBundle) : Type 0 where
  pub debited : IsDebited l
  pub has_failed : HasFailed p
  pub open_refund : HasNoRefund r
  pub clean : e.conflicts ≡ []

abbrev status_in : Option UtilityProviderStatus → Option ProviderStatusValue
status_in none = none
status_in (some p) = some p.provider_status

bill_refund_needs :
    (l : Option WalletLedger) (p : Option UtilityProviderStatus) (r : Option RefundStatus)
    (e : EvidenceBundle)
    → (decide_utility_bill l p r e).action ≡ ActionType.create_refund_request_draft
    → HasFailed p × ((full_refund_eligibility_check l (status_in p) r e).eligible ≡ true)
unfolding decide_utility_bill
bill_refund_needs l p r e h = ground arith

IsRefundable-of_bill :
    (l : Option WalletLedger) (p : Option UtilityProviderStatus) (r : Option RefundStatus)
    (e : EvidenceBundle)
    → IsBillRefundable l p r e
    → IsRefundable l (status_in p) r e
IsRefundable-of_bill l p r e h = ground arith

bill_refund_follows :
    (l : Option WalletLedger) (p : Option UtilityProviderStatus) (r : Option RefundStatus)
    (e : EvidenceBundle)
    → IsBillRefundable l p r e
    → (decide_utility_bill l p r e).action ≡ ActionType.create_refund_request_draft
unfolding decide_utility_bill
bill_refund_follows l p r e h =
    ground (arith, eligible_of_IsRefundable l (status_in p) r e (IsRefundable-of_bill l p r e h))

bill_of_refundable :
    (l : Option WalletLedger) (p : Option UtilityProviderStatus) (r : Option RefundStatus)
    (e : EvidenceBundle)
    → HasFailed p
    → IsRefundable l (status_in p) r e
    → IsBillRefundable l p r e
bill_of_refundable l p r e f h = ground arith

-- The utility bill engine proposes a refund draft exactly when the wallet was debited, the provider
-- has said `failed`, no refund is open, done or rejected, and the evidence has no conflict. So a
-- payment that is only not confirmed is never refunded.
pub decide_utility_bill-refund_iff :
    (l : Option WalletLedger) (p : Option UtilityProviderStatus) (r : Option RefundStatus)
    (e : EvidenceBundle)
    → ((decide_utility_bill l p r e).action ≡ ActionType.create_refund_request_draft)
      ↔ IsBillRefundable l p r e
decide_utility_bill-refund_iff l p r e = (
  λ h.
      let (f, c) = bill_refund_needs l p r e h in
      bill_of_refundable l p r e f (IsRefundable-of_eligible l (status_in p) r e c),
  bill_refund_follows l p r e,
)

-- In every branch the utility bill engine asks for an approval exactly for the actions that need one.
pub decide_utility_bill-approval :
    (l : Option WalletLedger) (p : Option UtilityProviderStatus) (r : Option RefundStatus)
    (e : EvidenceBundle)
    → (decide_utility_bill l p r e).approval_required
      ≡ needs_approval (decide_utility_bill l p r e).action
unfolding decide_utility_bill
decide_utility_bill-approval l p r e = ground arith
