-- ===== src/Rules/TrainTicket/Decisions.antt =====
-- When the train ticket engine proposes money actions, and what its approval flag says.
use back_office_fintech.Common.{true, Option, none, some, ◌≡◌, ◌↔◌, arith}
use back_office_fintech.Schemas.Enums.{ActionType, ProviderStatusValue}
use back_office_fintech.Schemas.Evidence.{
  EvidenceBundle, RefundStatus, TrainProviderStatus, WalletLedger,
}
use back_office_fintech.Rules.Refund.{full_refund_eligibility_check}
use back_office_fintech.Rules.Refund.Eligibility.{
  IsRefundable, eligible_of_IsRefundable, IsRefundable-of_eligible,
}
use back_office_fintech.Rules.Approval.{needs_approval}
use back_office_fintech.Rules.TrainTicket.{decide_train_ticket}

abbrev pub booking_of : Option TrainProviderStatus → Option ProviderStatusValue
booking_of none = none
booking_of (some p) = some p.booking_status

refund_needs :
    (l : Option WalletLedger) (p : Option TrainProviderStatus) (r : Option RefundStatus)
    (e : EvidenceBundle)
    → (decide_train_ticket l p r e).action ≡ ActionType.create_refund_request_draft
    → (full_refund_eligibility_check l (booking_of p) r e).eligible ≡ true
unfolding decide_train_ticket
refund_needs l p r e h = ground arith

refund_follows :
    (l : Option WalletLedger) (p : Option TrainProviderStatus) (r : Option RefundStatus)
    (e : EvidenceBundle)
    → IsRefundable l (booking_of p) r e
    → (decide_train_ticket l p r e).action ≡ ActionType.create_refund_request_draft
unfolding decide_train_ticket
refund_follows l p r e h = ground (arith, eligible_of_IsRefundable l (booking_of p) r e h)

-- The train ticket engine proposes a refund draft exactly when the wallet was debited, the booking
-- failed or was not issued, no refund is open, done or rejected, and the evidence has no conflict.
pub decide_train_ticket-refund_iff :
    (l : Option WalletLedger) (p : Option TrainProviderStatus) (r : Option RefundStatus)
    (e : EvidenceBundle)
    → ((decide_train_ticket l p r e).action ≡ ActionType.create_refund_request_draft)
      ↔ IsRefundable l (booking_of p) r e
decide_train_ticket-refund_iff l p r e = (
  λ h. IsRefundable-of_eligible l (booking_of p) r e (refund_needs l p r e h),
  refund_follows l p r e,
)

-- In every branch the train ticket engine asks for an approval exactly for the actions that need one.
pub decide_train_ticket-approval :
    (l : Option WalletLedger) (p : Option TrainProviderStatus) (r : Option RefundStatus)
    (e : EvidenceBundle)
    → (decide_train_ticket l p r e).approval_required
      ≡ needs_approval (decide_train_ticket l p r e).action
unfolding decide_train_ticket
decide_train_ticket-approval l p r e = ground arith
