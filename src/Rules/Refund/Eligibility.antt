-- ===== src/Rules/Refund/Eligibility.antt =====
-- What the refund checks of src/fintech_agent/rules/refund_rules.py amount to.
use back_office_fintech.Common.{true, Option, none, some, [], ◌≡◌, ◌⊎◌, ◌↔◌, arith}
use back_office_fintech.Schemas.Enums.{ProviderStatusValue, RefundStatusValue}
use back_office_fintech.Schemas.Evidence.{EvidenceBundle, RefundStatus, WalletLedger}
use back_office_fintech.Rules.Refund.{full_refund_eligibility_check}

-- The wallet ledger is there and shows the debit.
abbrev pub IsDebited : Option WalletLedger → Type 0
IsDebited none = ⊥
IsDebited (some ledger) = ledger.has_user_debit ≡ true

-- The provider has said that the service was not delivered.
abbrev pub IsUndelivered : ProviderStatusValue → Type 0
IsUndelivered s =
    (s ≡ ProviderStatusValue.ticket_not_issued)
    ⊎ (s ≡ ProviderStatusValue.booking_failed)
    ⊎ (s ≡ ProviderStatusValue.failed)

abbrev pub IsUndeliveredBy : Option ProviderStatusValue → Type 0
IsUndeliveredBy none = ⊥
IsUndeliveredBy (some s) = IsUndelivered s

-- No refund has been asked for, or the one that was has failed.
abbrev pub HasNoRefund : Option RefundStatus → Type 0
HasNoRefund none = Unit
HasNoRefund (some r) =
    (r.refund_status ≡ RefundStatusValue.not_requested)
    ⊎ (r.refund_status ≡ RefundStatusValue.failed)

pub record IsRefundable (l : Option WalletLedger) (p : Option ProviderStatusValue)
    (r : Option RefundStatus) (e : EvidenceBundle) : Type 0 where
  pub debited : IsDebited l
  pub undelivered : IsUndeliveredBy p
  pub open_refund : HasNoRefund r
  pub clean : e.conflicts ≡ []

pub eligible_of_IsRefundable :
    (l : Option WalletLedger) (p : Option ProviderStatusValue) (r : Option RefundStatus)
    (e : EvidenceBundle)
    → IsRefundable l p r e
    → (full_refund_eligibility_check l p r e).eligible ≡ true
unfolding full_refund_eligibility_check
eligible_of_IsRefundable l p r e h = ground arith

pub IsRefundable-of_eligible :
    (l : Option WalletLedger) (p : Option ProviderStatusValue) (r : Option RefundStatus)
    (e : EvidenceBundle)
    → (full_refund_eligibility_check l p r e).eligible ≡ true
    → IsRefundable l p r e
unfolding full_refund_eligibility_check
IsRefundable-of_eligible l p r e h = ground arith

-- The refund check passes exactly when the wallet was debited, the provider has failed to deliver,
-- no refund is open, done or rejected, and the evidence has no conflict.
pub full_refund_eligibility_check_iff :
    (l : Option WalletLedger) (p : Option ProviderStatusValue) (r : Option RefundStatus)
    (e : EvidenceBundle)
    → ((full_refund_eligibility_check l p r e).eligible ≡ true) ↔ IsRefundable l p r e
full_refund_eligibility_check_iff l p r e =
    (IsRefundable-of_eligible l p r e, eligible_of_IsRefundable l p r e)
