-- ===== src/Rules/Refund.antt =====
-- src/fintech_agent/rules/refund_rules.py: when a refund draft may be created.
pub mod Eligibility
use back_office_fintech.Common.{
  String, Bool, true, false, Option, none, some, List, [], ◌∷◌, if◌then◌else◌,
}
use back_office_fintech.Common.Text.{concat}
use back_office_fintech.Schemas.Enums.{
  ProviderStatusValue, RefundStatusValue, provider_status_value_value, refund_status_value_value,
}
use back_office_fintech.Schemas.Evidence.{
  EvidenceBundle, EvidenceConflict, RefundStatus, WalletLedger, has_conflicts,
}

pub record RefundEligibility : Type 0 where
  pub eligible : Bool
  pub reason : String

abbrev pub eligible_for : String → RefundEligibility
eligible_for r = record { eligible = true; reason = r }

abbrev pub refused_for : String → RefundEligibility
refused_for r = record { eligible = false; reason = r }

unfoldable pub check_wallet_debited : Option WalletLedger → RefundEligibility
check_wallet_debited none = refused_for "wallet_ledger not available"
check_wallet_debited (some ledger) =
    if ledger.has_user_debit
    then eligible_for "wallet debited confirmed"
    else refused_for "wallet not debited — no money to refund"

abbrev provider_verdict : ProviderStatusValue → String → RefundEligibility
provider_verdict ProviderStatusValue.ticket_issued s =
    refused_for (concat ("provider delivered service (" ∷ s ∷ ") — no refund" ∷ []))
provider_verdict ProviderStatusValue.confirmed s =
    refused_for (concat ("provider delivered service (" ∷ s ∷ ") — no refund" ∷ []))
provider_verdict ProviderStatusValue.ticket_not_issued s =
    eligible_for (concat ("provider failed (" ∷ s ∷ ") — refund eligible" ∷ []))
provider_verdict ProviderStatusValue.booking_failed s =
    eligible_for (concat ("provider failed (" ∷ s ∷ ") — refund eligible" ∷ []))
provider_verdict ProviderStatusValue.failed s =
    eligible_for (concat ("provider failed (" ∷ s ∷ ") — refund eligible" ∷ []))
provider_verdict _ s =
    refused_for (concat ("provider status ambiguous (" ∷ s ∷ ") — refund not eligible yet" ∷ []))

unfoldable pub check_provider_failed : Option ProviderStatusValue → RefundEligibility
check_provider_failed none = refused_for "provider status not available"
check_provider_failed (some status) = provider_verdict status (provider_status_value_value status)

abbrev refund_verdict : RefundStatusValue → String → RefundEligibility
refund_verdict RefundStatusValue.requested s =
    refused_for (concat ("refund already " ∷ s ∷ " — cannot create duplicate" ∷ []))
refund_verdict RefundStatusValue.approved s =
    refused_for (concat ("refund already " ∷ s ∷ " — cannot create duplicate" ∷ []))
refund_verdict RefundStatusValue.executed s =
    refused_for (concat ("refund already " ∷ s ∷ " — cannot create duplicate" ∷ []))
refund_verdict RefundStatusValue.rejected s =
    refused_for "refund was rejected — needs manager review to re-request"
refund_verdict _ s = eligible_for (concat ("refund status is " ∷ s ∷ " — eligible" ∷ []))

unfoldable pub check_no_existing_refund : Option RefundStatus → RefundEligibility
check_no_existing_refund none = eligible_for "no refund record — eligible"
check_no_existing_refund (some refund) =
    refund_verdict refund.refund_status (refund_status_value_value refund.refund_status)

-- `'; '.join(descriptions)`
join_descriptions : List EvidenceConflict → String
join_descriptions [] = ""
join_descriptions (c ∷ []) = c.description
join_descriptions (c ∷ (d ∷ cs)) = concat (c.description ∷ "; " ∷ join_descriptions (d ∷ cs) ∷ [])

unfoldable pub check_no_conflicts : EvidenceBundle → RefundEligibility
unfolding join_descriptions
check_no_conflicts evidence =
    if has_conflicts evidence
    then refused_for
        (concat ("evidence conflicts detected: " ∷ join_descriptions evidence.conflicts ∷ []))
    else eligible_for "no conflicts — eligible"

-- The first failing check, in order.
abbrev first_failure : List RefundEligibility → RefundEligibility
first_failure [] = eligible_for "all checks passed — refund draft eligible"
first_failure (check ∷ checks) = if check.eligible then first_failure checks else check

unfoldable pub full_refund_eligibility_check :
    Option WalletLedger
    → Option ProviderStatusValue
    → Option RefundStatus
    → EvidenceBundle
    → RefundEligibility
unfolding check_wallet_debited check_provider_failed check_no_existing_refund check_no_conflicts
full_refund_eligibility_check ledger provider_status refund evidence = first_failure (
    check_wallet_debited ledger
    ∷ check_provider_failed provider_status
    ∷ check_no_existing_refund refund
    ∷ check_no_conflicts evidence
    ∷ [])
