-- ===== src/Claims/Verdicts.antt =====
-- When the claim of an amount matches.
use back_office_fintech.Common.{String, Option, none, some, ◌≡◌, ◌↔◌, refl, arith}
use back_office_fintech.Common.Int.{ℤ, eqb_ℤ_iff}
use back_office_fintech.Schemas.Evidence.{EvidenceBundle}
use back_office_fintech.Claims.{Claim, ClaimEnv, VerificationStatus, with_status, with_trusted}
use back_office_fintech.Claims.Amounts.{
  SourcedAmount, amount_against, amount_verdict, claimed_int, get_trusted_amount, is_amount,
  verify_transaction_amount_claim,
}

unfolded :
    (claim : Claim) (n : ℤ) (source : String) (k : Option (Option ℤ)) (c : Claim)
    → amount_verdict claim (n, source) k ≡ some c
    → (c.verification_status ≡ VerificationStatus.matched) ↔ (k ≡ some (some n))
unfolding amount_verdict is_amount with_trusted
unfolded claim n source none c h = ground arith
unfolded claim n source (some none) c h = ground arith
unfolded claim n source (some (some m)) c h = ground (arith, eqb_ℤ_iff m n)

-- The customer's value is the trusted amount.
abbrev pub StatesAmount : ClaimEnv → Claim → Option SourcedAmount → Type 0
StatesAmount env claim trusted =
    (n : ℤ) × (source : String) × (trusted ≡ some (n, source))
    × (claimed_int env claim.normalized_value ≡ some (some n))

amount_against-matched_iff :
    (env : ClaimEnv) (claim : Claim) (trusted : Option SourcedAmount) (c : Claim)
    → amount_against env claim trusted ≡ some c
    → (c.verification_status ≡ VerificationStatus.matched) ↔ StatesAmount env claim trusted
unfolding amount_against with_status
amount_against-matched_iff env claim none c h =
    (λ m. ground arith, λ (n, source, q, k). ground arith)
amount_against-matched_iff env claim (some (n, source)) c h =
    let same = unfolded claim n source (claimed_int env claim.normalized_value) c h in
    (λ m. (n, source, refl, same.0 m), λ (k, name, q, r). same.1 (grind (arith, q, r)))

-- A verified claim of an amount matches exactly when there is a trusted amount and the customer's
-- value, read as a number, is that amount.
pub verify_transaction_amount_claim-matched_iff :
    (env : ClaimEnv) (claim : Claim) (e : EvidenceBundle) (c : Claim)
    → verify_transaction_amount_claim env claim e ≡ some c
    → (c.verification_status ≡ VerificationStatus.matched)
      ↔ StatesAmount env claim (get_trusted_amount e)
unfolding verify_transaction_amount_claim
verify_transaction_amount_claim-matched_iff env claim e c h =
    amount_against-matched_iff env claim (get_trusted_amount e) c h
