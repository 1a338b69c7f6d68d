-- ===== src/Claims/Counts.antt =====
-- Every claim of a summary stands in exactly one category.
use back_office_fintech.Common.{
  ℕ, ◌+◌, String, Option, none, some, List, [], ◌∷◌, ◌≡◌, refl, subst, arith, length, inl, inr,
  Option-cases, if◌then◌else◌,
}
use back_office_fintech.Schemas.CaseState.{ExtractedInfo}
use back_office_fintech.Schemas.Evidence.{EvidenceBundle}
use back_office_fintech.Claims.{Claim, ClaimEnv, ClaimVerificationSummary, VerificationStatus}
use back_office_fintech.Claims.Synthesis.{claims_from_extracted_info}
use back_office_fintech.Claims.Summary.{
  inject_system_amount, same_status, summarise, summary_of, types_with, verify_all_claims,
  verify_claims, verify_each,
}

-- The number of claims with a status.
abbrev count_with : VerificationStatus → List Claim → ℕ
count_with status claims = length (types_with status claims)

abbrev is_one : VerificationStatus → VerificationStatus → ℕ
is_one s t = if same_status s t then 1 else 0

count_with_cons :
    (status : VerificationStatus) (c : Claim) (cs : List Claim)
    → count_with status (c ∷ cs) ≡ is_one c.verification_status status + count_with status cs
unfolding types_with
count_with_cons status c cs = ground arith

one_status :
    (s : VerificationStatus)
    → is_one s VerificationStatus.matched
        + is_one s VerificationStatus.mismatched
        + is_one s VerificationStatus.not_verifiable
        + is_one s VerificationStatus.not_found
        + is_one s VerificationStatus.system_only
      ≡ 1
one_status VerificationStatus.matched = refl
one_status VerificationStatus.mismatched = refl
one_status VerificationStatus.not_verifiable = refl
one_status VerificationStatus.not_found = refl
one_status VerificationStatus.system_only = refl

-- The categories of a list of claims.
abbrev total : List Claim → ℕ
total claims =
    count_with VerificationStatus.matched claims
    + count_with VerificationStatus.mismatched claims
    + count_with VerificationStatus.not_verifiable claims
    + count_with VerificationStatus.not_found claims
    + count_with VerificationStatus.system_only claims

total-length : (claims : List Claim) → total claims ≡ length claims
unfolding types_with
total-length [] = refl
total-length (c ∷ cs) = omega (
  arith,
  total-length cs,
  one_status c.verification_status,
  count_with_cons VerificationStatus.matched c cs,
  count_with_cons VerificationStatus.mismatched c cs,
  count_with_cons VerificationStatus.not_verifiable c cs,
  count_with_cons VerificationStatus.not_found c cs,
  count_with_cons VerificationStatus.system_only c cs,
)

abbrev pub IsPartition : ClaimVerificationSummary → Type 0
IsPartition s =
    length s.matched_claims
      + length s.mismatched_claims
      + length s.not_verifiable_claims
      + length s.not_found_claims
      + length (types_with VerificationStatus.system_only s.claims)
    ≡ length s.claims

summary_of-IsPartition :
    (e : EvidenceBundle) (claims : List Claim) → IsPartition (summary_of e claims)
unfolding summary_of
summary_of-IsPartition e claims = total-length claims

verify_claims-IsPartition :
    (env : ClaimEnv) (e : EvidenceBundle) (claims : Option (List Claim))
    (s : ClaimVerificationSummary)
    → verify_claims env e claims ≡ some s
    → IsPartition s
unfolding verify_claims summarise
verify_claims-IsPartition env e none s h = ground arith
verify_claims-IsPartition env e (some claims) s h = elim (Option-cases (verify_each env e claims)) [
  | inl raised ↦ ground arith
  | inr (verified, q) ↦
      let all = inject_system_amount env e verified in
      let same : summary_of e all ≡ s = ground arith in
      subst IsPartition same (summary_of-IsPartition e all)
]

-- The claims of a summary fall into five categories: matched, mismatched, not verifiable, not found
-- and known to the system alone. The sizes of these add up to the number of claims.
pub verify_all_claims-IsPartition :
    (env : ClaimEnv) (info : Option ExtractedInfo) (raw : String) (e : EvidenceBundle)
    (s : ClaimVerificationSummary)
    → verify_all_claims env info raw e ≡ some s
    → IsPartition s
unfolding verify_all_claims
verify_all_claims-IsPartition env info raw e s h =
    verify_claims-IsPartition env e (claims_from_extracted_info env info raw) s h
