-- ===== src/Claims/Answers.antt =====
-- The claims of a summary answer the claims that were verified, one by one.
use back_office_fintech.Common.{
  String, Option, none, some, List, [], ◌∷◌, ◌++◌, ◌≡◌, inl, inr, refl, sym, subst, arith, length,
  Bool-cases, true, false,
}
use mathlib.Core.List.{append-nil}
use back_office_fintech.Schemas.CaseState.{ExtractedInfo}
use back_office_fintech.Schemas.Evidence.{EvidenceBundle}
use back_office_fintech.Claims.{
  Claim, ClaimEnv, ClaimType, ClaimValue, ClaimVerificationSummary, VerificationStatus,
}
use back_office_fintech.Claims.Amounts.{SourcedAmount, get_trusted_amount}
use back_office_fintech.Claims.Account.{verifier_of}
use back_office_fintech.Claims.Statements.{
  KeepsStatement, SameStatement, verifier_of-KeepsStatement,
}
use back_office_fintech.Claims.Synthesis.{claims_from_extracted_info}
use back_office_fintech.Claims.Summary.{
  append_system, cons_verified, has_type, inject_system_amount, summarise, summary_of,
  system_only_claim, verify_all_claims, verify_claims, verify_each,
}

-- What follows the answers: nothing, or the trusted amount, which no customer stated.
abbrev pub IsSystemAmount : EvidenceBundle → List Claim → Type 0
IsSystemAmount e [] = Unit
IsSystemAmount e (c ∷ cs) =
    (cs ≡ [])
    × (c.verification_status ≡ VerificationStatus.system_only)
    × (c.claim_type ≡ ClaimType.transaction_amount)
    × (c.customer_claimed_value ≡ ClaimValue.absent)
    × (n : SourcedAmount) × (get_trusted_amount e ≡ some n)
    × (c.trusted_system_value ≡ ClaimValue.number (n.0))

abbrev pub Answers : EvidenceBundle → List Claim → List Claim → Type 0
Answers e [] ds = IsSystemAmount e ds
Answers e (c ∷ cs) [] = true ≡ false
Answers e (c ∷ cs) (d ∷ ds) = SameStatement c d × Answers e cs ds

cons_verified-Answers :
    (e : EvidenceBundle) (extra : List Claim) (c : Claim) (cs ds : List Claim) (v : Option Claim)
    (rest : Option (List Claim))
    → cons_verified v rest ≡ some ds
    → KeepsStatement c v
    → ((vs : List Claim) → rest ≡ some vs → Answers e cs (vs ++ extra))
    → Answers e (c ∷ cs) (ds ++ extra)
cons_verified-Answers e extra c cs ds none rest q k i = ground arith
cons_verified-Answers e extra c cs ds (some v) none q k i = ground arith
cons_verified-Answers e extra c cs [] (some v) (some vs) q k i = ground arith
cons_verified-Answers e extra c cs (d ∷ ds) (some v) (some vs) q k i =
    (k d (ground arith), i ds (ground arith))

verify_each-Answers :
    (env : ClaimEnv) (e : EvidenceBundle) (cs ds extra : List Claim)
    → verify_each env e cs ≡ some ds
    → IsSystemAmount e extra
    → Answers e cs (ds ++ extra)
unfolding verify_each
verify_each-Answers env e [] [] extra h x = x
verify_each-Answers env e [] (d ∷ ds) extra h x = ground arith
verify_each-Answers env e (c ∷ cs) ds extra h x =
    cons_verified-Answers e extra c cs ds (verifier_of env c.claim_type c e) (verify_each env e cs)
      h (verifier_of-KeepsStatement env c.claim_type c e)
      (λ vs q. verify_each-Answers env e cs vs extra q x)

append_system-splits :
    (env : ClaimEnv) (e : EvidenceBundle) (ds : List Claim) (trusted : Option SourcedAmount)
    → get_trusted_amount e ≡ trusted
    → (extra : List Claim) × (append_system env trusted ds ≡ ds ++ extra) × IsSystemAmount e extra
unfolding system_only_claim
append_system-splits env e ds none h = ([], sym (append-nil ds), tt)
append_system-splits env e ds (some (n, source)) h = (
  system_only_claim env (n, source) (length ds) ∷ [],
  refl,
  (refl, refl, refl, refl, (n, source), h, refl),
)

inject-splits :
    (env : ClaimEnv) (e : EvidenceBundle) (ds : List Claim)
    → (extra : List Claim) × (inject_system_amount env e ds ≡ ds ++ extra) × IsSystemAmount e extra
unfolding inject_system_amount
inject-splits env e ds = elim (Bool-cases (has_type ClaimType.transaction_amount ds)) [
  | inl claimed ↦ ([], rw claimed (sym (append-nil ds)), tt)
  | inr unclaimed ↦ rw unclaimed (append_system-splits env e ds (get_trusted_amount e) refl)
]

summarise-Answers :
    (env : ClaimEnv) (e : EvidenceBundle) (cs : List Claim) (verified : Option (List Claim))
    (s : ClaimVerificationSummary)
    → verify_each env e cs ≡ verified
    → summarise env e verified ≡ some s
    → Answers e cs s.claims
unfolding summarise summary_of
summarise-Answers env e cs none s q h = ground arith
summarise-Answers env e cs (some ds) s q h =
    let (extra, split, system) = inject-splits env e ds in
    let claims : s.claims ≡ ds ++ extra = ground (arith, split) in
    subst (Answers e cs) (sym claims) (verify_each-Answers env e cs ds extra q system)

-- Where the customer's claims are taken from the extraction and all are verified, the summary has
-- one claim for each of them, in their order, with the customer's statement unchanged. At most one
-- claim follows: the trusted amount of the system, on which the customer stated nothing.
pub verify_all_claims-Answers :
    (env : ClaimEnv) (info : Option ExtractedInfo) (raw : String) (e : EvidenceBundle)
    (cs : List Claim) (s : ClaimVerificationSummary)
    → claims_from_extracted_info env info raw ≡ some cs
    → verify_all_claims env info raw e ≡ some s
    → Answers e cs s.claims
unfolding verify_all_claims verify_claims
verify_all_claims-Answers env info raw e cs s q h =
    summarise-Answers env e cs (verify_each env e cs) s refl
      (subst (λ o. verify_claims env e o ≡ some s) q h)
