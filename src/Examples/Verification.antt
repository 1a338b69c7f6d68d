-- ===== src/Examples/Verification.antt =====
-- The theorems on the verification of claims, applied.
use back_office_fintech.Common.{true, none, some, [], ◌∷◌, ◌≡◌, ◌↔◌, refl, str_eq}
use back_office_fintech.Common.Int.{ℤ, pos, eqb_ℤ}
use back_office_fintech.Common.Value.{Value, no_fields}
use back_office_fintech.Common.Text.{concat, show_grouped}
use back_office_fintech.Schemas.CaseState.{ExtractedInfo}
use back_office_fintech.Schemas.Evidence.{EvidenceBundle, empty_bundle}
use back_office_fintech.Claims.{
  Claim, ClaimEnv, ClaimValue, ClaimVerificationSummary, VerificationStatus, claim_type_value,
  same_type, with_trusted,
}
use back_office_fintech.Claims.Amounts.{
  amount_against, amount_verdict, check_system_amount_consistency, claimed_int, get_trusted_amount,
  is_amount, ledger_amount, verify_transaction_amount_claim,
}
use back_office_fintech.Claims.Account.{verifier_of}
use back_office_fintech.Claims.Synthesis.{claims_from_extracted_info, existing_claims}
use back_office_fintech.Claims.Summary.{
  has_type, inject_system_amount, summarise, summary_of, verify_all_claims, verify_claims,
  verify_each,
}
use back_office_fintech.Claims.Sources.{Reports, check_system_amount_consistency_iff}
use back_office_fintech.Claims.Actions.{IsReported, action_amount, verify_all_claims-action_amount}
use back_office_fintech.Claims.Counts.{IsPartition, verify_all_claims-IsPartition}
use back_office_fintech.Claims.Verdicts.{StatesAmount, verify_transaction_amount_claim-matched_iff}
use back_office_fintech.Claims.Answers.{Answers, verify_all_claims-Answers}
use back_office_fintech.Claims.Errors.{OneRaises, verify_all_claims-none_iff}
use back_office_fintech.Examples.{
  sample_claim, sample_claim_env, sample_info, sample_ledger, sample_transaction,
}

-- The ledger and the transaction agree on 250.
abbrev agreed : EvidenceBundle
agreed = record empty_bundle {
  transaction = some (sample_transaction "U1" "success");
  wallet_ledger = some sample_ledger;
}

abbrev claiming_info : ExtractedInfo
claiming_info = record sample_info { claims = Value.dict no_fields ∷ [] }

abbrev env : ClaimEnv
env = sample_claim_env (ClaimValue.number (pos 250))

-- The claim of 250, verified.
abbrev verified_claim : Claim
verified_claim =
    with_trusted VerificationStatus.matched (ClaimValue.number (pos 250))
      "wallet_ledger.debit_amount"
      (concat (
        "Số tiền khớp: "
        ∷ concat (show_grouped (pos 250) ∷ "đ" ∷ [])
        ∷ " (từ "
        ∷ "wallet_ledger.debit_amount"
        ∷ ")."
        ∷ []))
      (sample_claim (ClaimValue.number (pos 250)))

abbrev verified_summary : ClaimVerificationSummary
verified_summary = summary_of agreed (verified_claim ∷ [])

claims_taken :
    claims_from_extracted_info env (some claiming_info) ""
    ≡ some (sample_claim (ClaimValue.number (pos 250)) ∷ [])
unfolding claims_from_extracted_info existing_claims
claims_taken = refl

claim_verified :
    verify_transaction_amount_claim env (sample_claim (ClaimValue.number (pos 250))) agreed
    ≡ some verified_claim
unfolding verify_transaction_amount_claim amount_against amount_verdict get_trusted_amount
    ledger_amount claimed_int is_amount eqb_ℤ
claim_verified = refl

summary_verified : verify_all_claims env (some claiming_info) "" agreed ≡ some verified_summary
unfolding verify_all_claims claims_from_extracted_info existing_claims verify_claims verify_each
    verifier_of verify_transaction_amount_claim amount_against amount_verdict get_trusted_amount
    ledger_amount claimed_int is_amount eqb_ℤ summarise inject_system_amount has_type same_type
    claim_type_value with_trusted str_eq
summary_verified = refl

-- Another complaint about the same evidence, without an extraction.
abbrev other_summary : ClaimVerificationSummary
other_summary = summary_of agreed (inject_system_amount env agreed [])

other_verified : verify_all_claims env none "refund me 900" agreed ≡ some other_summary
unfolding verify_all_claims claims_from_extracted_info verify_claims verify_each summarise
other_verified = refl

verify_all_claims-action_amount_example :
    (action_amount verified_summary.trusted_data_used_for_action
      ≡ action_amount other_summary.trusted_data_used_for_action)
    × IsReported agreed verified_summary.has_system_evidence_conflict
        (action_amount verified_summary.trusted_data_used_for_action)
verify_all_claims-action_amount_example =
    verify_all_claims-action_amount env (some claiming_info) none "" "refund me 900" agreed
      verified_summary other_summary summary_verified other_verified

check_system_amount_consistency_iff_example :
    (check_system_amount_consistency agreed ≡ true)
    ↔ ((m n : ℤ) → Reports agreed m → Reports agreed n → m ≡ n)
check_system_amount_consistency_iff_example = check_system_amount_consistency_iff agreed

verify_all_claims-IsPartition_example : IsPartition verified_summary
verify_all_claims-IsPartition_example =
    verify_all_claims-IsPartition env (some claiming_info) "" agreed verified_summary
      summary_verified

verify_transaction_amount_claim-matched_iff_example :
    (verified_claim.verification_status ≡ VerificationStatus.matched)
    ↔ StatesAmount env (sample_claim (ClaimValue.number (pos 250))) (get_trusted_amount agreed)
verify_transaction_amount_claim-matched_iff_example =
    verify_transaction_amount_claim-matched_iff env (sample_claim (ClaimValue.number (pos 250)))
      agreed verified_claim claim_verified

verify_all_claims-Answers_example :
    Answers agreed (sample_claim (ClaimValue.number (pos 250)) ∷ []) verified_summary.claims
verify_all_claims-Answers_example =
    verify_all_claims-Answers env (some claiming_info) "" agreed
      (sample_claim (ClaimValue.number (pos 250)) ∷ []) verified_summary claims_taken
      summary_verified

-- A claim whose amount is a text.
abbrev worded_env : ClaimEnv
worded_env = sample_claim_env (ClaimValue.word "hai trăm")

worded_taken :
    claims_from_extracted_info worded_env (some claiming_info) ""
    ≡ some (sample_claim (ClaimValue.word "hai trăm") ∷ [])
unfolding claims_from_extracted_info existing_claims
worded_taken = refl

verify_all_claims-none_iff_example :
    (verify_all_claims worded_env (some claiming_info) "" agreed ≡ none)
    ↔ OneRaises worded_env agreed (sample_claim (ClaimValue.word "hai trăm") ∷ [])
verify_all_claims-none_iff_example =
    verify_all_claims-none_iff worded_env (some claiming_info) "" agreed
      (sample_claim (ClaimValue.word "hai trăm") ∷ []) worded_taken
