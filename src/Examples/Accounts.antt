-- ===== src/Examples/Accounts.antt =====
-- The theorems on the verification of accounts and on the workflow registry, applied.
use back_office_fintech.Common.{List, ◌∷◌, true, none, some, []}
use back_office_fintech.Common.Int.{pos}
use back_office_fintech.Common.Value.{nat}
use back_office_fintech.Common.Text.{lower}
use back_office_fintech.Registry.{WorkflowSpec, match_workflow_for_service_type}
use back_office_fintech.Registry.Builtin.{builtin_registry, train_ticket, wallet_topup}
use back_office_fintech.Registry.Matching.{
  Finds, match_workflow_for_service_type-Finds, register_all,
}
use back_office_fintech.Verifier.{Parsed, VerifierEnv}
use back_office_fintech.Verifier.CustomerClaims.{CustomerClaims, add_claim, no_claims}
use back_office_fintech.Verifier.Account.{ResolutionResult, Session, verify_account_issue}
use back_office_fintech.Verifier.Verdicts.{Judges, verify_account_issue-exists_iff}

abbrev sample_env : VerifierEnv
sample_env = record {
  number_of_text = λ s. Parsed.value_error;
  lower = λ s. s;
  str_of_value = λ v. "";
}

abbrev sample_session : Session
sample_session = record {
  subject_type = some "wallet_user";
  user_id = some "U1";
  merchant_id = none;
}

abbrev sample_claims : CustomerClaims
sample_claims = add_claim "amount" (nat 300) true no_claims

-- The resolver finds a transaction of another amount.
abbrev sample_resolution : ResolutionResult
sample_resolution = record {
  resolution_status = "amount_mismatch";
  resolved_entity_type = "transaction";
  resolved_entity_id = some "T1";
  public_safe_evidence = [];
  missing_info = [];
  verified_amount = some (pos 250);
  verified_status = "pending";
  verified_owner_id = "U1";
  verified_bank_name = "";
  verified_bank_status = "";
  verified_provider_status = "";
  discovery_result = none;
}

verify_account_issue-exists_iff_example :
    Judges sample_env builtin_registry
      (some sample_session)
      "wallet_topup"
      sample_claims
      (some sample_resolution)
      (verify_account_issue sample_env builtin_registry
        (some sample_session)
        "wallet_topup"
        sample_claims
        (some sample_resolution))
verify_account_issue-exists_iff_example =
    verify_account_issue-exists_iff sample_env builtin_registry (some sample_session) "wallet_topup"
      sample_claims (some sample_resolution)

-- Two workflows, of which the first is registered twice.
abbrev registrations : List WorkflowSpec
registrations = wallet_topup ∷ train_ticket ∷ wallet_topup ∷ []

match_workflow_for_service_type-Finds_example :
    Finds
      (register_all registrations [])
      (lower "Train_Ticket")
      (match_workflow_for_service_type (register_all registrations []) "Train_Ticket")
match_workflow_for_service_type-Finds_example =
    match_workflow_for_service_type-Finds registrations "Train_Ticket"
