-- ===== src/Verifier/Account.antt =====
-- src/fintech_agent/api/account_verifier.py. The resolver of src/fintech_agent/api/generic_resolver.py
-- is an argument.
use back_office_fintech.Common.{
  String, Bool, true, false, not, ◌&&◌, ◌||◌, Option, none, some, List, [], ◌∷◌, ◌++◌, is_empty,
  is_nonempty, is_one_of, str_eq, if◌then◌else◌,
}
use back_office_fintech.Common.Int.{ℤ}
use back_office_fintech.Common.Text.{concat, text_or_empty}
use back_office_fintech.Common.Dict.{Dict, contains, insert, lookup}
use back_office_fintech.Common.Value.{Value}
use back_office_fintech.Schemas.CaseState.{is_truthy}
use back_office_fintech.Registry.{WorkflowRegistry, WorkflowSpec, get}
use back_office_fintech.Verifier.{VerifierEnv, is_true}
use back_office_fintech.Verifier.CustomerClaims.{CustomerClaims, VerifiedEvidence}
use back_office_fintech.Verifier.Contradictions.{Contradiction, detect_contradictions}

-- What a discovery says: whether an issue was found, and what was checked.
pub record Discovery : Type 0 where
  pub issue_found : Bool
  pub data_checked : List String

-- The fields of a `ResolutionResult` that are read.
pub record ResolutionResult : Type 0 where
  pub resolution_status : String
  pub resolved_entity_type : String
  pub resolved_entity_id : Option String
  pub public_safe_evidence : Dict Value
  pub missing_info : List String
  pub verified_amount : Option ℤ
  pub verified_status : String
  pub verified_owner_id : String
  pub verified_bank_name : String
  pub verified_bank_status : String
  pub verified_provider_status : String
  pub discovery_result : Option Discovery

pub record RootCause : Type 0 where
  pub found : Bool
  pub reason : Value
  pub issue_location : Value
  pub confidence : Value

pub record VerificationResult : Type 0 where
  pub workflow_id : String
  pub identity_resolved : Bool
  pub issue_exists : Bool
  pub issue_status : String
  pub verified_evidence : Dict Value
  pub customer_claims : Dict Value
  pub contradictions : List Contradiction
  pub data_checked : List String
  pub missing_evidence : List String
  pub root_cause : RootCause
  pub discovery_result : Option Discovery

-- The entries of a session that are read.
pub record Session : Type 0 where
  pub subject_type : Option String
  pub user_id : Option String
  pub merchant_id : Option String

-- `_RESOLUTION_TO_ISSUE_STATUS`
abbrev pub resolution_to_issue_status : Dict String
resolution_to_issue_status =
    ("resolved", "verified_issue_found")
    ∷ ("amount_mismatch", "contradiction")
    ∷ ("multiple_candidates", "verified_issue_found")
    ∷ ("no_match", "no_match")
    ∷ ("need_more_info", "insufficient_evidence")
    ∷ ("invalid_session", "no_match")
    ∷ ("ownership_mismatch", "no_match")
    ∷ ("evidence_error", "insufficient_evidence")
    ∷ []

abbrev pub or_no_match : Option String → String
or_no_match none = "no_match"
or_no_match (some s) = s

unfoldable pub base_status : String → String
unfolding lookup
base_status resolution = or_no_match (lookup resolution resolution_to_issue_status)

-- The status where no contradiction decides.
unfoldable pub status_from_base : String → Bool → String
status_from_base base discovery_has_issue =
    if str_eq base "verified_issue_found"
    then base
    else if str_eq base "no_match" && not discovery_has_issue
    then "no_issue_found"
    else base

-- `_map_issue_status`
unfoldable pub map_issue_status : String → Bool → Bool → String
map_issue_status resolution has_contradictions discovery_has_issue =
    if has_contradictions && is_one_of resolution ("resolved" ∷ "amount_mismatch" ∷ [])
    then "contradiction"
    else status_from_base (base_status resolution) discovery_has_issue

abbrev put_text : String → String → Dict Value → Dict Value
put_text key value d = if is_empty value then d else insert key (Value.text value) d

abbrev put_amount : Option ℤ → Dict Value → Dict Value
put_amount none d = d
put_amount (some n) d = insert "amount" (Value.num n) d

abbrev put_given : String → Option Value → Dict Value → Dict Value
put_given key none d = d
put_given key (some v) d = if is_true v then insert key v d else d

unfoldable pub put_public : List String → Dict Value → Dict Value → Dict Value
put_public [] public d = d
put_public (k ∷ ks) public d = put_public ks public (put_given k (lookup k public) d)

abbrev public_keys : List String
public_keys =
    "what_was_checked" ∷ "confirmed_public_facts" ∷ "customer_safe_cause" ∷ "likely_issue_location"
    ∷ "next_step" ∷ "customer_action_needed" ∷ "confidence" ∷ "case_status" ∷ "workflow" ∷ []

-- `_build_verified_evidence`
unfoldable pub build_verified_evidence : ResolutionResult → Dict Value
build_verified_evidence r = put_public public_keys r.public_safe_evidence (
    put_text "provider_status" r.verified_provider_status (
      put_text "bank_status" r.verified_bank_status (
        put_text "bank_name" r.verified_bank_name (
          put_text "owner_id" r.verified_owner_id (
            put_text "status" r.verified_status (
              put_amount r.verified_amount (
                put_text "entity_type"
                  (if str_eq r.resolved_entity_type "none" then "" else r.resolved_entity_type)
                  (put_text "entity_id" (text_or_empty r.resolved_entity_id) []))))))))

abbrev or_text : Option Value → String → Value
or_text none s = Value.text s
or_text (some v) s = v

-- `_build_root_cause`
unfoldable pub build_root_cause : ResolutionResult → RootCause
build_root_cause r =
    let cause = or_text (lookup "customer_safe_cause" r.public_safe_evidence) "" in
    record {
      found = is_true cause;
      reason = cause;
      issue_location = or_text (lookup "likely_issue_location" r.public_safe_evidence) "";
      confidence = or_text (lookup "confidence" r.public_safe_evidence) "low";
    }

abbrev no_root_cause : RootCause
no_root_cause = record {
  found = false;
  reason = Value.text "";
  issue_location = Value.text "";
  confidence = Value.text "low";
}

-- A result without evidence.
abbrev pub unresolved : String → Bool → String → CustomerClaims → List String → VerificationResult
unresolved workflow identity status claims missing = record {
  workflow_id = workflow;
  identity_resolved = identity;
  issue_exists = false;
  issue_status = status;
  verified_evidence = [];
  customer_claims = claims.latest;
  contradictions = [];
  data_checked = [];
  missing_evidence = missing;
  root_cause = no_root_cause;
  discovery_result = none;
}

-- The `VerifiedEvidence` for the contradictions.
abbrev pub evidence_of : ResolutionResult → VerifiedEvidence
evidence_of r = record {
  resolved_entity_id = text_or_empty r.resolved_entity_id;
  resolved_entity_type = r.resolved_entity_type;
  verified_amount = r.verified_amount;
  verified_status = r.verified_status;
  verified_owner_id = r.verified_owner_id;
  verified_bank_name = r.verified_bank_name;
  verified_bank_status = r.verified_bank_status;
  verified_provider_status = r.verified_provider_status;
  evidence_source = "transaction_table";
}

abbrev pub issue_found_by : Option Discovery → Bool
issue_found_by none = false
issue_found_by (some d) = d.issue_found

abbrev checked_if : String → String → Dict Value → List String
checked_if key name evidence = if contains key evidence then name ∷ [] else []

abbrev data_checked_by : Option Discovery → Dict Value → List String
data_checked_by (some d) evidence = d.data_checked
data_checked_by none evidence =
    checked_if "bank_status" "bank_status" evidence
    ++ checked_if "status" "transaction_status" evidence
    ++ checked_if "provider_status" "provider_status" evidence

-- Steps 5 to 11, on the contradictions.
unfoldable pub assemble_with :
    String → CustomerClaims → ResolutionResult → List Contradiction → VerificationResult
assemble_with workflow claims r contradictions =
    let evidence = build_verified_evidence r in
    let status =
      map_issue_status r.resolution_status (is_nonempty contradictions)
        (issue_found_by r.discovery_result) in
    record {
      workflow_id = workflow;
      identity_resolved = true;
      issue_exists = is_one_of status ("verified_issue_found" ∷ "contradiction" ∷ []);
      issue_status = status;
      verified_evidence = evidence;
      customer_claims = claims.latest;
      contradictions = contradictions;
      data_checked = data_checked_by r.discovery_result evidence;
      missing_evidence = r.missing_info;
      root_cause = build_root_cause r;
      discovery_result = r.discovery_result;
    }

abbrev pub assemble_if :
    String
    → CustomerClaims
    → ResolutionResult
    → Option (List Contradiction)
    → Option VerificationResult
assemble_if workflow claims r none = none
assemble_if workflow claims r (some contradictions) =
    some (assemble_with workflow claims r contradictions)

-- Steps 4 to 11.
unfoldable pub assemble :
    VerifierEnv → String → CustomerClaims → ResolutionResult → Option VerificationResult
assemble env workflow claims r =
    assemble_if workflow claims r (detect_contradictions env claims (evidence_of r))

abbrev pub resolved_with :
    VerifierEnv → String → CustomerClaims → Option ResolutionResult → Option VerificationResult
resolved_with env workflow claims none =
    some (unresolved workflow true "insufficient_evidence" claims ("message_analysis" ∷ []))
resolved_with env workflow claims (some r) = assemble env workflow claims r

abbrev pub supports : Option WorkflowSpec → String → Bool
supports none subject = true
supports (some spec) subject = is_one_of subject spec.supported_subject_types

-- The last argument is what `resolve_case_evidence` returns for the session and the analysis of the
-- message, or nothing where there is no analysis; a session that is empty is `none`. The
-- result `none` is the exception of `_normalize_amount`.
unfoldable pub verify_account_issue :
    VerifierEnv
    → WorkflowRegistry
    → Option Session
    → String
    → CustomerClaims
    → Option ResolutionResult
    → Option VerificationResult
verify_account_issue env registry none workflow claims resolution =
    some (unresolved workflow false "no_match" claims [])
verify_account_issue env registry (some session) workflow claims resolution =
    let subject = text_or_empty session.subject_type in
    if not (is_truthy session.user_id || is_truthy session.merchant_id)
    then some (unresolved workflow false "no_match" claims [])
    else if not (supports (get registry workflow) subject)
    then some (
        unresolved workflow true "no_match" claims
          (concat ("subject_type_" ∷ subject ∷ "_not_supported" ∷ []) ∷ []))
    else resolved_with env workflow claims resolution
