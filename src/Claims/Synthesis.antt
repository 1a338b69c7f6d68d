-- ===== src/Claims/Synthesis.antt =====
-- src/fintech_agent/rules/claim_verifier.py: the claims of an extraction, taken over or synthesised.
use back_office_fintech.Common.{
  ℕ, String, Option, none, some, List, [], ◌∷◌, ◌++◌, is_nonempty, length, str_eq, if◌then◌else◌,
}
use back_office_fintech.Common.Int.{pos}
use back_office_fintech.Common.Text.{has_substring, show_ℕ, text_or_empty}
use back_office_fintech.Common.Value.{Value}
use back_office_fintech.Schemas.CaseState.{ExtractedInfo, is_truthy}
use back_office_fintech.Schemas.Enums.{IssueType, ServiceType, issue_type_value, service_type_value}
use back_office_fintech.Claims.{Claim, ClaimEnv, ClaimType, ClaimValue, VerificationStatus}
use back_office_fintech.Claims.Account.{has_any}

-- `Claim(...)` with the verification fields at their defaults.
abbrev new_claim :
    ClaimEnv → ClaimType → String → ClaimValue → ClaimValue → String → List Claim → Claim
new_claim env t raw claimed normalized unit before = record {
  claim_id = env.new_claim_id (length before);
  claim_type = t;
  raw_text = raw;
  customer_claimed_value = claimed;
  normalized_value = normalized;
  unit = some unit;
  verification_status = VerificationStatus.not_verifiable;
  trusted_system_value = ClaimValue.absent;
  trusted_source = none;
  explanation = "";
}

-- `claims.append(Claim(...))`
unfoldable pub append_claim :
    ClaimEnv → ClaimType → String → ClaimValue → ClaimValue → String → List Claim → List Claim
append_claim env t raw claimed normalized unit before =
    before ++ new_claim env t raw claimed normalized unit before ∷ []

-- A claim whose value is a text, where the text is not empty.
unfoldable pub append_text : ClaimEnv → ClaimType → String → Option String → List Claim → List Claim
append_text env t unit none before = before
append_text env t unit (some s) before =
    if is_truthy (some s)
    then append_claim env t s (ClaimValue.word s) (ClaimValue.word s) unit before
    else before

unfoldable pub append_amount : ClaimEnv → Option ℕ → List Claim → List Claim
append_amount env none before = before
append_amount env (some n) before =
    append_claim env ClaimType.transaction_amount (show_ℕ n) (ClaimValue.number (pos n))
      (ClaimValue.number (pos n)) "VND" before

abbrev service_text : Option ServiceType → Option String
service_text none = none
service_text (some t) = some (service_type_value t)

abbrev issue_text : Option IssueType → String
issue_text none = ""
issue_text (some i) = issue_type_value i

unfoldable pub append_locked : ClaimEnv → Option IssueType → List Claim → List Claim
append_locked env issue before =
    if str_eq (issue_text issue) "account_locked"
    then append_claim env ClaimType.account_status "tài khoản bị khóa" (ClaimValue.word "locked")
        (ClaimValue.word "locked") "status" before
    else before

abbrev withdrawal_keywords : List String
withdrawal_keywords = "không thể rút" ∷ "rút tiền" ∷ "withdrawal" ∷ []

unfoldable pub append_withdrawal : ClaimEnv → String → List Claim → List Claim
append_withdrawal env raw before =
    if has_any withdrawal_keywords (env.lower raw)
    then append_claim env ClaimType.withdrawal_status "không thể rút tiền"
        (ClaimValue.word "không thể rút tiền") (ClaimValue.word "blocked") "status" before
    else before

abbrev opinion_keywords : List String
opinion_keywords = "vô cớ" ∷ "vô lý" ∷ "bất ngờ" ∷ "nhầm" ∷ "sai" ∷ []

-- The first of the keywords that stands in the text.
unfoldable pub first_keyword : List String → String → String
first_keyword [] s = "vô cớ"
first_keyword (k ∷ ks) s = if has_substring k s then k else first_keyword ks s

unfoldable pub append_opinion : ClaimEnv → String → List Claim → List Claim
append_opinion env raw before =
    let opinion = first_keyword opinion_keywords (env.lower raw) in
    if has_any opinion_keywords (env.lower raw)
    then append_claim env ClaimType.customer_opinion opinion (ClaimValue.word opinion)
        (ClaimValue.word opinion) "opinion" before
    else before

-- The claims of the service `account_security`.
unfoldable pub append_security : ClaimEnv → ExtractedInfo → String → List Claim → List Claim
append_security env info raw before =
    append_text env ClaimType.user_identity "phone" info.phone (
      append_opinion env raw (append_withdrawal env raw (append_locked env info.issue_type before)))

-- The claims from the flat fields.
unfoldable pub synthesise : ClaimEnv → ExtractedInfo → String → List Claim
synthesise env info raw =
    let service = service_text info.service_type in
    let basic = append_text env ClaimType.service_delivery "service" service (
      append_amount env info.amount_claimed
        (append_text env ClaimType.transaction_id "identifier" info.transaction_id [])) in
    if str_eq (text_or_empty service) "account_security"
    then append_security env info raw basic
    else basic

abbrev cons_claim : Option Claim → Option (List Claim) → Option (List Claim)
cons_claim none rest = none
cons_claim (some c) none = none
cons_claim (some c) (some cs) = some (c ∷ cs)

-- The claims that the extraction carries: what is no dictionary is skipped.
unfoldable pub existing_claims : ClaimEnv → List Value → Option (List Claim)
existing_claims env [] = some []
existing_claims env (Value.dict d ∷ vs) =
    cons_claim (env.model_validate (Value.dict d)) (existing_claims env vs)
existing_claims env (Value.text _ ∷ vs) = existing_claims env vs
existing_claims env (Value.bool _ ∷ vs) = existing_claims env vs
existing_claims env (Value.num _ ∷ vs) = existing_claims env vs
existing_claims env (Value.null ∷ vs) = existing_claims env vs
existing_claims env (Value.list _ ∷ vs) = existing_claims env vs

-- `_claims_from_extracted_info`, where `raw` is the entry `_raw_complaint` or the empty text.
unfoldable pub claims_from_extracted_info :
    ClaimEnv → Option ExtractedInfo → String → Option (List Claim)
claims_from_extracted_info env none raw = some []
claims_from_extracted_info env (some info) raw =
    if is_nonempty info.claims
    then existing_claims env info.claims
    else some (synthesise env info raw)
