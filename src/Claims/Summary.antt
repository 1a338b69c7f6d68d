-- ===== src/Claims/Summary.antt =====
-- src/fintech_agent/rules/claim_verifier.py: `verify_all_claims`, its texts and the data for actions.
use back_office_fintech.Common.{
  ℕ, String, Bool, true, false, not, ◌&&◌, ◌+◌, Option, none, some, List, [], ◌∷◌, ◌++◌, map,
  is_nonempty, length, if◌then◌else◌,
}
use back_office_fintech.Common.Text.{concat, show_grouped, show_ℕ}
use back_office_fintech.Schemas.CaseState.{ExtractedInfo}
use back_office_fintech.Schemas.Evidence.{EvidenceBundle}
use back_office_fintech.Claims.{
  Claim, ClaimEnv, ClaimType, ClaimValue, ClaimVerificationSummary, VerificationStatus,
  claim_type_label, same_type,
}
use back_office_fintech.Claims.Amounts.{
  SourcedAmount, check_system_amount_consistency, get_trusted_amount,
}
use back_office_fintech.Claims.Account.{verifier_of}
use back_office_fintech.Claims.Synthesis.{claims_from_extracted_info}
use back_office_fintech.Claims.TrustedData.{build_trusted_data_for_action}

abbrev pub same_status : VerificationStatus → VerificationStatus → Bool
same_status VerificationStatus.matched VerificationStatus.matched = true
same_status VerificationStatus.mismatched VerificationStatus.mismatched = true
same_status VerificationStatus.not_verifiable VerificationStatus.not_verifiable = true
same_status VerificationStatus.not_found VerificationStatus.not_found = true
same_status VerificationStatus.system_only VerificationStatus.system_only = true
same_status _ _ = false

-- `[str(c.claim_type) for c in verified if c.verification_status == status]`
unfoldable pub types_with : VerificationStatus → List Claim → List ClaimType
types_with status [] = []
types_with status (c ∷ cs) =
    if same_status c.verification_status status
    then c.claim_type ∷ types_with status cs
    else types_with status cs

unfoldable pub has_type : ClaimType → List Claim → Bool
has_type t [] = false
has_type t (c ∷ cs) = if same_type c.claim_type t then true else has_type t cs

unfoldable pub system_only_claim : ClaimEnv → SourcedAmount → ℕ → Claim
system_only_claim env (amount, source) position = record {
  claim_id = env.new_claim_id position;
  claim_type = ClaimType.transaction_amount;
  raw_text = "";
  customer_claimed_value = ClaimValue.absent;
  normalized_value = ClaimValue.absent;
  unit = some "VND";
  verification_status = VerificationStatus.system_only;
  trusted_system_value = ClaimValue.number amount;
  trusted_source = some source;
  explanation = concat (
      "Khách không cung cấp số tiền giao dịch. Hệ thống ghi nhận "
      ∷ show_grouped amount
      ∷ "đ (từ "
      ∷ source
      ∷ ")."
      ∷ []);
}

abbrev pub append_system : ClaimEnv → Option SourcedAmount → List Claim → List Claim
append_system env none verified = verified
append_system env (some amount) verified =
    verified ++ system_only_claim env amount (length verified) ∷ []

-- The amount of the system, where the customer claims none.
unfoldable pub inject_system_amount : ClaimEnv → EvidenceBundle → List Claim → List Claim
inject_system_amount env evidence verified =
    if has_type ClaimType.transaction_amount verified
    then verified
    else append_system env (get_trusted_amount evidence) verified

abbrev pub cons_verified : Option Claim → Option (List Claim) → Option (List Claim)
cons_verified none rest = none
cons_verified (some c) none = none
cons_verified (some c) (some cs) = some (c ∷ cs)

-- The loop over the claims.
unfoldable pub verify_each : ClaimEnv → EvidenceBundle → List Claim → Option (List Claim)
verify_each env evidence [] = some []
verify_each env evidence (c ∷ cs) =
    cons_verified (verifier_of env c.claim_type c evidence) (verify_each env evidence cs)

-- `sep.join(parts)`
unfoldable pub join : String → List String → String
join sep [] = ""
join sep (s ∷ []) = s
join sep (s ∷ t ∷ ss) = concat (s ∷ sep ∷ join sep (t ∷ ss) ∷ [])

abbrev counted : List ClaimType → String → List String
counted ts what = if is_nonempty ts then concat (show_ℕ (length ts) ∷ what ∷ []) ∷ [] else []

-- `_build_summary_text`
unfoldable pub build_summary_text :
    List ClaimType → List ClaimType → List ClaimType → List ClaimType → List ClaimType → String
build_summary_text matched mismatched not_verifiable not_found system_only =
    let total =
      length matched
      + length mismatched
      + length not_verifiable
      + length not_found
      + length system_only in
    concat (
      "Kiểm tra "
      ∷ show_ℕ total
      ∷ " thông tin: "
      ∷ join ", " (
          counted matched " khớp"
          ++ counted mismatched " lệch"
          ++ counted system_only " chỉ có dữ liệu hệ thống"
          ++ counted not_verifiable " không xác minh được"
          ++ counted not_found " không tìm thấy")
      ∷ "."
      ∷ [])

abbrev labelled : String → List ClaimType → List String
labelled intro ts =
    if is_nonempty ts
    then concat (intro ∷ join ", " (map claim_type_label ts) ∷ "." ∷ []) ∷ []
    else []

unfoldable pub mismatch_explanations : List Claim → List String
mismatch_explanations [] = []
mismatch_explanations (c ∷ cs) =
    if same_status c.verification_status VerificationStatus.mismatched
    then c.explanation ∷ mismatch_explanations cs
    else mismatch_explanations cs

-- `_build_staff_explanation`
unfoldable pub build_staff_explanation :
    List Claim
    → List ClaimType
    → List ClaimType
    → List ClaimType
    → List ClaimType
    → Bool
    → Bool
    → String
build_staff_explanation claims matched mismatched not_verifiable not_found customer system =
    join " " (
      labelled "Khách khai đúng về: " matched
      ++ (if is_nonempty mismatched then mismatch_explanations claims else [])
      ++ labelled "Không xác minh được: " not_verifiable
      ++ labelled "Không tìm thấy trong hệ thống: " not_found
      ++ (if customer && not system
          then "Vì dữ liệu hệ thống nhất quán, agent sẽ tiếp tục xử lý theo dữ liệu chuẩn. Không dùng thông tin khách khai sai để tạo action."
            ∷ []
          else [])
      ++ (if system
          then "Các nguồn dữ liệu hệ thống đang mâu thuẫn. Cần kiểm tra thủ công trước khi tạo action rủi ro."
            ∷ []
          else []))

unfoldable pub summary_of : EvidenceBundle → List Claim → ClaimVerificationSummary
summary_of evidence verified =
    let matched = types_with VerificationStatus.matched verified in
    let mismatched = types_with VerificationStatus.mismatched verified in
    let not_verifiable = types_with VerificationStatus.not_verifiable verified in
    let not_found = types_with VerificationStatus.not_found verified in
    let system_only = types_with VerificationStatus.system_only verified in
    let has_conflict = not (check_system_amount_consistency evidence) in
    record {
      summary = build_summary_text matched mismatched not_verifiable not_found system_only;
      claims = verified;
      matched_claims = matched;
      mismatched_claims = mismatched;
      not_verifiable_claims = not_verifiable;
      not_found_claims = not_found;
      has_customer_detail_mismatch = is_nonempty mismatched;
      has_system_evidence_conflict = has_conflict;
      staff_explanation =
          build_staff_explanation verified matched mismatched not_verifiable not_found
            (is_nonempty mismatched) has_conflict;
      trusted_data_used_for_action = build_trusted_data_for_action evidence;
    }

unfoldable pub summarise :
    ClaimEnv → EvidenceBundle → Option (List Claim) → Option ClaimVerificationSummary
summarise env evidence none = none
summarise env evidence (some verified) =
    some (summary_of evidence (inject_system_amount env evidence verified))

unfoldable pub verify_claims :
    ClaimEnv → EvidenceBundle → Option (List Claim) → Option ClaimVerificationSummary
verify_claims env evidence none = none
verify_claims env evidence (some claims) = summarise env evidence (verify_each env evidence claims)

-- `verify_all_claims`; `none` is an exception.
unfoldable pub verify_all_claims :
    ClaimEnv → Option ExtractedInfo → String → EvidenceBundle → Option ClaimVerificationSummary
verify_all_claims env info raw evidence =
    verify_claims env evidence (claims_from_extracted_info env info raw)
