-- ===== src/Claims/Account.antt =====
-- src/fintech_agent/rules/claim_verifier.py: the verifiers that read the account, and the registry.
use back_office_fintech.Common.{
  String, Bool, false, not, ◌&&◌, ◌||◌, Option, none, some, List, [], ◌∷◌, str_eq, is_empty,
  if◌then◌else◌,
}
use back_office_fintech.Common.Text.{concat, has_substring, show_bool}
use back_office_fintech.Schemas.Evidence.{AccountStatus, EvidenceBundle, Transaction}
use back_office_fintech.Claims.{
  Claim, ClaimEnv, ClaimType, ClaimValue, VerificationStatus, value_text, with_status, with_trusted,
}
use back_office_fintech.Claims.Amounts.{
  verify_transaction_amount_claim, verify_wallet_balance_claim,
}
use back_office_fintech.Claims.Verifiers.{
  default_verifier, or_unknown, verify_bank_status_claim, verify_payment_status_claim,
  verify_provider_status_claim, verify_refund_status_claim, verify_service_delivery_claim,
  verify_transaction_id_claim,
}

-- `any(kw in text for kw in keywords)`
abbrev pub has_any : List String → String → Bool
has_any [] s = false
has_any (k ∷ ks) s = has_substring k s || has_any ks s

abbrev reason_note : Option String → String
reason_note none = ""
reason_note (some reason) = if is_empty reason then "" else concat (", lý do: " ∷ reason ∷ [])

unfoldable pub account_verdict : Claim → Option AccountStatus → Claim
account_verdict claim none =
    with_status VerificationStatus.not_verifiable "Không có dữ liệu trạng thái tài khoản." claim
account_verdict claim (some a) =
    let status = or_unknown a.account_status in
    with_trusted VerificationStatus.matched (ClaimValue.word status) "account_status.account_status"
      (concat ("Trạng thái tài khoản: " ∷ status ∷ reason_note a.lock_reason ∷ "." ∷ [])) claim

-- `_verify_account_status_claim`
unfoldable pub verify_account_status_claim : Claim → EvidenceBundle → Claim
verify_account_status_claim claim evidence = account_verdict claim evidence.account_status

-- The labels of `id_label`.
unfoldable pub id_label : String → String
id_label kind =
    if str_eq kind "phone"
    then "số điện thoại"
    else if str_eq kind "email"
    then "email"
    else if str_eq kind "wallet_id"
    then "wallet ID"
    else "thông tin định danh"

-- `claim.unit or "phone"`
abbrev id_type_of : Option String → String
id_type_of none = "phone"
id_type_of (some s) = if is_empty s then "phone" else s

-- No account matched, and there is no transaction.
unfoldable pub identity_not_found : Claim → Claim
identity_not_found claim =
    let claimed = value_text claim.customer_claimed_value in
    let kind = id_type_of claim.unit in
    if not (is_empty claimed)
    then with_trusted VerificationStatus.not_found (ClaimValue.word "Không tìm thấy tài khoản")
        (concat ("accounts." ∷ kind ∷ []))
        (concat (
          "Không tìm thấy tài khoản khớp với "
          ∷ id_label kind
          ∷ " khách cung cấp ("
          ∷ claimed
          ∷ "). Agent chưa thể kiểm tra trạng thái khóa hoặc dữ liệu Risk/Fraud."
          ∷ []))
        claim
    else with_status VerificationStatus.not_verifiable
        "Không có dữ liệu để xác minh thông tin người dùng." claim

unfoldable pub identity_by_transaction : Claim → Option Transaction → Claim
identity_by_transaction claim none = identity_not_found claim
identity_by_transaction claim (some t) =
    let claimed = value_text claim.customer_claimed_value in
    let user = t.user_id in
    if str_eq claimed user
    then with_trusted VerificationStatus.matched (ClaimValue.word user) "transaction.user_id"
        (concat ("User ID khớp: " ∷ user ∷ "." ∷ [])) claim
    else with_trusted VerificationStatus.mismatched (ClaimValue.word user) "transaction.user_id"
        (concat ("Khách khai user '" ∷ claimed ∷ "' nhưng hệ thống ghi nhận '" ∷ user ∷ "'." ∷ []))
        claim

unfoldable pub identity_verdict : Claim → Option AccountStatus → Option Transaction → Claim
identity_verdict claim none transaction = identity_by_transaction claim transaction
identity_verdict claim (some a) transaction =
    let claimed = value_text claim.customer_claimed_value in
    let phone = claim.raw_text in
    let user = a.user_id in
    if str_eq claimed user || not (is_empty phone) && str_eq claimed phone
    then with_trusted VerificationStatus.matched (ClaimValue.word user)
        "accounts.user_id (via phone lookup)"
        (concat ("Đã xác minh: " ∷ phone ∷ " → user_id = " ∷ user ∷ " (từ accounts)." ∷ [])) claim
    else identity_by_transaction claim transaction

-- `_verify_user_identity_claim`
unfoldable pub verify_user_identity_claim : Claim → EvidenceBundle → Claim
verify_user_identity_claim claim evidence =
    identity_verdict claim evidence.account_status evidence.transaction

abbrev blocked_keywords : List String
blocked_keywords = "không thể" ∷ "blocked" ∷ "chặn" ∷ "bị chặn" ∷ []

unfoldable pub customer_says_blocked : ClaimEnv → Claim → Bool
customer_says_blocked env claim =
    has_any blocked_keywords (env.lower (value_text claim.customer_claimed_value))

unfoldable pub withdrawal_known : Claim → Bool → Bool → Claim
withdrawal_known claim says_blocked withdrawal =
    let status_text = if withdrawal then "cho phép" else "bị chặn" in
    if says_blocked && not withdrawal || not says_blocked && withdrawal
    then with_trusted VerificationStatus.matched (ClaimValue.word status_text)
        "accounts.withdrawal_enabled"
        (concat (
          "Khách phản ánh không thể rút tiền — hệ thống xác nhận: withdrawal_enabled = "
          ∷ show_bool withdrawal
          ∷ " ("
          ∷ status_text
          ∷ ")."
          ∷ []))
        claim
    else with_trusted VerificationStatus.mismatched (ClaimValue.word status_text)
        "accounts.withdrawal_enabled"
        (concat (
          "Trạng thái rút tiền từ hệ thống: "
          ∷ status_text
          ∷ " (withdrawal_enabled = "
          ∷ show_bool withdrawal
          ∷ ")."
          ∷ []))
        claim

unfoldable pub withdrawal_enabled_verdict : Claim → Bool → Option Bool → Claim
withdrawal_enabled_verdict claim says_blocked none =
    with_status VerificationStatus.not_verifiable
      "Dữ liệu tài khoản không chứa trạng thái rút tiền." claim
withdrawal_enabled_verdict claim says_blocked (some enabled) =
    withdrawal_known claim says_blocked enabled

unfoldable pub withdrawal_verdict : Claim → Bool → Option AccountStatus → Claim
withdrawal_verdict claim says_blocked none =
    with_status VerificationStatus.not_verifiable
      "Không có dữ liệu tài khoản để xác minh trạng thái rút tiền." claim
withdrawal_verdict claim says_blocked (some a) =
    withdrawal_enabled_verdict claim says_blocked a.withdrawal_enabled

-- `_verify_withdrawal_status_claim`
unfoldable pub verify_withdrawal_status_claim : ClaimEnv → Claim → EvidenceBundle → Claim
verify_withdrawal_status_claim env claim evidence =
    withdrawal_verdict claim (customer_says_blocked env claim) evidence.account_status

-- `_verify_customer_opinion_claim`
unfoldable pub verify_customer_opinion_claim : Claim → EvidenceBundle → Claim
verify_customer_opinion_claim claim evidence = record claim {
  verification_status = VerificationStatus.not_verifiable;
  trusted_system_value = ClaimValue.absent;
  trusted_source = none;
  explanation =
      "Đây là nhận định của khách hàng. Agent không coi đây là sự thật cuối cùng; cần kiểm tra fraud evidence để đánh giá.";
}

-- `_VERIFIER_REGISTRY.get(claim.claim_type, _default_verifier)`, applied.
unfoldable pub verifier_of : ClaimEnv → ClaimType → Claim → EvidenceBundle → Option Claim
verifier_of env ClaimType.transaction_id c e = some (verify_transaction_id_claim c e)
verifier_of env ClaimType.transaction_amount c e = verify_transaction_amount_claim env c e
verifier_of env ClaimType.wallet_balance c e = verify_wallet_balance_claim env c e
verifier_of env ClaimType.payment_status c e = some (verify_payment_status_claim c e)
verifier_of env ClaimType.service_delivery c e = some (verify_service_delivery_claim c e)
verifier_of env ClaimType.provider_status c e = some (verify_provider_status_claim c e)
verifier_of env ClaimType.bank_status c e = some (verify_bank_status_claim c e)
verifier_of env ClaimType.refund_status c e = some (verify_refund_status_claim c e)
verifier_of env ClaimType.account_status c e = some (verify_account_status_claim c e)
verifier_of env ClaimType.withdrawal_status c e = some (verify_withdrawal_status_claim env c e)
verifier_of env ClaimType.customer_opinion c e = some (verify_customer_opinion_claim c e)
verifier_of env ClaimType.user_identity c e = some (verify_user_identity_claim c e)
verifier_of env ClaimType.time c e = some (default_verifier c e)
verifier_of env ClaimType.unknown c e = some (default_verifier c e)
