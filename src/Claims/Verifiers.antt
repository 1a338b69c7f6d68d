-- ===== src/Claims/Verifiers.antt =====
-- src/fintech_agent/rules/claim_verifier.py: the verifiers that read the transaction, the providers,
-- the bank and the refund.
use back_office_fintech.Common.{String, Option, none, some, [], ◌∷◌, str_eq, if◌then◌else◌}
use back_office_fintech.Common.Text.{concat, show_bool}
use back_office_fintech.Schemas.CaseState.{is_truthy}
use back_office_fintech.Schemas.Enums.{
  provider_status_value_value, refund_status_value_value, wallet_ledger_status_value,
}
use back_office_fintech.Schemas.Evidence.{
  EvidenceBundle, ReconciliationStatus, RefundStatus, TrainProviderStatus, Transaction,
  UtilityProviderStatus, WalletLedger,
}
use back_office_fintech.Claims.{
  Claim, ClaimValue, VerificationStatus, claim_type_value, value_text, with_status, with_trusted,
}

unfoldable pub transaction_id_verdict : Claim → Option Transaction → Claim
transaction_id_verdict claim none =
    with_status VerificationStatus.not_found
      "Không tìm thấy dữ liệu giao dịch trong hệ thống để đối chiếu." claim
transaction_id_verdict claim (some t) =
    let claimed = value_text claim.customer_claimed_value in
    let id = t.transaction_id in
    if str_eq claimed id
    then with_trusted VerificationStatus.matched (ClaimValue.word id) "transaction.transaction_id"
        (concat ("Mã giao dịch khớp: " ∷ id ∷ [])) claim
    else with_trusted VerificationStatus.mismatched (ClaimValue.word id)
        "transaction.transaction_id"
        (concat
          ("Khách khai mã giao dịch '" ∷ claimed ∷ "' nhưng hệ thống ghi nhận '" ∷ id ∷ "'." ∷ []))
        claim

-- `_verify_transaction_id_claim`
unfoldable pub verify_transaction_id_claim : Claim → EvidenceBundle → Claim
verify_transaction_id_claim claim evidence = transaction_id_verdict claim evidence.transaction

unfoldable pub payment_verdict : Claim → Option WalletLedger → Option Transaction → Claim
payment_verdict claim none none =
    with_status VerificationStatus.not_verifiable
      "Không có dữ liệu giao dịch hoặc ví để xác minh trạng thái thanh toán." claim
payment_verdict claim (some w) transaction =
    let status = wallet_ledger_status_value w.status in
    with_trusted VerificationStatus.matched (ClaimValue.word status) "wallet_ledger.status"
      (concat (
        "Wallet ledger status: "
        ∷ status
        ∷ ", has_user_debit: "
        ∷ show_bool w.has_user_debit
        ∷ "."
        ∷ []))
      claim
payment_verdict claim none (some t) =
    with_trusted VerificationStatus.matched (ClaimValue.word t.status) "transaction.status"
      (concat ("Transaction status: " ∷ t.status ∷ "." ∷ [])) claim

-- `_verify_payment_status_claim`
unfoldable pub verify_payment_status_claim : Claim → EvidenceBundle → Claim
verify_payment_status_claim claim evidence =
    payment_verdict claim evidence.wallet_ledger evidence.transaction

abbrev ticket_note : Option String → String
ticket_note none = ", chưa có mã vé"
ticket_note (some code) =
    if is_truthy (some code) then concat (", mã vé: " ∷ code ∷ []) else ", chưa có mã vé"

unfoldable pub delivery_verdict :
    Claim → Option TrainProviderStatus → Option UtilityProviderStatus → Claim
delivery_verdict claim (some p) utility =
    let status = provider_status_value_value p.booking_status in
    with_trusted VerificationStatus.matched (ClaimValue.word status) "train_provider.booking_status"
      (concat ("Provider xác nhận: " ∷ status ∷ ticket_note p.ticket_code ∷ [])) claim
delivery_verdict claim none (some p) =
    let status = provider_status_value_value p.provider_status in
    with_trusted VerificationStatus.matched (ClaimValue.word status)
      "utility_provider.provider_status"
      (concat ("Provider xác nhận trạng thái: " ∷ status ∷ "." ∷ [])) claim
delivery_verdict claim none none =
    with_status VerificationStatus.not_verifiable
      "Không có dữ liệu provider để xác minh tình trạng dịch vụ." claim

-- `_verify_service_delivery_claim`
unfoldable pub verify_service_delivery_claim : Claim → EvidenceBundle → Claim
verify_service_delivery_claim claim evidence =
    delivery_verdict claim evidence.train_provider evidence.utility_provider

-- `_verify_provider_status_claim`
unfoldable pub verify_provider_status_claim : Claim → EvidenceBundle → Claim
verify_provider_status_claim claim evidence = verify_service_delivery_claim claim evidence

-- `status or "unknown"`
abbrev pub or_unknown : Option String → String
or_unknown none = "unknown"
or_unknown (some s) = if str_eq s "" then "unknown" else s

unfoldable pub bank_verdict : Claim → Option ReconciliationStatus → Claim
bank_verdict claim none =
    with_status VerificationStatus.not_verifiable "Không có dữ liệu đối soát ngân hàng." claim
bank_verdict claim (some r) =
    let status = or_unknown r.bank_status in
    with_trusted VerificationStatus.matched (ClaimValue.word status) "reconciliation.bank_status"
      (concat ("Bank status từ đối soát: " ∷ status ∷ "." ∷ [])) claim

-- `_verify_bank_status_claim`
unfoldable pub verify_bank_status_claim : Claim → EvidenceBundle → Claim
verify_bank_status_claim claim evidence = bank_verdict claim evidence.reconciliation_status

unfoldable pub refund_verdict : Claim → Option RefundStatus → Claim
refund_verdict claim none =
    with_status VerificationStatus.not_verifiable "Không có dữ liệu hoàn tiền trong hệ thống." claim
refund_verdict claim (some r) =
    let status = refund_status_value_value r.refund_status in
    with_trusted VerificationStatus.matched (ClaimValue.word status) "refund_status.refund_status"
      (concat ("Trạng thái hoàn tiền hệ thống: " ∷ status ∷ "." ∷ [])) claim

-- `_verify_refund_status_claim`
unfoldable pub verify_refund_status_claim : Claim → EvidenceBundle → Claim
verify_refund_status_claim claim evidence = refund_verdict claim evidence.refund_status

-- `_default_verifier`
unfoldable pub default_verifier : Claim → EvidenceBundle → Claim
default_verifier claim evidence =
    with_status VerificationStatus.not_verifiable
      (concat (
        "Không có quy trình xác minh cho loại claim '"
        ∷ claim_type_value claim.claim_type
        ∷ "'."
        ∷ []))
      claim
