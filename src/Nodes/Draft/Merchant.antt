-- ===== src/Nodes/Draft/Merchant.antt =====
-- src/fintech_agent/nodes/draft_action.py: the drafts of the merchant settlement workflow.
use back_office_fintech.Common.{Bool, true, false, Option, none, some, [], ◌∷◌, is_one_of}
use back_office_fintech.Common.Value.{Value, fields_of, texts, nat, optional_text, optional_num}
use back_office_fintech.Schemas.Enums.{ActionType, CaseStatus}
use back_office_fintech.Schemas.CaseState.{RecommendedAction}
use back_office_fintech.Schemas.Evidence.{
  BankTransferReceipt, EvidenceBundle, MerchantBankAccount, MerchantPayout, MerchantProfile,
  MerchantSettlementLedger,
}
use back_office_fintech.Graph.Services.{Services}
use back_office_fintech.Nodes.Draft.Reply.{Drafted, draft_type, made}

abbrev merchant_id_of : Option MerchantProfile → Value
merchant_id_of none = Value.text "UNKNOWN"
merchant_id_of (some m) = Value.text m.merchant_id

abbrev account_id_of : Option MerchantBankAccount → Value
account_id_of none = Value.null
account_id_of (some a) = Value.text a.bank_account_id

abbrev net_of : Option MerchantSettlementLedger → Value
net_of none = nat 0
net_of (some l) = optional_num l.net_settlement_amount

abbrev settlement_date_of : Option MerchantSettlementLedger → Value
settlement_date_of none = Value.null
settlement_date_of (some l) = optional_text l.settlement_date

abbrev has_duplicate_risk : Option MerchantPayout → Bool
has_duplicate_risk none = false
has_duplicate_risk (some p) = elim p.status [
  | none ↦ false
  | some t ↦ is_one_of t ("processing" ∷ "pending" ∷ "success" ∷ "completed" ∷ [])
]

-- The recommended action has no `details`, so only the payout's status tells of a duplicate.
unfoldable pub draft_manual_payout : Services → EvidenceBundle → RecommendedAction → Drafted
draft_manual_payout services e a =
    let amount = net_of e.merchant_settlement_ledger in
    let dup_risk = has_duplicate_risk e.merchant_payout in
    made
      (draft_type "manual_payout_draft"
        ∷ ("merchant_id", merchant_id_of e.merchant_profile)
        ∷ ("settlement_date", settlement_date_of e.merchant_settlement_ledger)
        ∷ ("amount", amount)
        ∷ ("currency", Value.text "VND")
        ∷ ("bank_account_id", account_id_of e.merchant_bank_account)
        ∷ (
          "reason",
          Value.text (services.texts.merchant_cs ActionType.create_manual_payout_draft a.diagnosis),
        )
        ∷ ("trusted_amount_source", Value.text "settlement_ledger.net_settlement_amount")
        ∷ ("approval_required", Value.bool true)
        ∷ ("execution_mode", Value.text "draft_only")
        ∷ ("duplicate_payout_risk", Value.bool dup_risk)
        ∷ ("status", Value.text "pending_approval")
        ∷ (
          "safety_notes",
          texts (
              "Không tự động thực hiện payout"
              ∷ "Số tiền lấy từ settlement_ledger, không từ merchant"
              ∷ "Cần phê duyệt trước khi thực hiện"
              ∷ "Kiểm tra bank account verified trước khi duyệt" ∷ []),
        )
        ∷ [])
      CaseStatus.draft_created true
      (some (
        fields_of (
          ("draft_type", Value.text "manual_payout_draft")
          ∷ ("amount", amount)
          ∷ ("merchant_id", merchant_id_of e.merchant_profile)
          ∷ ("duplicate_payout_risk", Value.bool dup_risk)
          ∷ [])))

abbrev payout_id_of : Option MerchantPayout → Value
payout_id_of none = Value.null
payout_id_of (some p) = Value.text p.payout_id

abbrev unc_of : Option BankTransferReceipt → Value
unc_of none = Value.null
unc_of (some r) = optional_text r.unc_number

abbrev url_of : Option BankTransferReceipt → Value
url_of none = Value.null
url_of (some r) = optional_text r.receipt_url

abbrev email_of : Option MerchantProfile → Value
email_of none = Value.null
email_of (some m) = optional_text m.contact_email

unfoldable pub draft_unc_email : Services → EvidenceBundle → RecommendedAction → Drafted
draft_unc_email services e a =
    made
      (draft_type "unc_email_draft"
        ∷ ("merchant_id", merchant_id_of e.merchant_profile)
        ∷ ("payout_id", payout_id_of e.merchant_payout)
        ∷ ("unc_number", unc_of e.bank_transfer_receipt)
        ∷ ("receipt_url", url_of e.bank_transfer_receipt)
        ∷ ("merchant_email", email_of e.merchant_profile)
        ∷ (
          "reason",
          Value.text (services.texts.merchant_cs ActionType.send_unc_email_draft a.diagnosis),
        )
        ∷ ("execution_mode", Value.text "draft_only")
        ∷ ("status", Value.text "pending_approval")
        ∷ [])
      CaseStatus.draft_created true
      (some (fields_of (("draft_type", Value.text "unc_email_draft") ∷ [])))

unfoldable pub draft_bank_account_correction :
    Services → EvidenceBundle → RecommendedAction → Drafted
draft_bank_account_correction services e a =
    made
      (draft_type "bank_account_correction_draft"
        ∷ ("merchant_id", merchant_id_of e.merchant_profile)
        ∷ ("bank_account_id", account_id_of e.merchant_bank_account)
        ∷ ("correction_reason", Value.text a.diagnosis)
        ∷ (
          "cs_message",
          Value.text
              (services.texts.merchant_cs ActionType.request_bank_account_correction a.diagnosis),
        )
        ∷ ("merchant_message", Value.text (services.texts.merchant_customer a.diagnosis))
        ∷ ("execution_mode", Value.text "draft_only")
        ∷ ("status", Value.text "created")
        ∷ [])
      CaseStatus.draft_created false
      (some (fields_of (("draft_type", Value.text "bank_account_correction_draft") ∷ [])))

unfoldable pub draft_manual_settlement_review :
    Services → EvidenceBundle → RecommendedAction → Drafted
draft_manual_settlement_review services e a =
    made
      (draft_type "manual_settlement_review"
        ∷ ("merchant_id", merchant_id_of e.merchant_profile)
        ∷ (
          "cs_message",
          Value.text (services.texts.merchant_cs ActionType.manual_settlement_review a.diagnosis),
        )
        ∷ ("diagnosis", Value.text a.diagnosis)
        ∷ ("status", Value.text "pending")
        ∷ [])
      CaseStatus.manual_review false
      (some (
        fields_of (
          ("draft_type", Value.text "manual_settlement_review")
          ∷ ("diagnosis", Value.text a.diagnosis)
          ∷ [])))
