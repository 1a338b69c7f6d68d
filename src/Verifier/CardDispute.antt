-- ===== src/Verifier/CardDispute.antt =====
-- src/fintech_agent/workflows/card_payment_dispute.py: a workflow that is added to the registry.
use back_office_fintech.Common.{
  String, true, false, ◌&&◌, Option, none, some, [], ◌∷◌, is_none, if◌then◌else◌,
}
use back_office_fintech.Common.Int.{ℤ}
use back_office_fintech.Common.Text.{concat, text_or_empty}
use back_office_fintech.Common.Dict.{Dict}
use back_office_fintech.Common.Value.{Value}
use back_office_fintech.Schemas.CaseState.{is_truthy}
use back_office_fintech.Registry.{WorkflowRegistry, WorkflowSpec, register}
use back_office_fintech.Verifier.Account.{ResolutionResult}

-- The extracted fields that are read.
pub record Extracted : Type 0 where
  pub amount : Option ℤ
  pub card_last4 : Option String
  pub bank_reference : Option String

abbrev amount_of : Option Extracted → Option ℤ
amount_of none = none
amount_of (some x) = x.amount

abbrev card_of : Option Extracted → Option String
card_of none = none
card_of (some x) = if is_truthy x.card_last4 then x.card_last4 else x.bank_reference

abbrev need_more_info : ResolutionResult
need_more_info = record {
  resolution_status = "need_more_info";
  resolved_entity_type = "none";
  resolved_entity_id = none;
  public_safe_evidence = [];
  missing_info = "card_last4" ∷ "amount" ∷ "transaction_time" ∷ [];
  verified_amount = none;
  verified_status = "";
  verified_owner_id = "";
  verified_bank_name = "";
  verified_bank_status = "";
  verified_provider_status = "";
  discovery_result = none;
}

-- The public response of a result is left out.
unfoldable pub resolve_card_payment_dispute : Option String → Option Extracted → ResolutionResult
resolve_card_payment_dispute user_id extracted =
    let user = text_or_empty user_id in
    if is_none (amount_of extracted) && is_none (card_of extracted)
    then need_more_info
    else record {
      resolution_status = "resolved";
      resolved_entity_type = "card_transaction";
      resolved_entity_id = some (concat ("CARD_DEMO_" ∷ user ∷ []));
      public_safe_evidence =
          ("transaction_status", Value.text "đang kiểm tra")
          ∷ ("payment_status", Value.text "pending")
          ∷ ("card_status", Value.text "active")
          ∷ [];
      missing_info = [];
      verified_amount = amount_of extracted;
      verified_status = "pending_review";
      verified_owner_id = user;
      verified_bank_name = "";
      verified_bank_status = "";
      verified_provider_status = "";
      discovery_result = none;
    }

unfoldable pub diagnose_card_dispute : Dict Value
diagnose_card_dispute =
    ("can_explain_to_customer", Value.bool true)
    ∷ ("root_cause_found", Value.bool false)
    ∷ ("issue_location", Value.text "card_processing")
    ∷ (
      "customer_safe_explanation",
      Value.text
          "Giao dịch thẻ đang được bộ phận kiểm tra xác minh. Kết quả sẽ được cập nhật sớm nhất.",
    )
    ∷ ("requires_staff_review", Value.bool true)
    ∷ ("requires_more_customer_info", Value.bool false)
    ∷ ("confidence", Value.text "medium")
    ∷ []

abbrev pub card_payment_dispute : WorkflowSpec
card_payment_dispute = record {
  workflow_id = "card_payment_dispute";
  display_noun = "giao dịch tranh chấp thẻ";
  supported_subject_types = "wallet_user" ∷ [];
  intent_examples =
      "giao dịch thẻ lạ" ∷ "tranh chấp thanh toán" ∷ "không nhận ra giao dịch" ∷ "thẻ bị trừ tiền"
      ∷ "card dispute" ∷ "chargeback" ∷ [];
  required_identity_fields = "user_id" ∷ [];
  searchable_claim_fields =
      "card_last4" ∷ "amount" ∷ "merchant_name" ∷ "approximate_time_text" ∷ [];
  service_types = "card_payment" ∷ [];
  evidence_schema =
      ("card_status", "str") ∷ ("chargeback_status", "str") ∷ ("merchant_name", "str") ∷ [];
  customer_response_policy = "";
  staff_handoff_policy =
      ("requires_staff", "chargeback" ∷ "fraud_suspected" ∷ [])
      ∷ ("skip_staff", "faq" ∷ "resolved" ∷ [])
      ∷ [];
  issue_verification_rules = [];
  safe_response_policy = [];
}

unfoldable pub register_card_dispute : WorkflowRegistry → WorkflowRegistry
unfolding register
register_card_dispute registry = register card_payment_dispute registry
