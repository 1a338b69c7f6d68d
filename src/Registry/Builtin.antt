-- ===== src/Registry/Builtin.antt =====
-- src/fintech_agent/workflows/workflow_registry.py: `_register_builtin_workflows`.
use back_office_fintech.Common.{[], ◌∷◌}
use back_office_fintech.Common.Value.{text, texts}
use back_office_fintech.Registry.{WorkflowRegistry, WorkflowSpec, register}

abbrev pub wallet_topup : WorkflowSpec
wallet_topup = record {
  workflow_id = "wallet_topup";
  display_noun = "giao dịch nạp tiền";
  supported_subject_types = "wallet_user" ∷ [];
  intent_examples =
      "nạp tiền" ∷ "nạp ví" ∷ "bank trừ rồi mà ví chưa có" ∷ "chuyển tiền vào ví" ∷ "wallet topup"
      ∷ [];
  required_identity_fields = "user_id" ∷ [];
  searchable_claim_fields =
      "transaction_id" ∷ "amount" ∷ "bank_name" ∷ "bank_reference" ∷ "approximate_time_text" ∷ [];
  service_types = "wallet_topup" ∷ [];
  evidence_schema =
      ("bank_status", "str")
      ∷ ("wallet_status", "str")
      ∷ ("reconciliation_status", "str")
      ∷ ("mismatch_type", "str")
      ∷ [];
  customer_response_policy = "wallet_topup";
  staff_handoff_policy =
      ("requires_staff", "contradiction" ∷ "unresolved_financial" ∷ [])
      ∷ ("skip_staff", "faq" ∷ "off_topic" ∷ "resolved" ∷ [])
      ∷ [];
  issue_verification_rules =
      ("issue_when", ("status", "pending" ∷ "failed" ∷ "error" ∷ "processing" ∷ []) ∷ [])
      ∷ ("no_issue_when", ("status", "completed" ∷ "success" ∷ "confirmed" ∷ []) ∷ [])
      ∷ [];
  safe_response_policy =
      ("may_mention", texts ("bank_status" ∷ "wallet_status" ∷ "reconciliation_status" ∷ []))
      ∷ ("never_promise", texts ("refund" ∷ "wallet_credit" ∷ "exact_eta" ∷ []))
      ∷ ("claim_label", text "bạn cung cấp")
      ∷ ("evidence_label", text "theo kiểm tra hệ thống")
      ∷ [];
}

abbrev pub train_ticket : WorkflowSpec
train_ticket = record {
  workflow_id = "train_ticket";
  display_noun = "giao dịch vé tàu";
  supported_subject_types = "wallet_user" ∷ [];
  intent_examples = "vé tàu" ∷ "đặt vé tàu" ∷ "chưa nhận vé" ∷ "mua vé" ∷ "train ticket" ∷ [];
  required_identity_fields = "user_id" ∷ [];
  searchable_claim_fields = "transaction_id" ∷ "order_id" ∷ "amount" ∷ "approximate_time_text" ∷ [];
  service_types = "train_ticket" ∷ [];
  evidence_schema = ("ticket_status", "str") ∷ ("provider_status", "str") ∷ [];
  customer_response_policy = "train_ticket";
  staff_handoff_policy =
      ("requires_staff", "contradiction" ∷ "unresolved_financial" ∷ [])
      ∷ ("skip_staff", "faq" ∷ "off_topic" ∷ "resolved" ∷ [])
      ∷ [];
  issue_verification_rules =
      ("issue_when", ("status", "pending" ∷ "failed" ∷ "error" ∷ []) ∷ [])
      ∷ ("no_issue_when", ("status", "completed" ∷ "success" ∷ []) ∷ [])
      ∷ [];
  safe_response_policy =
      ("may_mention", texts ("ticket_status" ∷ "provider_status" ∷ []))
      ∷ ("never_promise", texts ("refund" ∷ "ticket_reissue" ∷ "exact_eta" ∷ []))
      ∷ ("claim_label", text "bạn cung cấp")
      ∷ ("evidence_label", text "theo kiểm tra hệ thống")
      ∷ [];
}

abbrev pub utility_bill : WorkflowSpec
utility_bill = record {
  workflow_id = "utility_bill";
  display_noun = "giao dịch thanh toán hóa đơn";
  supported_subject_types = "wallet_user" ∷ [];
  intent_examples =
      "hóa đơn điện" ∷ "hóa đơn nước" ∷ "thanh toán hóa đơn" ∷ "bill điện" ∷ "tiền điện"
      ∷ "tiền nước" ∷ "utility bill" ∷ [];
  required_identity_fields = "user_id" ∷ [];
  searchable_claim_fields =
      "transaction_id" ∷ "bill_code" ∷ "customer_code" ∷ "amount" ∷ "provider_name" ∷ [];
  service_types = "electric_bill" ∷ "water_bill" ∷ [];
  evidence_schema = ("bill_status", "str") ∷ ("provider_status", "str") ∷ [];
  customer_response_policy = "utility_bill";
  staff_handoff_policy =
      ("requires_staff", "contradiction" ∷ "unresolved_financial" ∷ [])
      ∷ ("skip_staff", "faq" ∷ "off_topic" ∷ "resolved" ∷ [])
      ∷ [];
  issue_verification_rules =
      ("issue_when", ("status", "pending" ∷ "failed" ∷ "error" ∷ []) ∷ [])
      ∷ ("no_issue_when", ("status", "completed" ∷ "success" ∷ []) ∷ [])
      ∷ [];
  safe_response_policy =
      ("may_mention", texts ("bill_status" ∷ "provider_status" ∷ []))
      ∷ ("never_promise", texts ("refund" ∷ "exact_eta" ∷ []))
      ∷ ("claim_label", text "bạn cung cấp")
      ∷ ("evidence_label", text "theo kiểm tra hệ thống")
      ∷ [];
}

abbrev pub fraud_account_lock : WorkflowSpec
fraud_account_lock = record {
  workflow_id = "fraud_account_lock";
  display_noun = "tài khoản bị khóa";
  supported_subject_types = "wallet_user" ∷ [];
  intent_examples =
      "tài khoản bị khóa" ∷ "bị khóa tài khoản" ∷ "không đăng nhập được" ∷ "account locked"
      ∷ "bị chặn tài khoản" ∷ [];
  required_identity_fields = "user_id" ∷ [];
  searchable_claim_fields = [];
  service_types = [];
  evidence_schema = ("account_status", "str") ∷ ("withdrawal_enabled", "bool") ∷ [];
  customer_response_policy = "fraud_account_lock";
  staff_handoff_policy =
      ("requires_staff", "account_locked" ∷ "under_review" ∷ [])
      ∷ ("skip_staff", "account_active" ∷ "faq" ∷ [])
      ∷ [];
  issue_verification_rules =
      ("issue_when", ("account_status", "locked" ∷ "suspended" ∷ "under_review" ∷ []) ∷ [])
      ∷ ("no_issue_when", ("account_status", "active" ∷ []) ∷ [])
      ∷ [];
  safe_response_policy =
      ("may_mention", texts ("account_status" ∷ []))
      ∷ ("never_promise", texts ("unlock" ∷ "exact_eta" ∷ []))
      ∷ ("claim_label", text "bạn cung cấp")
      ∷ ("evidence_label", text "theo kiểm tra hệ thống")
      ∷ [];
}

abbrev pub merchant_settlement_delay : WorkflowSpec
merchant_settlement_delay = record {
  workflow_id = "merchant_settlement_delay";
  display_noun = "giao dịch settlement";
  supported_subject_types = "merchant" ∷ [];
  intent_examples =
      "settlement" ∷ "giải ngân" ∷ "payout" ∷ "chưa nhận tiền" ∷ "merchant settlement" ∷ [];
  required_identity_fields = "merchant_id" ∷ [];
  searchable_claim_fields = "payout_id" ∷ "batch_id" ∷ "settlement_date" ∷ [];
  service_types = [];
  evidence_schema =
      ("payment_status", "str")
      ∷ ("payout_status", "str")
      ∷ ("settlement_status", "str")
      ∷ ("bank_account_status", "str")
      ∷ [];
  customer_response_policy = "merchant_settlement_delay";
  staff_handoff_policy =
      ("requires_staff", "payout_failed" ∷ "bank_account_invalid" ∷ [])
      ∷ ("skip_staff", "faq" ∷ "off_topic" ∷ "completed" ∷ [])
      ∷ [];
  issue_verification_rules =
      ("issue_when", ("settlement_status", "pending" ∷ "delayed" ∷ "failed" ∷ []) ∷ [])
      ∷ ("no_issue_when", ("settlement_status", "completed" ∷ "paid" ∷ []) ∷ [])
      ∷ [];
  safe_response_policy =
      ("may_mention", texts ("payment_status" ∷ "settlement_status" ∷ "bank_account_status" ∷ []))
      ∷ ("never_promise", texts ("payout" ∷ "manual_payout" ∷ "exact_eta" ∷ []))
      ∷ ("claim_label", text "bạn cung cấp")
      ∷ ("evidence_label", text "theo kiểm tra hệ thống")
      ∷ [];
}

-- The registry that `get_registry` creates.
unfoldable pub builtin_registry : WorkflowRegistry
unfolding register
builtin_registry = register merchant_settlement_delay (
    register fraud_account_lock
      (register utility_bill (register train_ticket (register wallet_topup []))))
