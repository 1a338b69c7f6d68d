-- ===== src/Examples.antt =====
-- Concrete data on which the theorems are applied.
pub mod Engines
pub mod Runs
pub mod Decisions
pub mod Verification
pub mod Sessions
pub mod Cases
pub mod Accounts
pub mod Messages
use back_office_fintech.Common.{ℕ, String, Bool, true, false, Option, none, some, List, [], ◌∷◌}
use back_office_fintech.Common.Int.{ℤ, pos}
use back_office_fintech.Common.Value
use back_office_fintech.Common.Value.{Value}
use back_office_fintech.Common.Dict.{Dict}
use back_office_fintech.Schemas.Enums.{
  ActionType, ApprovalStatus, CaseStatus, ProviderStatusValue, RiskLevel, ServiceType,
  WalletLedgerStatus,
}
use back_office_fintech.Schemas.CaseState.{ApprovalPacket, ExtractedInfo, RecommendedAction}
use back_office_fintech.Schemas.Evidence.{
  AccountStatus, EvidenceBundle, FraudCase, MerchantBankAccount, MerchantProfile,
  MerchantSettlementLedger, ReconciliationStatus, SettlementBatch, TrainProviderStatus, Transaction,
  UtilityProviderStatus, WalletLedger, empty_bundle,
}
use back_office_fintech.Audit.{AuditEnv, AuditLogger, new_logger}
use back_office_fintech.Claims.{Claim, ClaimEnv, ClaimType, ClaimValue, VerificationStatus}
use back_office_fintech.Rules.MerchantSettlement.{Calendar}
use back_office_fintech.Graph.State.{AgentState, empty_state}
use back_office_fintech.Graph.Services.{
  DraftCall, DraftReply, EvidenceTools, Fetched, IdentityReply, MessageTexts, Services,
}

abbrev pub sample_transaction : String → String → Transaction
sample_transaction owner status = record {
  transaction_id = "T1";
  user_id = owner;
  service_type = "train_ticket";
  amount = 250;
  status = status;
  order_id = none;
  bill_code = none;
  customer_code = none;
  provider_ref_id = some "P1";
  created_at = none;
}

abbrev pub sample_ledger : WalletLedger
sample_ledger = record {
  transaction_id = "T1";
  user_id = "U1";
  entries = [];
  status = WalletLedgerStatus.debited;
  has_user_debit = true;
  debit_amount = 250;
  has_credit_refund = false;
  credit_refund_amount = 0;
  net_amount = pos 250;
}

abbrev pub sample_train : TrainProviderStatus
sample_train = record {
  provider_ref_id = "P1";
  booking_status = ProviderStatusValue.ticket_not_issued;
  ticket_code = none;
  departure = none;
}

abbrev pub sample_utility : UtilityProviderStatus
sample_utility = record {
  provider_ref_id = "P1";
  provider_status = ProviderStatusValue.failed;
  bill_status = none;
  bill_code = none;
  customer_code = none;
  amount = none;
}

abbrev pub sample_reconciliation : ReconciliationStatus
sample_reconciliation = record {
  transaction_id = "T1";
  status = none;
  mismatch_type = none;
  ticket_id = none;
  created_at = none;
  bank_status = some "SUCCESS";
  bank_amount = none;
  money_received_in_master_wallet = some true;
  bank_ref_id = none;
  note = none;
}

abbrev pub sample_account : AccountStatus
sample_account = record {
  user_id = "U1";
  wallet_id = none;
  account_status = some "locked";
  withdrawal_enabled = some false;
  lock_reason = none;
  current_balance = none;
  locked_at = none;
}

abbrev pub sample_case : ℕ → FraudCase
sample_case score = record {
  fraud_case_id = "F1";
  user_id = "U1";
  risk_score = some (pos score);
  risk_level = none;
  fraud_status = none;
  trigger_reason = none;
  signals = [];
  recent_transactions = [];
  device_events = [];
  recommended_decision = none;
}

abbrev pub sample_bank_account : MerchantBankAccount
sample_bank_account = record {
  bank_account_id = "B1";
  merchant_id = "M1";
  bank_code = none;
  bank_name = none;
  account_number = none;
  account_holder_name = none;
  branch_name = none;
  verification_status = some "verified";
  is_active = some true;
  failure_reason = none;
  last_verified_at = none;
  updated_at = none;
}

-- A failed batch, and an active merchant to whom 900 is owed.
abbrev pub sample_settlement : EvidenceBundle
sample_settlement = record empty_bundle {
  merchant_profile = some (record {
    merchant_id = "M1";
    merchant_name = none;
    tax_code = none;
    contact_email = none;
    phone = none;
    status = some "active";
    settlement_cycle = none;
    bank_account_id = some "B1";
    created_at = none;
  });
  merchant_bank_account = some sample_bank_account;
  settlement_batch = some (record {
    batch_id = "S1";
    settlement_date = none;
    cycle = none;
    status = some "failed";
    total_merchants = none;
    total_amount = none;
    started_at = none;
    finished_at = none;
    failure_reason = none;
    created_at = none;
  });
  merchant_settlement_ledger = some (record {
    ledger_id = "L1";
    merchant_id = "M1";
    settlement_date = none;
    due_date = none;
    gross_amount = none;
    fee_amount = none;
    refund_amount = none;
    chargeback_amount = none;
    net_settlement_amount = some (pos 900);
    currency = none;
    status = none;
    created_at = none;
  });
}

abbrev pub sample_calendar : Calendar
sample_calendar = record { today = 738000; from_iso_format = λ s. none }

abbrev pub sample_info : ExtractedInfo
sample_info = record {
  user_id = some "U1";
  transaction_id = some "T1";
  service_type = some ServiceType.train_ticket;
  issue_type = none;
  order_id = none;
  bill_code = none;
  customer_code = none;
  phone = none;
  email = none;
  wallet_id = none;
  merchant_id = none;
  merchant_name = none;
  tax_code = none;
  settlement_date = none;
  settlement_cycle = none;
  payout_id = none;
  batch_id = none;
  bank_account_number = none;
  amount_claimed = none;
  language = none;
  extraction_method = none;
  missing_fields = [];
  claims = [];
}

-- A transaction whose wallet was debited and whose ticket was not issued; nothing else is known.
abbrev sample_tools : EvidenceTools
sample_tools = record {
  get_transaction = λ i. Fetched.found (sample_transaction "U1" "success");
  get_wallet_ledger = λ i. Fetched.found sample_ledger;
  get_train_provider_status = λ i. Fetched.found sample_train;
  get_utility_bill_status = λ i. Fetched.refused "not found";
  get_refund_status = λ i. Fetched.refused "not found";
  get_reconciliation_status = λ i. Fetched.found none;
  get_user_by_phone = λ i. IdentityReply.not_found "phone";
  get_user_by_email = λ i. IdentityReply.not_found "email";
  get_user_by_wallet_id = λ i. IdentityReply.not_found "wallet";
  get_account_status = λ i. Fetched.refused "not found";
  get_fraud_case = λ i. Fetched.refused "not found";
  get_merchant_profile = λ i. Fetched.found none;
  get_merchant_bank_account = λ i. Fetched.found none;
  get_merchant_settlement_ledger = λ i. Fetched.found none;
  get_merchant_payout = λ i. Fetched.found none;
  get_settlement_batch = λ i. Fetched.found none;
  get_bank_transfer_receipt = λ i. Fetched.found none;
}

abbrev sample_texts : MessageTexts
sample_texts = record {
  topup_customer = λ d. d;
  fraud_customer = λ d. d;
  merchant_customer = λ d. d;
  topup_cs = λ a d. d;
  fraud_cs = λ a d. d;
  merchant_cs = λ a d. d;
}

abbrev sample_reply : DraftReply
sample_reply = record {
  draft_id = some "D1";
  amount = some 250;
  user_id = none;
  status = some "created";
  message = none;
  note = none;
}

-- A claim of the amount 250, as a number, and one as a text.
abbrev pub sample_claim : ClaimValue → Claim
sample_claim value = record {
  claim_id = "CLM-1";
  claim_type = ClaimType.transaction_amount;
  raw_text = "250";
  customer_claimed_value = value;
  normalized_value = value;
  unit = some "VND";
  verification_status = VerificationStatus.not_verifiable;
  trusted_system_value = ClaimValue.absent;
  trusted_source = none;
  explanation = "";
}

-- Every dictionary is read as a claim of the given value, and no text as a number.
abbrev pub sample_claim_env : ClaimValue → ClaimEnv
sample_claim_env value = record {
  int_of_text = λ s. none;
  lower = λ s. s;
  new_claim_id = λ n. "CLM";
  model_validate = λ v. some (sample_claim value);
}

abbrev pub sample_audit_env : AuditEnv
sample_audit_env = record { new_event_id = λ n. "E"; mask_pii = λ s. s }

abbrev pub sample_services : Services
sample_services = record {
  audit_env = sample_audit_env;
  new_case_id = "CASE-1";
  new_correlation_id = "K1";
  now = 1000;
  calendar = sample_calendar;
  extract_complaint_info = λ c u. sample_info;
  tools = sample_tools;
  call_draft_tool = λ c. Fetched.found sample_reply;
  texts = sample_texts;
  claim_env = sample_claim_env (ClaimValue.number (pos 250));
  generate_case_response = λ s. Value.null;
  build_resolution_ticket = λ s v. Value.null;
}

abbrev pub sample_start : AgentState
sample_start = record empty_state { raw_complaint = some "no ticket"; user_id = some "U1" }

abbrev pub sample_sha : String → String
sample_sha s = s

abbrev pub refund_action : RecommendedAction
refund_action = record {
  action_type = ActionType.create_refund_request_draft;
  diagnosis = "wallet_debited_ticket_not_issued";
  summary = "refund";
  risk_level = RiskLevel.medium;
  evidence_refs = [];
  approval_required = true;
}

abbrev pub refund_packet : String → ApprovalPacket
refund_packet id = record {
  case_id = id;
  proposed_action = ActionType.create_refund_request_draft;
  amount = 250;
  transaction_id = "T1";
  user_id = "U1";
  reason = "wallet_debited_ticket_not_issued";
  evidence_summary = "wallet_debited_ticket_not_issued" ∷ [];
  risk_level = RiskLevel.medium;
  rule_version = "1.0.0";
  requires_approval = true;
  approval_deadline = none;
  escalate_to = none;
}

-- A case that waits for the approval of a refund.
abbrev pub waiting_state : String → AgentState
waiting_state id = record empty_state {
  case_id = some id;
  recommended_action = some refund_action;
  approval_packet = some (refund_packet id);
  approval_status = some ApprovalStatus.pending;
  approval_required = true;
  status = some CaseStatus.waiting_approval;
}
