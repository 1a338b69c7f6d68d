-- ===== src/Graph/Services.antt =====
-- What the nodes call outside the graph. The typed calls of the MCP client stand for
-- `call_tool_sync` (src/fintech_agent/mcp_client) followed by the test for an "error" entry and
-- `model_validate`; the language model and the texts of src/fintech_agent/messages are functions.
-- The graph's theorems hold for every choice of them.
use back_office_fintech.Common.{ℕ, String, Option, List}
use back_office_fintech.Audit.{AuditEnv}
use back_office_fintech.Claims.{ClaimEnv}
use back_office_fintech.Graph.State.{AgentState}
use back_office_fintech.Rules.MerchantSettlement.{Calendar}
use back_office_fintech.Common.Value.{Value}
use back_office_fintech.Common.Dict.{Dict}
use back_office_fintech.Schemas.Enums.{ActionType}
use back_office_fintech.Schemas.CaseState.{ExtractedInfo}
use back_office_fintech.Schemas.Evidence.{
  AccountStatus, BankTransferReceipt, FraudCase, MerchantBankAccount, MerchantPayout,
  MerchantProfile, MerchantSettlementLedger, ReconciliationStatus, RefundStatus, SettlementBatch,
  TrainProviderStatus, Transaction, UtilityProviderStatus, WalletLedger,
}

-- A reply with data, or the text of the exception that it ends in.
pub data Fetched {ℓ} (A : Type ℓ) : Type ℓ where
  found : A → Fetched A
  refused : String → Fetched A

-- A look-up of a user: a reply without an "error" entry, one with it, or an exception.
pub data IdentityReply : Type 0 where
  resolved : Option String → IdentityReply
  not_found : String → IdentityReply
  raised : String → IdentityReply

-- The read-only tools. An inner `Option` is a reply that is an error or does not parse, where the
-- caller goes on without the data.
pub record EvidenceTools : Type 0 where
  pub get_transaction : String → Fetched Transaction
  pub get_wallet_ledger : String → Fetched WalletLedger
  pub get_train_provider_status : String → Fetched TrainProviderStatus
  pub get_utility_bill_status : String → Fetched UtilityProviderStatus
  pub get_refund_status : String → Fetched RefundStatus
  pub get_reconciliation_status : String → Fetched (Option ReconciliationStatus)
  pub get_user_by_phone : String → IdentityReply
  pub get_user_by_email : String → IdentityReply
  pub get_user_by_wallet_id : String → IdentityReply
  pub get_account_status : String → Fetched AccountStatus
  pub get_fraud_case : String → Fetched FraudCase
  pub get_merchant_profile : Dict String → Fetched (Option MerchantProfile)
  pub get_merchant_bank_account : String → Fetched (Option MerchantBankAccount)
  pub get_merchant_settlement_ledger : Dict String → Fetched (Option MerchantSettlementLedger)
  pub get_merchant_payout : Dict String → Fetched (Option MerchantPayout)
  pub get_settlement_batch : Dict String → Fetched (Option SettlementBatch)
  pub get_bank_transfer_receipt : Dict String → Fetched (Option BankTransferReceipt)

-- The entries of a reply that `create_draft` reads, each of which may be absent.
pub record DraftReply : Type 0 where
  pub draft_id : Option String
  pub amount : Option ℕ
  pub user_id : Option String
  pub status : Option String
  pub message : Option String
  pub note : Option String

-- The calls of the draft tools, with their arguments.
pub data DraftCall : Type 0 where
  refund_request :
      (case_id transaction_id user_id : String)
      → (amount : ℕ) → (reason : String) → List String
      → DraftCall
  reconciliation_ticket :
      (case_id transaction_id user_id mismatch_type : String) → List String → DraftCall
  customer_response : (case_id transaction_id message : String) → DraftCall
  unlock_account : (case_id user_id reason : String) → List String → DraftCall
  request_documents : (case_id user_id reason : String) → List String → DraftCall
  force_success :
      (case_id transaction_id user_id : String)
      → (amount : ℕ) → (reason : String) → List String
      → DraftCall

pub record MessageTexts : Type 0 where
  pub topup_customer : String → String
  pub fraud_customer : String → String
  pub merchant_customer : String → String  -- `get_merchant_message`
  pub topup_cs : ActionType → String → String
  pub fraud_cs : ActionType → String → String
  pub merchant_cs : ActionType → String → String

pub record Services : Type 0 where
  pub audit_env : AuditEnv
  pub new_case_id : String  -- the eight upper-case digits of `case_intake`
  pub new_correlation_id : String
  pub now : ℕ  -- seconds
  pub calendar : Calendar
  pub extract_complaint_info : String → Option String → ExtractedInfo
  pub tools : EvidenceTools
  pub call_draft_tool : DraftCall → Fetched DraftReply
  pub texts : MessageTexts
  pub claim_env : ClaimEnv
  pub generate_case_response : AgentState → Value
  pub build_resolution_ticket : AgentState → Value → Value
