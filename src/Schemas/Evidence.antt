-- ===== src/Schemas/Evidence.antt =====
-- The evidence models of src/fintech_agent/schemas/evidence.py. An `int` with `ge=0` is a natural
-- number, any other `int` is an integer; a `datetime` is kept as its ISO text. Fields that are
-- `None` by default are `Option`. Non-emptiness of identifiers (`min_length=1`) is not carried.
use back_office_fintech.Common.{
  ℕ, ℕ, String, Bool, Option, none, List, [], ◌||◌, is_nonempty, is_one_of,
}
use back_office_fintech.Common.Int.{ℤ}
use back_office_fintech.Common.Value.{Value}
use back_office_fintech.Common.Dict.{Dict}
use back_office_fintech.Schemas.Enums.{ProviderStatusValue, RefundStatusValue, WalletLedgerStatus}

pub record Transaction : Type 0 where
  pub transaction_id : String
  pub user_id : String
  pub service_type : String
  pub amount : ℕ
  pub status : String
  pub order_id : Option String
  pub bill_code : Option String
  pub customer_code : Option String
  pub provider_ref_id : Option String
  pub created_at : Option String

pub record WalletLedgerEntry : Type 0 where
  pub entry_type : String
  pub amount : ℕ
  pub balance_after : Option ℤ
  pub reason : Option String
  pub created_at : Option String

pub record WalletLedger : Type 0 where
  pub transaction_id : String
  pub user_id : String
  pub entries : List WalletLedgerEntry
  pub status : WalletLedgerStatus
  pub has_user_debit : Bool
  pub debit_amount : ℕ
  pub has_credit_refund : Bool
  pub credit_refund_amount : ℕ
  pub net_amount : ℤ

pub record TrainProviderStatus : Type 0 where
  pub provider_ref_id : String
  pub booking_status : ProviderStatusValue
  pub ticket_code : Option String
  pub departure : Option String

pub record UtilityProviderStatus : Type 0 where
  pub provider_ref_id : String
  pub provider_status : ProviderStatusValue
  pub bill_status : Option String
  pub bill_code : Option String
  pub customer_code : Option String
  pub amount : Option ℕ

pub record RefundStatus : Type 0 where
  pub transaction_id : String
  pub refund_status : RefundStatusValue
  pub refund_amount : Option ℕ
  pub refund_id : Option String
  pub requested_at : Option String
  pub executed_at : Option String

pub record ReconciliationStatus : Type 0 where
  pub transaction_id : String
  pub status : Option String
  pub mismatch_type : Option String
  pub ticket_id : Option String
  pub created_at : Option String
  pub bank_status : Option String
  pub bank_amount : Option ℤ
  pub money_received_in_master_wallet : Option Bool
  pub bank_ref_id : Option String
  pub note : Option String

-- `current_balance` may be a float in the source; it is an integer here.
pub record AccountStatus : Type 0 where
  pub user_id : String
  pub wallet_id : Option String
  pub account_status : Option String
  pub withdrawal_enabled : Option Bool
  pub lock_reason : Option String
  pub current_balance : Option ℤ
  pub locked_at : Option String

pub record FraudCase : Type 0 where
  pub fraud_case_id : String
  pub user_id : String
  pub risk_score : Option ℤ
  pub risk_level : Option String
  pub fraud_status : Option String
  pub trigger_reason : Option String
  pub signals : Dict Value
  pub recent_transactions : List (Dict Value)
  pub device_events : List (Dict Value)
  pub recommended_decision : Option String

pub record EvidenceConflict : Type 0 where
  pub source_a : String
  pub source_b : String
  pub field_name : String  -- `field`
  pub value_a : String
  pub value_b : String
  pub description : String
  pub conflict_type : Option String
  pub severity : String

pub record MerchantProfile : Type 0 where
  pub merchant_id : String
  pub merchant_name : Option String
  pub tax_code : Option String
  pub contact_email : Option String
  pub phone : Option String
  pub status : Option String
  pub settlement_cycle : Option String
  pub bank_account_id : Option String
  pub created_at : Option String

pub record MerchantBankAccount : Type 0 where
  pub bank_account_id : String
  pub merchant_id : String
  pub bank_code : Option String
  pub bank_name : Option String
  pub account_number : Option String
  pub account_holder_name : Option String
  pub branch_name : Option String
  pub verification_status : Option String
  pub is_active : Option Bool
  pub failure_reason : Option String
  pub last_verified_at : Option String
  pub updated_at : Option String

pub record SettlementBatch : Type 0 where
  pub batch_id : String
  pub settlement_date : Option String
  pub cycle : Option String
  pub status : Option String
  pub total_merchants : Option ℤ
  pub total_amount : Option ℤ
  pub started_at : Option String
  pub finished_at : Option String
  pub failure_reason : Option String
  pub created_at : Option String

pub record MerchantSettlementLedger : Type 0 where
  pub ledger_id : String
  pub merchant_id : String
  pub settlement_date : Option String
  pub due_date : Option String
  pub gross_amount : Option ℤ
  pub fee_amount : Option ℤ
  pub refund_amount : Option ℤ
  pub chargeback_amount : Option ℤ
  pub net_settlement_amount : Option ℤ
  pub currency : Option String
  pub status : Option String
  pub created_at : Option String

pub record MerchantPayout : Type 0 where
  pub payout_id : String
  pub batch_id : Option String
  pub merchant_id : String
  pub settlement_date : Option String
  pub bank_account_id : Option String
  pub amount : Option ℤ
  pub currency : Option String
  pub status : Option String
  pub bank_transfer_ref : Option String
  pub failure_reason : Option String
  pub scheduled_date : Option String
  pub executed_at : Option String
  pub created_at : Option String

pub record BankTransferReceipt : Type 0 where
  pub receipt_id : String
  pub payout_id : Option String
  pub bank_transfer_ref : Option String
  pub bank_status : Option String
  pub unc_number : Option String
  pub receipt_url : Option String
  pub sent_to_merchant : Option Bool
  pub sent_at : Option String
  pub created_at : Option String

pub record EvidenceBundle : Type 0 where
  pub transaction : Option Transaction
  pub wallet_ledger : Option WalletLedger
  pub train_provider : Option TrainProviderStatus
  pub utility_provider : Option UtilityProviderStatus
  pub refund_status : Option RefundStatus
  pub reconciliation_status : Option ReconciliationStatus
  pub account_status : Option AccountStatus
  pub fraud_case : Option FraudCase
  pub merchant_profile : Option MerchantProfile
  pub merchant_bank_account : Option MerchantBankAccount
  pub settlement_batch : Option SettlementBatch
  pub merchant_settlement_ledger : Option MerchantSettlementLedger
  pub merchant_payout : Option MerchantPayout
  pub bank_transfer_receipt : Option BankTransferReceipt
  pub conflicts : List EvidenceConflict
  pub tool_errors : List String

-- `EvidenceBundle.has_conflicts`
abbrev pub has_conflicts : EvidenceBundle → Bool
has_conflicts e = is_nonempty e.conflicts

-- `EvidenceBundle.has_critical_failures`
unfoldable pub has_critical_failures : EvidenceBundle → Bool
has_critical_failures e =
    is_one_of "get_wallet_ledger" e.tool_errors || is_one_of "get_transaction" e.tool_errors

-- `EvidenceBundle()`
abbrev pub empty_bundle : EvidenceBundle
empty_bundle = record {
  transaction = none;
  wallet_ledger = none;
  train_provider = none;
  utility_provider = none;
  refund_status = none;
  reconciliation_status = none;
  account_status = none;
  fraud_case = none;
  merchant_profile = none;
  merchant_bank_account = none;
  settlement_batch = none;
  merchant_settlement_ledger = none;
  merchant_payout = none;
  bank_transfer_receipt = none;
  conflicts = [];
  tool_errors = [];
}
