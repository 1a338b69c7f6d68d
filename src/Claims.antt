-- ===== src/Claims.antt =====
-- src/fintech_agent/schemas/claim_verification.py and rules/claim_verifier.py: what the customer
-- claims, and its verification against the evidence. Floats are left out.
pub mod Amounts
pub mod Verifiers
pub mod Synthesis
pub mod TrustedData
pub mod Summary
pub mod Counts
pub mod Verdicts
pub mod Sources
pub mod Statements
pub mod Errors
pub mod Answers
pub mod Actions
pub mod Account
use back_office_fintech.Common.{ℕ, zero, suc, String, Bool, Option, some, List, str_eq}
use back_office_fintech.Common.Int.{ℤ, pos, negsuc}
use back_office_fintech.Common.Dict.{Dict}
use back_office_fintech.Common.Text.{show_ℤ}
use back_office_fintech.Common.Value.{Value}

pub data ClaimType : Type 0 where
  transaction_id user_identity transaction_amount wallet_balance payment_status service_delivery
        provider_status bank_status refund_status account_status withdrawal_status customer_opinion
        time unknown :
      ClaimType

pub data VerificationStatus : Type 0 where
  matched mismatched not_verifiable not_found system_only : VerificationStatus

unfoldable pub claim_type_value : ClaimType → String
claim_type_value ClaimType.transaction_id = "transaction_id_claim"
claim_type_value ClaimType.user_identity = "user_identity_claim"
claim_type_value ClaimType.transaction_amount = "transaction_amount_claim"
claim_type_value ClaimType.wallet_balance = "wallet_balance_claim"
claim_type_value ClaimType.payment_status = "payment_status_claim"
claim_type_value ClaimType.service_delivery = "service_delivery_claim"
claim_type_value ClaimType.provider_status = "provider_status_claim"
claim_type_value ClaimType.bank_status = "bank_status_claim"
claim_type_value ClaimType.refund_status = "refund_status_claim"
claim_type_value ClaimType.account_status = "account_status_claim"
claim_type_value ClaimType.withdrawal_status = "withdrawal_status_claim"
claim_type_value ClaimType.customer_opinion = "customer_opinion_claim"
claim_type_value ClaimType.time = "time_claim"
claim_type_value ClaimType.unknown = "unknown_claim"

-- `CLAIM_TYPE_LABELS`
unfoldable pub claim_type_label : ClaimType → String
claim_type_label ClaimType.transaction_id = "Mã giao dịch"
claim_type_label ClaimType.user_identity = "Thông tin người dùng"
claim_type_label ClaimType.transaction_amount = "Số tiền giao dịch"
claim_type_label ClaimType.wallet_balance = "Số dư ví khách phản ánh"
claim_type_label ClaimType.payment_status = "Trạng thái thanh toán khách phản ánh"
claim_type_label ClaimType.service_delivery = "Tình trạng dịch vụ khách phản ánh"
claim_type_label ClaimType.provider_status = "Trạng thái provider"
claim_type_label ClaimType.bank_status = "Trạng thái ngân hàng"
claim_type_label ClaimType.refund_status = "Trạng thái hoàn tiền"
claim_type_label ClaimType.account_status = "Trạng thái tài khoản"
claim_type_label ClaimType.withdrawal_status = "Trạng thái rút tiền"
claim_type_label ClaimType.customer_opinion = "Ý kiến khách hàng"
claim_type_label ClaimType.time = "Thời gian khách phản ánh"
claim_type_label ClaimType.unknown = "Thông tin khác"

-- `str | int | None`
pub data ClaimValue : Type 0 where
  word : String → ClaimValue
  number : ℤ → ClaimValue
  absent : ClaimValue

pub record Claim : Type 0 where
  pub claim_id : String
  pub claim_type : ClaimType
  pub raw_text : String
  pub customer_claimed_value : ClaimValue
  pub normalized_value : ClaimValue
  pub unit : Option String
  pub verification_status : VerificationStatus
  pub trusted_system_value : ClaimValue
  pub trusted_source : Option String
  pub explanation : String

pub record ClaimVerificationSummary : Type 0 where
  pub summary : String
  pub claims : List Claim
  pub matched_claims : List ClaimType
  pub mismatched_claims : List ClaimType
  pub not_verifiable_claims : List ClaimType
  pub not_found_claims : List ClaimType
  pub has_customer_detail_mismatch : Bool
  pub has_system_evidence_conflict : Bool
  pub staff_explanation : String
  pub trusted_data_used_for_action : Dict ClaimValue

-- What the verifier takes from Python and from pydantic: `int` on a text (`none` where it raises),
-- `str.lower` with the letters of Vietnamese, the identifier of a new claim at a position, and
-- `Claim.model_validate` (`none` where it raises).
pub record ClaimEnv : Type 0 where
  pub int_of_text : String → Option ℤ
  pub lower : String → String
  pub new_claim_id : ℕ → String
  pub model_validate : Value → Option Claim

-- `str(value or "")`
unfoldable pub value_text : ClaimValue → String
value_text (ClaimValue.word s) = s
value_text (ClaimValue.number (pos zero)) = ""
value_text (ClaimValue.number (pos (suc n))) = show_ℤ (pos (suc n))
value_text (ClaimValue.number (negsuc n)) = show_ℤ (negsuc n)
value_text ClaimValue.absent = ""

-- The update of a claim without a trusted value, and with one.
unfoldable pub with_status : VerificationStatus → String → Claim → Claim
with_status status explanation claim = record claim {
  verification_status = status;
  explanation = explanation;
}

unfoldable pub with_trusted : VerificationStatus → ClaimValue → String → String → Claim → Claim
with_trusted status value source explanation claim = record claim {
  verification_status = status;
  trusted_system_value = value;
  trusted_source = some source;
  explanation = explanation;
}

-- `t == u`, on claim types
unfoldable pub same_type : ClaimType → ClaimType → Bool
unfolding claim_type_value
same_type t u = str_eq (claim_type_value t) (claim_type_value u)
