-- ===== src/Claims/Amounts.antt =====
-- src/fintech_agent/rules/claim_verifier.py: the trusted amount, the consistency of the sources of
-- amounts, and the two verifiers that compare numbers. `none` is an exception: `int` on a text that
-- is not a number.
use back_office_fintech.Common.{
  zero, suc, String, Bool, true, false, Option, none, some, List, [], ◌∷◌, ◌++◌, leb, all, length,
  str_eq, if◌then◌else◌,
}
use back_office_fintech.Common.Int.{ℤ, pos, negsuc, eqb_ℤ}
use back_office_fintech.Common.Text.{concat, show_grouped}
use back_office_fintech.Schemas.Evidence.{
  EvidenceBundle, ReconciliationStatus, Transaction, WalletLedger,
}
use back_office_fintech.Claims.{
  Claim, ClaimEnv, ClaimValue, VerificationStatus, with_status, with_trusted,
}

-- An amount and the name of its source.
abbrev pub SourcedAmount : Type 0
SourcedAmount = ℤ × String

-- `if source and source.amount`, for each of the three sources: an amount of zero does not count.
abbrev nonzero : ℤ → String → Option SourcedAmount
nonzero (pos zero) source = none
nonzero (pos (suc n)) source = some (pos (suc n), source)
nonzero (negsuc n) source = some (negsuc n, source)

unfoldable pub ledger_amount : Option WalletLedger → Option SourcedAmount
ledger_amount none = none
ledger_amount (some w) = nonzero (pos w.debit_amount) "wallet_ledger.debit_amount"

unfoldable pub transaction_amount : Option Transaction → Option SourcedAmount
transaction_amount none = none
transaction_amount (some t) = nonzero (pos t.amount) "transaction.amount"

abbrev bank_amount_of : Option ℤ → Option SourcedAmount
bank_amount_of none = none
bank_amount_of (some n) = nonzero n "reconciliation.bank_amount"

unfoldable pub bank_amount : Option ReconciliationStatus → Option SourcedAmount
bank_amount none = none
bank_amount (some r) = bank_amount_of r.bank_amount

abbrev pub or_amount : Option SourcedAmount → Option SourcedAmount → Option SourcedAmount
or_amount none b = b
or_amount (some a) b = some a

-- `_get_trusted_amount`
unfoldable pub get_trusted_amount : EvidenceBundle → Option SourcedAmount
get_trusted_amount e =
    or_amount (ledger_amount e.wallet_ledger)
      (or_amount (transaction_amount e.transaction) (bank_amount e.reconciliation_status))

abbrev pub one_or_none : Option SourcedAmount → List SourcedAmount
one_or_none none = []
one_or_none (some a) = a ∷ []

-- The list `amounts` of `_check_system_amount_consistency`.
unfoldable pub system_amounts : EvidenceBundle → List SourcedAmount
system_amounts e =
    one_or_none (ledger_amount e.wallet_ledger)
    ++ one_or_none (transaction_amount e.transaction)
    ++ one_or_none (bank_amount e.reconciliation_status)

abbrev pub has_amount : ℤ → SourcedAmount → Bool
has_amount first (amount, source) = eqb_ℤ amount first

abbrev pub all_equal_first : List SourcedAmount → Bool
all_equal_first [] = true
all_equal_first ((first, source) ∷ rest) = all (has_amount first) ((first, source) ∷ rest)

abbrev pub consistent : List SourcedAmount → Bool
consistent amounts = if leb (length amounts) 1 then true else all_equal_first amounts

-- `_check_system_amount_consistency`
unfoldable pub check_system_amount_consistency : EvidenceBundle → Bool
check_system_amount_consistency e = consistent (system_amounts e)

abbrev as_present : Option ℤ → Option (Option ℤ)
as_present none = none
as_present (some n) = some (some n)

-- `int(claimed)` where `claimed is not None`, else `None`
unfoldable pub claimed_int : ClaimEnv → ClaimValue → Option (Option ℤ)
claimed_int env (ClaimValue.word s) = as_present (env.int_of_text s)
claimed_int env (ClaimValue.number n) = some (some n)
claimed_int env ClaimValue.absent = some none

-- `claimed is not None and int(claimed) == amount`
unfoldable pub is_amount : Option ℤ → ℤ → Bool
is_amount none amount = false
is_amount (some n) amount = eqb_ℤ n amount

abbrev money : ℤ → String
money n = concat (show_grouped n ∷ "đ" ∷ [])

-- `claimed_display`
unfoldable pub claimed_display : Option ℤ → String
claimed_display none = "không rõ"
claimed_display (some n) = money n

unfoldable pub amount_verdict : Claim → SourcedAmount → Option (Option ℤ) → Option Claim
amount_verdict claim trusted none = none
amount_verdict claim (amount, source) (some claimed) = some (
    if is_amount claimed amount
    then with_trusted VerificationStatus.matched (ClaimValue.number amount) source
        (concat ("Số tiền khớp: " ∷ money amount ∷ " (từ " ∷ source ∷ ")." ∷ [])) claim
    else with_trusted VerificationStatus.mismatched (ClaimValue.number amount) source
        (concat (
          "Khách khai "
          ∷ claimed_display claimed
          ∷ " nhưng hệ thống ghi nhận "
          ∷ money amount
          ∷ " (từ "
          ∷ source
          ∷ ")."
          ∷ []))
        claim)

unfoldable pub amount_against : ClaimEnv → Claim → Option SourcedAmount → Option Claim
amount_against env claim none = some (
    with_status VerificationStatus.not_verifiable
      "Không tìm thấy số tiền trong hệ thống để đối chiếu." claim)
amount_against env claim (some trusted) =
    amount_verdict claim trusted (claimed_int env claim.normalized_value)

-- `_verify_transaction_amount_claim`
unfoldable pub verify_transaction_amount_claim : ClaimEnv → Claim → EvidenceBundle → Option Claim
verify_transaction_amount_claim env claim evidence =
    amount_against env claim (get_trusted_amount evidence)

-- `txn_pending`
abbrev pub is_pending : Option Transaction → Bool
is_pending none = false
is_pending (some t) = str_eq t.status "pending"

abbrev not_amount_note : String
not_amount_note = "Đây là số dư ví khách nhìn thấy, không phải số tiền giao dịch."

unfoldable pub balance_without_ledger : Claim → String → Bool → Claim
balance_without_ledger claim display txn_pending =
    if txn_pending
    then with_trusted VerificationStatus.matched (ClaimValue.word "wallet_not_credited")
        "transaction.status + wallet_ledger"
        (concat (
          "Khách phản ánh ví hiển thị " ∷ display
          ∷ ". Giao dịch đang pending, chưa có ledger credit cộng tiền cho ví. " ∷ not_amount_note
          ∷ []))
        claim
    else with_status VerificationStatus.not_verifiable
        (concat (
          "Khách phản ánh ví hiển thị " ∷ display ∷ ". Không tìm thấy dữ liệu ví để đối chiếu. "
          ∷ not_amount_note ∷ []))
        claim

unfoldable pub balance_with_ledger : Claim → Option ℤ → ℤ → Claim
balance_with_ledger claim claimed balance =
    if is_amount claimed balance
    then with_trusted VerificationStatus.matched (ClaimValue.number balance)
        "wallet_ledger.net_amount"
        (concat (
          "Số dư ví khách phản ánh khớp: "
          ∷ money balance
          ∷ " (từ wallet_ledger.net_amount). "
          ∷ not_amount_note
          ∷ []))
        claim
    else with_trusted VerificationStatus.mismatched (ClaimValue.number balance)
        "wallet_ledger.net_amount"
        (concat (
          "Khách phản ánh ví hiển thị "
          ∷ claimed_display claimed
          ∷ " — hệ thống ghi nhận net_amount = "
          ∷ money balance
          ∷ " (từ wallet_ledger.net_amount). Đây là số dư ví, không phải số tiền giao dịch."
          ∷ []))
        claim

unfoldable pub balance_verdict :
    Claim → Option WalletLedger → Bool → Option (Option ℤ) → Option Claim
balance_verdict claim ledger txn_pending none = none
balance_verdict claim none txn_pending (some claimed) =
    some (balance_without_ledger claim (claimed_display claimed) txn_pending)
balance_verdict claim (some w) txn_pending (some claimed) =
    some (balance_with_ledger claim claimed w.net_amount)

-- `_verify_wallet_balance_claim`
unfoldable pub verify_wallet_balance_claim : ClaimEnv → Claim → EvidenceBundle → Option Claim
verify_wallet_balance_claim env claim evidence =
    balance_verdict claim evidence.wallet_ledger (is_pending evidence.transaction)
      (claimed_int env claim.normalized_value)
