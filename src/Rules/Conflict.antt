-- ===== src/Rules/Conflict.antt =====
-- src/fintech_agent/rules/conflict_rules.py: contradictions between two trusted systems.
pub mod Consistency
use back_office_fintech.Common.{
  String, Bool, true, false, not, ◌&&◌, Option, none, some, List, [], ◌∷◌, ◌++◌, str_eq, is_none,
  is_empty, if◌then◌else◌,
}
use back_office_fintech.Common.Text.{concat, show_ℕ}
use back_office_fintech.Schemas.Enums.{
  ProviderStatusValue, RefundStatusValue, provider_status_value_value, refund_status_value_value,
}
use back_office_fintech.Schemas.Evidence.{
  EvidenceBundle, EvidenceConflict, RefundStatus, TrainProviderStatus, Transaction, WalletLedger,
}

-- `EvidenceConflict(...)` with the defaults of its last two fields.
abbrev conflict_of : String → String → String → String → String → String → EvidenceConflict
conflict_of a b f va vb text = record {
  source_a = a;
  source_b = b;
  field_name = f;
  value_a = va;
  value_b = vb;
  description = text;
  conflict_type = none;
  severity = "high";
}

unfoldable pub check_ledger_vs_transaction : WalletLedger → Transaction → List EvidenceConflict
check_ledger_vs_transaction ledger txn =
    if ledger.has_user_debit && str_eq txn.status "pending"
    then conflict_of "wallet_ledger" "transaction" "status"
        (concat ("debited (amount=" ∷ show_ℕ ledger.debit_amount ∷ ")" ∷ []))
        (concat ("status=" ∷ txn.status ∷ []))
        "Wallet ledger shows debit but transaction status is still pending. Data inconsistency — route to manual review."
      ∷ []
    else []

abbrev pub is_provider_success : ProviderStatusValue → Bool
is_provider_success ProviderStatusValue.ticket_issued = true
is_provider_success ProviderStatusValue.confirmed = true
is_provider_success _ = false

unfoldable pub check_provider_success_but_no_ticket : TrainProviderStatus → List EvidenceConflict
check_provider_success_but_no_ticket provider =
    if is_provider_success provider.booking_status && is_none provider.ticket_code
    then conflict_of "provider_status" "provider_status" "ticket_code"
        (concat ("booking_status=" ∷ provider_status_value_value provider.booking_status ∷ []))
        "ticket_code=null"
        "Provider reports success but ticket_code is null. Cannot verify service delivery — route to manual review."
      ∷ []
    else []

abbrev pub is_executed : RefundStatusValue → Bool
is_executed RefundStatusValue.executed = true
is_executed _ = false

unfoldable pub check_refund_vs_ledger : RefundStatus → WalletLedger → List EvidenceConflict
check_refund_vs_ledger refund ledger =
    if is_executed refund.refund_status && not ledger.has_credit_refund
    then conflict_of "refund_table" "wallet_ledger" "refund_credit"
        (concat ("refund_status=" ∷ refund_status_value_value refund.refund_status ∷ []))
        "has_credit_refund=false"
        "Refund table shows executed but wallet ledger has no refund credit. Money may not have been returned — route to manual review."
      ∷ []
    else []

unfoldable pub check_user_ownership : Transaction → String → List EvidenceConflict
check_user_ownership txn case_user_id =
    if not (str_eq txn.user_id case_user_id)
    then conflict_of "transaction" "case" "user_id"
        (concat ("transaction.user_id=" ∷ txn.user_id ∷ []))
        (concat ("case.user_id=" ∷ case_user_id ∷ []))
        "Transaction belongs to a different user than the complainant. Possible fraud or data error — route to manual review."
      ∷ []
    else []

-- A check of two pieces of evidence is made where both are there.
abbrev on_both {ℓ κ} :
    {A : Type ℓ} {B : Type κ}
    → (A → B → List EvidenceConflict)
    → Option A
    → Option B
    → List EvidenceConflict
on_both check (some a) (some b) = check a b
on_both check (some a) none = []
on_both check none b = []

abbrev on_one {ℓ} : {A : Type ℓ} → (A → List EvidenceConflict) → Option A → List EvidenceConflict
on_one check (some a) = check a
on_one check none = []

-- `if case_user_id`: an empty id counts as none.
abbrev pub nonempty_id : Option String → Option String
nonempty_id none = none
nonempty_id (some s) = if is_empty s then none else some s

unfoldable pub detect_all_conflicts : EvidenceBundle → Option String → List EvidenceConflict
detect_all_conflicts evidence case_user_id =
    on_both check_ledger_vs_transaction evidence.wallet_ledger evidence.transaction
    ++ (on_one check_provider_success_but_no_ticket evidence.train_provider
        ++ (on_both check_refund_vs_ledger evidence.refund_status evidence.wallet_ledger
            ++ on_both check_user_ownership evidence.transaction (nonempty_id case_user_id)))
