-- ===== src/Rules/Conflict/Consistency.antt =====
-- What it means that the conflict rules find nothing.
use back_office_fintech.Common.{
  true, false, Option, none, some, String, [], ◌≡◌, ◌≢◌, ◌↔◌, ◌⊎◌, arith, str_eq_iff,
}
use back_office_fintech.Schemas.Enums.{ProviderStatusValue, RefundStatusValue}
use back_office_fintech.Schemas.Evidence.{
  EvidenceBundle, RefundStatus, TrainProviderStatus, Transaction, WalletLedger,
}
use back_office_fintech.Rules.Conflict.{
  check_ledger_vs_transaction, check_provider_success_but_no_ticket, check_refund_vs_ledger,
  check_user_ownership, detect_all_conflicts,
}

-- A debit in the ledger does not meet a transaction that is still pending.
abbrev pub LedgerAgrees : Option WalletLedger → Option Transaction → Type 0
LedgerAgrees none t = Unit
LedgerAgrees (some l) none = Unit
LedgerAgrees (some l) (some t) = (l.has_user_debit ≡ false) ⊎ (t.status ≢ "pending")

-- A provider that reports success has a ticket code.
abbrev pub TicketAgrees : Option TrainProviderStatus → Type 0
TicketAgrees none = Unit
TicketAgrees (some p) =
    (p.ticket_code ≢ none)
    ⊎ ((p.booking_status ≢ ProviderStatusValue.ticket_issued)
        × (p.booking_status ≢ ProviderStatusValue.confirmed))

-- An executed refund has its credit in the ledger.
abbrev pub RefundAgrees : Option RefundStatus → Option WalletLedger → Type 0
RefundAgrees none l = Unit
RefundAgrees (some r) none = Unit
RefundAgrees (some r) (some l) =
    (r.refund_status ≢ RefundStatusValue.executed) ⊎ (l.has_credit_refund ≡ true)

-- The transaction is of the user of the case, where the case names one.
abbrev pub OwnerAgrees : Option Transaction → Option String → Type 0
OwnerAgrees none u = Unit
OwnerAgrees (some t) none = Unit
OwnerAgrees (some t) (some u) = (u ≡ "") ⊎ (t.user_id ≡ u)

pub record IsConsistent (e : EvidenceBundle) (u : Option String) : Type 0 where
  pub ledger : LedgerAgrees e.wallet_ledger e.transaction
  pub ticket : TicketAgrees e.train_provider
  pub refund : RefundAgrees e.refund_status e.wallet_ledger
  pub owner : OwnerAgrees e.transaction u

abbrev status_text : Option Transaction → String
status_text none = ""
status_text (some t) = t.status

abbrev user_text : Option Transaction → String
user_text none = ""
user_text (some t) = t.user_id

abbrev id_text : Option String → String
id_text none = ""
id_text (some u) = u

IsConsistent-of_no_conflict :
    (e : EvidenceBundle) (u : Option String) → detect_all_conflicts e u ≡ [] → IsConsistent e u
unfolding detect_all_conflicts check_ledger_vs_transaction check_provider_success_but_no_ticket
    check_refund_vs_ledger check_user_ownership
IsConsistent-of_no_conflict e u h = ground (
  arith,
  str_eq_iff (status_text e.transaction) "pending",
  str_eq_iff (user_text e.transaction) (id_text u),
  str_eq_iff (id_text u) "",
)

no_conflict_of_consistent :
    (e : EvidenceBundle) (u : Option String) → IsConsistent e u → detect_all_conflicts e u ≡ []
unfolding detect_all_conflicts check_ledger_vs_transaction check_provider_success_but_no_ticket
    check_refund_vs_ledger check_user_ownership
no_conflict_of_consistent e u h = ground (
  arith,
  str_eq_iff (status_text e.transaction) "pending",
  str_eq_iff (user_text e.transaction) (id_text u),
  str_eq_iff (id_text u) "",
)

-- The conflict rules find nothing exactly when the sources agree: a debit does not meet a pending
-- transaction, a provider's success comes with a ticket code, an executed refund has its credit in
-- the ledger, and the transaction is of the user of the case, where the case names one.
pub detect_all_conflicts-nil_iff :
    (e : EvidenceBundle) (u : Option String) → (detect_all_conflicts e u ≡ []) ↔ IsConsistent e u
detect_all_conflicts-nil_iff e u = (IsConsistent-of_no_conflict e u, no_conflict_of_consistent e u)
