-- ===== src/Rules/WalletTopup/Decisions.antt =====
-- When the top-up engine proposes to force a transaction through, and its approval flag.
use back_office_fintech.Common.{true, Option, none, some, [], ◌≡◌, ◌↔◌, arith, String, str_eq_iff}
use back_office_fintech.Common.Text.{lower, text_or_empty}
use back_office_fintech.Schemas.Enums.{ActionType}
use back_office_fintech.Schemas.Evidence.{EvidenceBundle, ReconciliationStatus, Transaction}
use back_office_fintech.Rules.Approval.{needs_approval}
use back_office_fintech.Rules.WalletTopup.{decide_wallet_topup}

abbrev pub IsPending : Option Transaction → Type 0
IsPending none = ⊥
IsPending (some t) = t.status ≡ "pending"

-- The bank reports success and the money has reached the master wallet.
abbrev pub HasMoneyArrived : Option ReconciliationStatus → Type 0
HasMoneyArrived none = ⊥
HasMoneyArrived (some c) =
    (lower (text_or_empty c.bank_status) ≡ "success")
    × (c.money_received_in_master_wallet ≡ some true)

pub record IsForceable (t : Option Transaction) (c : Option ReconciliationStatus)
    (e : EvidenceBundle) : Type 0 where
  pub pending : IsPending t
  pub arrived : HasMoneyArrived c
  pub clean : e.conflicts ≡ []

abbrev bank_text : Option ReconciliationStatus → String
bank_text none = ""
bank_text (some c) = lower (text_or_empty c.bank_status)

abbrev status_text : Option Transaction → String
status_text none = ""
status_text (some t) = t.status

force_needs :
    (t : Option Transaction) (c : Option ReconciliationStatus) (e : EvidenceBundle)
    → (decide_wallet_topup t c e).action ≡ ActionType.create_force_success_draft
    → IsForceable t c e
unfolding decide_wallet_topup
force_needs t c e h =
    ground (arith, str_eq_iff (status_text t) "pending", str_eq_iff (bank_text c) "success")

force_follows :
    (t : Option Transaction) (c : Option ReconciliationStatus) (e : EvidenceBundle)
    → IsForceable t c e
    → (decide_wallet_topup t c e).action ≡ ActionType.create_force_success_draft
unfolding decide_wallet_topup
force_follows t c e h =
    ground (arith, str_eq_iff (status_text t) "pending", str_eq_iff (bank_text c) "success")

-- The top-up engine proposes to force a transaction through exactly when the transaction is pending,
-- the bank reports success, the money has reached the master wallet, and nothing conflicts.
pub decide_wallet_topup-force_iff :
    (t : Option Transaction) (c : Option ReconciliationStatus) (e : EvidenceBundle)
    → ((decide_wallet_topup t c e).action ≡ ActionType.create_force_success_draft)
      ↔ IsForceable t c e
decide_wallet_topup-force_iff t c e = (force_needs t c e, force_follows t c e)

-- In every branch the top-up engine asks for an approval exactly for the actions that need one.
pub decide_wallet_topup-approval :
    (t : Option Transaction) (c : Option ReconciliationStatus) (e : EvidenceBundle)
    → (decide_wallet_topup t c e).approval_required
      ≡ needs_approval (decide_wallet_topup t c e).action
unfolding decide_wallet_topup
decide_wallet_topup-approval t c e = ground arith
