-- ===== src/Examples/Engines.antt =====
-- The theorems about the rule engines, applied to concrete evidence.
use back_office_fintech.Common.{true, false, none, some, [], ◌≡◌, refl, inl, str_eq, arith}
use back_office_fintech.Common.Int.{pos, ◌<ℤ◌}
use back_office_fintech.Common.Text.{lower}
use back_office_fintech.Common.Dict.{lookup}
use back_office_fintech.Common.Value.{Value}
use back_office_fintech.Schemas.Enums.{ActionType, ProviderStatusValue}
use back_office_fintech.Schemas.Evidence.{EvidenceBundle, empty_bundle}
use back_office_fintech.Rules.Idempotency.{is_duplicate_action}
use back_office_fintech.Rules.Refund.{full_refund_eligibility_check}
use back_office_fintech.Rules.Refund.Eligibility.{IsRefundable, full_refund_eligibility_check_iff}
use back_office_fintech.Rules.TrainTicket.{decide_train_ticket}
use back_office_fintech.Rules.TrainTicket.Decisions.{decide_train_ticket-refund_iff}
use back_office_fintech.Rules.UtilityBill.{decide_utility_bill}
use back_office_fintech.Rules.UtilityBill.Decisions.{decide_utility_bill-refund_iff}
use back_office_fintech.Rules.WalletTopup.{decide_wallet_topup}
use back_office_fintech.Rules.WalletTopup.Decisions.{IsForceable, decide_wallet_topup-force_iff}
use back_office_fintech.Rules.FraudAccountLock.{
  decide_fraud_account_lock, fraud_likely, signal_is_true,
}
use back_office_fintech.Rules.FraudAccountLock.Decisions.{
  IsUnlockable, decide_fraud_account_lock-unlock_iff,
}
use back_office_fintech.Rules.MerchantSettlement.{
  batch_failed, decide_merchant_settlement, is_bank_account_invalid,
}
use back_office_fintech.Rules.MerchantSettlement.Decisions.{
  IsPayable, decide_merchant_settlement-payout_iff,
}
use back_office_fintech.Rules.MerchantSettlement.Accounts.{
  IsAccepted, is_bank_account_invalid-none_iff,
}
use back_office_fintech.Rules.MerchantSettlement.Amounts.{detail, payout_amount_from_ledger}
use back_office_fintech.Rules.Conflict.{
  check_ledger_vs_transaction, check_user_ownership, detect_all_conflicts,
}
use back_office_fintech.Rules.Conflict.Consistency.{IsConsistent, detect_all_conflicts-nil_iff}
use back_office_fintech.Rules.Guarantees.{
  DiffersFromRisk, FollowsRisk, approval_required-vs-requires_approval,
  proposed_refund-not_duplicate,
}
use back_office_fintech.Examples.{
  sample_account, sample_bank_account, sample_calendar, sample_case, sample_ledger,
  sample_reconciliation, sample_settlement, sample_train, sample_transaction, sample_utility,
}

train-IsRefundable :
    IsRefundable (some sample_ledger) (some ProviderStatusValue.ticket_not_issued) none empty_bundle
train-IsRefundable = record {
  debited = refl;
  undelivered = inl refl;
  open_refund = tt;
  clean = refl;
}

full_refund_eligibility_check_iff_example :
    (full_refund_eligibility_check
      (some sample_ledger)
      (some ProviderStatusValue.ticket_not_issued)
      none
      empty_bundle).eligible
    ≡ true
full_refund_eligibility_check_iff_example =
    (full_refund_eligibility_check_iff (some sample_ledger)
        (some ProviderStatusValue.ticket_not_issued) none empty_bundle).1
      train-IsRefundable

train_refund :
    (decide_train_ticket (some sample_ledger) (some sample_train) none empty_bundle).action
    ≡ ActionType.create_refund_request_draft
unfolding decide_train_ticket full_refund_eligibility_check
train_refund = refl

decide_train_ticket-refund_iff_example :
    (decide_train_ticket (some sample_ledger) (some sample_train) none empty_bundle).action
    ≡ ActionType.create_refund_request_draft
decide_train_ticket-refund_iff_example =
    (decide_train_ticket-refund_iff (some sample_ledger) (some sample_train) none empty_bundle).1
      train-IsRefundable

decide_utility_bill-refund_iff_example :
    (decide_utility_bill (some sample_ledger) (some sample_utility) none empty_bundle).action
    ≡ ActionType.create_refund_request_draft
decide_utility_bill-refund_iff_example =
    (decide_utility_bill-refund_iff (some sample_ledger) (some sample_utility) none empty_bundle).1
      (record { debited = refl; has_failed = refl; open_refund = tt; clean = refl })

topup-IsForceable :
    IsForceable (some (sample_transaction "U1" "pending")) (some sample_reconciliation) empty_bundle
unfolding lower
topup-IsForceable = record { pending = refl; arrived = (refl, refl); clean = refl }

decide_wallet_topup-force_iff_example :
    (decide_wallet_topup
      (some (sample_transaction "U1" "pending"))
      (some sample_reconciliation)
      empty_bundle).action
    ≡ ActionType.create_force_success_draft
decide_wallet_topup-force_iff_example =
    (decide_wallet_topup-force_iff (some (sample_transaction "U1" "pending"))
        (some sample_reconciliation) empty_bundle).1
      topup-IsForceable

account-IsUnlockable : IsUnlockable (some sample_account) (some (sample_case 10)) empty_bundle
unfolding str_eq signal_is_true lookup
account-IsUnlockable = record {
  locked = refl;
  harmless = record {
    score = ground arith;
    blacklist = refl;
    inbound = refl;
    promotion = refl;
    velocity = refl;
  };
  clean = refl;
}

decide_fraud_account_lock-unlock_iff_example :
    (decide_fraud_account_lock (some sample_account) (some (sample_case 10)) empty_bundle).action
    ≡ ActionType.create_unlock_account_draft
decide_fraud_account_lock-unlock_iff_example =
    (decide_fraud_account_lock-unlock_iff (some sample_account) (some (sample_case 10))
        empty_bundle).1
      account-IsUnlockable

likely_fraud : fraud_likely (sample_case 90) ≡ true
unfolding fraud_likely
likely_fraud = refl

payout_due :
    (decide_merchant_settlement sample_calendar sample_settlement).action
    ≡ ActionType.create_manual_payout_draft
unfolding decide_merchant_settlement str_eq lower is_bank_account_invalid batch_failed
payout_due = refl

decide_merchant_settlement-payout_iff_example : IsPayable sample_calendar sample_settlement
decide_merchant_settlement-payout_iff_example =
    (decide_merchant_settlement-payout_iff sample_calendar sample_settlement).0 payout_due

payout_amount_from_ledger_example :
    (detail "amount" (decide_merchant_settlement sample_calendar sample_settlement).details
      ≡ some (Value.num (pos 900)))
    × (pos 0 <ℤ pos 900)
    × (detail "draft_only" (decide_merchant_settlement sample_calendar sample_settlement).details
        ≡ some (Value.bool true))
payout_amount_from_ledger_example =
    payout_amount_from_ledger sample_calendar sample_settlement payout_due

account_valid : is_bank_account_invalid sample_bank_account ≡ none
unfolding is_bank_account_invalid str_eq lower
account_valid = refl

is_bank_account_invalid-none_iff_example : IsAccepted sample_bank_account
is_bank_account_invalid-none_iff_example =
    (is_bank_account_invalid-none_iff sample_bank_account).0 account_valid

abbrev sample_evidence : EvidenceBundle
sample_evidence = record empty_bundle {
  transaction = some (sample_transaction "U1" "success");
  wallet_ledger = some sample_ledger;
}

no_conflicts : detect_all_conflicts sample_evidence (some "U1") ≡ []
unfolding detect_all_conflicts str_eq check_ledger_vs_transaction check_user_ownership
no_conflicts = refl

detect_all_conflicts-nil_iff_example : IsConsistent sample_evidence (some "U1")
detect_all_conflicts-nil_iff_example =
    (detect_all_conflicts-nil_iff sample_evidence (some "U1")).0 no_conflicts

proposed_refund-not_duplicate_example :
    is_duplicate_action "T1" ActionType.create_refund_request_draft 250 none ≡ false
proposed_refund-not_duplicate_example =
    proposed_refund-not_duplicate (some sample_ledger) (some sample_train) none none empty_bundle
      "T1" 250 (inl train_refund)

approval_required-vs-requires_approval_example :
    let train =
      decide_train_ticket (some sample_ledger) (some sample_train) none sample_settlement in
    let utility =
      decide_utility_bill (some sample_ledger) (some sample_utility) none sample_settlement in
    let topup = decide_wallet_topup none none sample_settlement in
    let fraud = decide_fraud_account_lock none none sample_settlement in
    FollowsRisk train.action train.approval_required
    × FollowsRisk utility.action utility.approval_required
    × FollowsRisk topup.action topup.approval_required
    × FollowsRisk fraud.action fraud.approval_required
    × DiffersFromRisk
        (decide_merchant_settlement sample_calendar sample_settlement).action
        (decide_merchant_settlement sample_calendar sample_settlement).approval_required
approval_required-vs-requires_approval_example =
    approval_required-vs-requires_approval sample_calendar (some sample_ledger) (some sample_train)
      (some sample_utility) none none none none none sample_settlement
