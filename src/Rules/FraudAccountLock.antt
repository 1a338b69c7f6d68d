-- ===== src/Rules/FraudAccountLock.antt =====
-- src/fintech_agent/rules/fraud_account_lock_rules.py: the decision of the fraud lock workflow.
pub mod Decisions
use back_office_fintech.Common.{
  String, Bool, true, false, not, ◌&&◌, ◌||◌, Option, none, some, str_eq, if◌then◌else◌,
}
use back_office_fintech.Common.Int.{ℤ, pos, leb_ℤ, ltb_ℤ}
use back_office_fintech.Common.Dict.{Dict, lookup}
use back_office_fintech.Common.Value.{Value}
use back_office_fintech.Schemas.Enums.{ActionType}
use back_office_fintech.Schemas.Evidence.{AccountStatus, EvidenceBundle, FraudCase, has_conflicts}

pub record FraudAccountLockDecision : Type 0 where
  pub action : ActionType
  pub diagnosis : String
  pub approval_required : Bool

abbrev pub fraud_decision : ActionType → String → Bool → FraudAccountLockDecision
fraud_decision a d r = record { action = a; diagnosis = d; approval_required = r }

abbrev is_true_value : Option Value → Bool
is_true_value (some (Value.bool true)) = true
is_true_value _ = false

-- `signals.get(name, False) is True`: a value that is not the Boolean `True` does not count.
unfoldable pub signal_is_true : Dict Value → String → Bool
signal_is_true signals name = is_true_value (lookup name signals)

-- `fraud_case.risk_score or 0`
abbrev pub score_of : FraudCase → ℤ
score_of c = elim c.risk_score [ none ↦ pos 0 | some n ↦ n ]

unfoldable pub fraud_likely : FraudCase → Bool
fraud_likely c =
    leb_ℤ (pos 70) (score_of c)
    || signal_is_true c.signals "blacklist_match"
    || signal_is_true c.signals "suspicious_inbound_funds"
    || signal_is_true c.signals "promotion_abuse"
    || (signal_is_true c.signals "multiple_new_devices"
        && signal_is_true c.signals "velocity_anomaly")

unfoldable pub false_positive : FraudCase → Bool
false_positive c =
    ltb_ℤ (score_of c) (pos 50)
    && not (signal_is_true c.signals "blacklist_match")
    && not (signal_is_true c.signals "suspicious_inbound_funds")
    && not (signal_is_true c.signals "promotion_abuse")
    && not (signal_is_true c.signals "velocity_anomaly")

fraud_by_signals : FraudCase → FraudAccountLockDecision
fraud_by_signals fraud_case =
    if fraud_likely fraud_case
    then fraud_decision ActionType.create_request_documents_response_draft
        "suspicious_activity_keep_locked_request_documents" true
    else if false_positive fraud_case
    then fraud_decision ActionType.create_unlock_account_draft
        "likely_false_positive_unlock_candidate" true
    else fraud_decision ActionType.manual_review "fraud_review_inconclusive" true

abbrev pub is_locked : AccountStatus → Bool
is_locked a = elim a.account_status [ none ↦ false | some s ↦ str_eq s "locked" ]

fraud_with_evidence : Option AccountStatus → Option FraudCase → FraudAccountLockDecision
unfolding fraud_by_signals
fraud_with_evidence (some account_status) (some fraud_case) =
    if not (is_locked account_status)
    then fraud_decision ActionType.draft_customer_response "account_not_locked" false
    else fraud_by_signals fraud_case
fraud_with_evidence (some account_status) none =
    fraud_decision ActionType.manual_review "missing_account_or_fraud_evidence" true
fraud_with_evidence none fraud_case =
    fraud_decision ActionType.manual_review "missing_account_or_fraud_evidence" true

unfoldable pub decide_fraud_account_lock :
    Option AccountStatus → Option FraudCase → EvidenceBundle → FraudAccountLockDecision
unfolding fraud_with_evidence
decide_fraud_account_lock account_status fraud_case evidence =
    if has_conflicts evidence
    then fraud_decision ActionType.manual_review "conflict_detected" true
    else fraud_with_evidence account_status fraud_case
