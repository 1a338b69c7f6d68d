-- ===== src/Rules/FraudAccountLock/Decisions.antt =====
-- When the fraud lock engine proposes to unlock an account, and what its approval flag says.
use back_office_fintech.Common.{true, false, Option, none, some, [], ◌≡◌, ◌↔◌, arith}
use back_office_fintech.Common.Int.{pos, ◌<ℤ◌}
use back_office_fintech.Schemas.Enums.{ActionType}
use back_office_fintech.Schemas.Evidence.{AccountStatus, EvidenceBundle, FraudCase}
use back_office_fintech.Rules.Approval.{needs_approval}
use back_office_fintech.Rules.FraudAccountLock.{
  decide_fraud_account_lock, false_positive, fraud_likely, is_locked, score_of, signal_is_true,
}

-- A locked account whose fraud case has a score under 50 and none of the four dangerous signals.
pub record IsHarmless (c : FraudCase) : Type 0 where
  pub score : score_of c <ℤ pos 50
  pub blacklist : signal_is_true c.signals "blacklist_match" ≡ false
  pub inbound : signal_is_true c.signals "suspicious_inbound_funds" ≡ false
  pub promotion : signal_is_true c.signals "promotion_abuse" ≡ false
  pub velocity : signal_is_true c.signals "velocity_anomaly" ≡ false

abbrev pub IsLocked : Option AccountStatus → Type 0
IsLocked none = ⊥
IsLocked (some a) = is_locked a ≡ true

abbrev pub HasHarmlessCase : Option FraudCase → Type 0
HasHarmlessCase none = ⊥
HasHarmlessCase (some c) = IsHarmless c

pub record IsUnlockable (a : Option AccountStatus) (c : Option FraudCase) (e : EvidenceBundle)
    : Type 0 where
  pub locked : IsLocked a
  pub harmless : HasHarmlessCase c
  pub clean : e.conflicts ≡ []

-- No fraud case is both likely fraud and a false positive.
fraud_likely-not-false_positive : (c : FraudCase) → fraud_likely c ≡ true → false_positive c ≡ false
unfolding fraud_likely false_positive
fraud_likely-not-false_positive c h = ground arith

IsHarmless-of_false_positive : (c : FraudCase) → false_positive c ≡ true → IsHarmless c
unfolding false_positive
IsHarmless-of_false_positive c h = ground arith

false_positive_of_harmless :
    (c : FraudCase) → IsHarmless c → (false_positive c ≡ true) × (fraud_likely c ≡ false)
unfolding false_positive fraud_likely
false_positive_of_harmless c h = ground arith

unlock_needs :
    (a : Option AccountStatus) (c : Option FraudCase) (e : EvidenceBundle)
    → (decide_fraud_account_lock a c e).action ≡ ActionType.create_unlock_account_draft
    → IsUnlockable a c e
unfolding decide_fraud_account_lock
unlock_needs a none e h = ground arith
unlock_needs a (some c) e h = ground (arith, IsHarmless-of_false_positive c)

unlock_follows :
    (a : Option AccountStatus) (c : Option FraudCase) (e : EvidenceBundle)
    → IsUnlockable a c e
    → (decide_fraud_account_lock a c e).action ≡ ActionType.create_unlock_account_draft
unfolding decide_fraud_account_lock
unlock_follows a none e h = absurd h.harmless
unlock_follows a (some c) e h = ground (arith, false_positive_of_harmless c h.harmless)

-- The fraud engine proposes to unlock an account exactly when the account is locked, the risk score
-- is below 50, none of the four dangerous signals is set, and the evidence has no conflict.
pub decide_fraud_account_lock-unlock_iff :
    (a : Option AccountStatus) (c : Option FraudCase) (e : EvidenceBundle)
    → ((decide_fraud_account_lock a c e).action ≡ ActionType.create_unlock_account_draft)
      ↔ IsUnlockable a c e
decide_fraud_account_lock-unlock_iff a c e = (unlock_needs a c e, unlock_follows a c e)

-- In every branch the fraud lock engine asks for an approval exactly for the actions that need one.
pub decide_fraud_account_lock-approval :
    (a : Option AccountStatus) (c : Option FraudCase) (e : EvidenceBundle)
    → (decide_fraud_account_lock a c e).approval_required
      ≡ needs_approval (decide_fraud_account_lock a c e).action
unfolding decide_fraud_account_lock
decide_fraud_account_lock-approval a c e = ground arith
