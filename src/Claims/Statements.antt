-- ===== src/Claims/Statements.antt =====
-- Verification fills in the verdict and keeps what the customer stated.
use back_office_fintech.Common.{Bool, Option, none, some, ◌≡◌, refl, arith}
use back_office_fintech.Common.Int.{ℤ}
use back_office_fintech.Schemas.Evidence.{
  AccountStatus, EvidenceBundle, ReconciliationStatus, RefundStatus, TrainProviderStatus,
  Transaction, UtilityProviderStatus, WalletLedger,
}
use back_office_fintech.Claims.{Claim, ClaimEnv, ClaimType, with_status, with_trusted}
use back_office_fintech.Claims.Amounts.{
  SourcedAmount, amount_against, amount_verdict, balance_verdict, balance_with_ledger,
  balance_without_ledger, claimed_int, get_trusted_amount, is_pending,
  verify_transaction_amount_claim, verify_wallet_balance_claim,
}
use back_office_fintech.Claims.Verifiers.{
  bank_verdict, default_verifier, delivery_verdict, payment_verdict, refund_verdict,
  transaction_id_verdict, verify_bank_status_claim, verify_payment_status_claim,
  verify_provider_status_claim, verify_refund_status_claim, verify_service_delivery_claim,
  verify_transaction_id_claim,
}
use back_office_fintech.Claims.Account.{
  account_verdict, customer_says_blocked, identity_by_transaction, identity_not_found,
  identity_verdict, verifier_of, verify_account_status_claim, verify_customer_opinion_claim,
  verify_user_identity_claim, verify_withdrawal_status_claim, withdrawal_enabled_verdict,
  withdrawal_known, withdrawal_verdict,
}

-- Two claims state the same.
abbrev pub SameStatement : Claim → Claim → Type 0
SameStatement c d =
    (d.claim_id ≡ c.claim_id)
    × (d.claim_type ≡ c.claim_type)
    × (d.raw_text ≡ c.raw_text)
    × (d.customer_claimed_value ≡ c.customer_claimed_value)
    × (d.normalized_value ≡ c.normalized_value)
    × (d.unit ≡ c.unit)

abbrev pub KeepsStatement : Claim → Option Claim → Type 0
KeepsStatement c o = (d : Claim) → o ≡ some d → SameStatement c d

amount_verdict-KeepsStatement :
    (c : Claim) (a : SourcedAmount) (k : Option (Option ℤ))
    → KeepsStatement c (amount_verdict c a k)
unfolding amount_verdict with_trusted
amount_verdict-KeepsStatement c (n, s) none d h = ground arith
amount_verdict-KeepsStatement c (n, s) (some k) d h = ground arith

amount_against-KeepsStatement :
    (env : ClaimEnv) (c : Claim) (t : Option SourcedAmount)
    → KeepsStatement c (amount_against env c t)
unfolding amount_against with_status
amount_against-KeepsStatement env c none d h = ground arith
amount_against-KeepsStatement env c (some a) d h =
    amount_verdict-KeepsStatement c a (claimed_int env c.normalized_value) d h

balance_verdict-KeepsStatement :
    (c : Claim) (w : Option WalletLedger) (pending : Bool) (k : Option (Option ℤ))
    → KeepsStatement c (balance_verdict c w pending k)
unfolding balance_verdict balance_with_ledger balance_without_ledger with_status with_trusted
balance_verdict-KeepsStatement c w pending none d h = ground arith
balance_verdict-KeepsStatement c none pending (some k) d h = ground arith
balance_verdict-KeepsStatement c (some w) pending (some k) d h = ground arith

transaction_id_verdict-SameStatement :
    (c : Claim) (t : Option Transaction) → SameStatement c (transaction_id_verdict c t)
unfolding transaction_id_verdict with_status with_trusted
transaction_id_verdict-SameStatement c none = ground arith
transaction_id_verdict-SameStatement c (some t) = ground arith

payment_verdict-SameStatement :
    (c : Claim) (w : Option WalletLedger) (t : Option Transaction)
    → SameStatement c (payment_verdict c w t)
unfolding payment_verdict with_status with_trusted
payment_verdict-SameStatement c none none = ground arith
payment_verdict-SameStatement c none (some t) = ground arith
payment_verdict-SameStatement c (some w) t = ground arith

delivery_verdict-SameStatement :
    (c : Claim) (p : Option TrainProviderStatus) (u : Option UtilityProviderStatus)
    → SameStatement c (delivery_verdict c p u)
unfolding delivery_verdict with_status with_trusted
delivery_verdict-SameStatement c none none = ground arith
delivery_verdict-SameStatement c none (some u) = ground arith
delivery_verdict-SameStatement c (some p) u = ground arith

bank_verdict-SameStatement :
    (c : Claim) (r : Option ReconciliationStatus) → SameStatement c (bank_verdict c r)
unfolding bank_verdict with_status with_trusted
bank_verdict-SameStatement c none = ground arith
bank_verdict-SameStatement c (some r) = ground arith

refund_verdict-SameStatement :
    (c : Claim) (r : Option RefundStatus) → SameStatement c (refund_verdict c r)
unfolding refund_verdict with_status with_trusted
refund_verdict-SameStatement c none = ground arith
refund_verdict-SameStatement c (some r) = ground arith

account_verdict-SameStatement :
    (c : Claim) (a : Option AccountStatus) → SameStatement c (account_verdict c a)
unfolding account_verdict with_status with_trusted
account_verdict-SameStatement c none = ground arith
account_verdict-SameStatement c (some a) = ground arith

identity_by_transaction-SameStatement :
    (c : Claim) (t : Option Transaction) → SameStatement c (identity_by_transaction c t)
unfolding identity_by_transaction identity_not_found with_status with_trusted
identity_by_transaction-SameStatement c none = ground arith
identity_by_transaction-SameStatement c (some t) = ground arith

identity_verdict-SameStatement :
    (c : Claim) (a : Option AccountStatus) (t : Option Transaction)
    → SameStatement c (identity_verdict c a t)
unfolding identity_verdict with_trusted
identity_verdict-SameStatement c none t = identity_by_transaction-SameStatement c t
identity_verdict-SameStatement c (some a) t =
    ground (arith, identity_by_transaction-SameStatement c t)

withdrawal_verdict-SameStatement :
    (c : Claim) (says_blocked : Bool) (a : Option AccountStatus)
    → SameStatement c (withdrawal_verdict c says_blocked a)
unfolding withdrawal_verdict withdrawal_enabled_verdict withdrawal_known with_status with_trusted
withdrawal_verdict-SameStatement c says_blocked none = ground arith
withdrawal_verdict-SameStatement c says_blocked (some a) = ground arith

-- A verifier that does not raise.
total-KeepsStatement : (c v : Claim) → SameStatement c v → KeepsStatement c (some v)
total-KeepsStatement c v h d q = ground (arith, h)

-- Whatever the type of a claim, its verification keeps the identifier, the type, the text, the
-- customer's value, its normal form and the unit.
pub verifier_of-KeepsStatement :
    (env : ClaimEnv) (t : ClaimType) (c : Claim) (e : EvidenceBundle)
    → KeepsStatement c (verifier_of env t c e)
unfolding verifier_of verify_transaction_amount_claim verify_wallet_balance_claim
    verify_withdrawal_status_claim verify_customer_opinion_claim default_verifier with_status
    verify_transaction_id_claim verify_payment_status_claim verify_service_delivery_claim
    verify_provider_status_claim verify_bank_status_claim verify_refund_status_claim
    verify_account_status_claim verify_user_identity_claim
verifier_of-KeepsStatement env ClaimType.transaction_amount c e =
    amount_against-KeepsStatement env c (get_trusted_amount e)
verifier_of-KeepsStatement env ClaimType.wallet_balance c e =
    balance_verdict-KeepsStatement c e.wallet_ledger (is_pending e.transaction)
      (claimed_int env c.normalized_value)
verifier_of-KeepsStatement env ClaimType.transaction_id c e =
    total-KeepsStatement c _ (transaction_id_verdict-SameStatement c e.transaction)
verifier_of-KeepsStatement env ClaimType.payment_status c e =
    total-KeepsStatement c _ (payment_verdict-SameStatement c e.wallet_ledger e.transaction)
verifier_of-KeepsStatement env ClaimType.service_delivery c e =
    total-KeepsStatement c _ (delivery_verdict-SameStatement c e.train_provider e.utility_provider)
verifier_of-KeepsStatement env ClaimType.provider_status c e =
    total-KeepsStatement c _ (delivery_verdict-SameStatement c e.train_provider e.utility_provider)
verifier_of-KeepsStatement env ClaimType.bank_status c e =
    total-KeepsStatement c _ (bank_verdict-SameStatement c e.reconciliation_status)
verifier_of-KeepsStatement env ClaimType.refund_status c e =
    total-KeepsStatement c _ (refund_verdict-SameStatement c e.refund_status)
verifier_of-KeepsStatement env ClaimType.account_status c e =
    total-KeepsStatement c _ (account_verdict-SameStatement c e.account_status)
verifier_of-KeepsStatement env ClaimType.user_identity c e =
    total-KeepsStatement c _ (identity_verdict-SameStatement c e.account_status e.transaction)
verifier_of-KeepsStatement env ClaimType.withdrawal_status c e =
    total-KeepsStatement c _
      (withdrawal_verdict-SameStatement c (customer_says_blocked env c) e.account_status)
verifier_of-KeepsStatement env ClaimType.customer_opinion c e =
    total-KeepsStatement c _ (refl, refl, refl, refl, refl, refl)
verifier_of-KeepsStatement env ClaimType.time c e =
    total-KeepsStatement c _ (refl, refl, refl, refl, refl, refl)
verifier_of-KeepsStatement env ClaimType.unknown c e =
    total-KeepsStatement c _ (refl, refl, refl, refl, refl, refl)
