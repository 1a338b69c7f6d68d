-- ===== src/Claims/Errors.antt =====
-- When the verification of claims raises an exception.
use back_office_fintech.Common.{
  String, Bool, Option, none, some, List, [], ◌∷◌, ◌≡◌, ◌≢◌, ◌⊎◌, ◌↔◌, inl, inr, refl, sym, subst,
  arith,
}
use back_office_fintech.Common.Int.{ℤ}
use back_office_fintech.Schemas.Evidence.{EvidenceBundle, WalletLedger}
use back_office_fintech.Schemas.CaseState.{ExtractedInfo}
use back_office_fintech.Claims.{Claim, ClaimEnv, ClaimType, ClaimValue}
use back_office_fintech.Claims.Amounts.{
  SourcedAmount, amount_against, amount_verdict, balance_verdict, claimed_int, get_trusted_amount,
  is_pending, verify_transaction_amount_claim, verify_wallet_balance_claim,
}
use back_office_fintech.Claims.Account.{verifier_of}
use back_office_fintech.Claims.Synthesis.{claims_from_extracted_info}
use back_office_fintech.Claims.Summary.{
  cons_verified, summarise, verify_all_claims, verify_claims, verify_each,
}

-- The value is a text that is no number.
abbrev pub IsUnreadable : ClaimEnv → ClaimValue → Type 0
IsUnreadable env v = (s : String) × (v ≡ ClaimValue.word s) × (env.int_of_text s ≡ none)

-- A claim whose verifier calls `int` on such a text: one of an amount where the system knows one,
-- or one of the balance of the wallet.
abbrev pub Raises : ClaimEnv → EvidenceBundle → Claim → Type 0
Raises env e c =
    IsUnreadable env c.normalized_value
    × ((c.claim_type ≡ ClaimType.wallet_balance)
        ⊎ ((c.claim_type ≡ ClaimType.transaction_amount) × (get_trusted_amount e ≢ none)))

-- One of the claims raises.
abbrev pub OneRaises : ClaimEnv → EvidenceBundle → List Claim → Type 0
OneRaises env e [] = ⊥
OneRaises env e (c ∷ cs) = Raises env e c ⊎ OneRaises env e cs

claimed_int-none_iff :
    (env : ClaimEnv) (v : ClaimValue) → (claimed_int env v ≡ none) ↔ IsUnreadable env v
unfolding claimed_int
claimed_int-none_iff env (ClaimValue.number n) = (λ h. ground arith, λ (s, q, r). ground arith)
claimed_int-none_iff env ClaimValue.absent = (λ h. ground arith, λ (s, q, r). ground arith)
claimed_int-none_iff env (ClaimValue.word t) =
    (λ h. (t, refl, ground arith), λ (s, q, r). ground arith)

amount_verdict-none_iff :
    (c : Claim) (a : SourcedAmount) (k : Option (Option ℤ))
    → (amount_verdict c a k ≡ none) ↔ (k ≡ none)
unfolding amount_verdict
amount_verdict-none_iff c (n, s) none = (λ h. refl, λ h. refl)
amount_verdict-none_iff c (n, s) (some k) = (λ h. ground arith, λ h. ground arith)

balance_verdict-none_iff :
    (c : Claim) (w : Option WalletLedger) (pending : Bool) (k : Option (Option ℤ))
    → (balance_verdict c w pending k ≡ none) ↔ (k ≡ none)
unfolding balance_verdict
balance_verdict-none_iff c w pending none = (λ h. refl, λ h. refl)
balance_verdict-none_iff c none pending (some k) = (λ h. ground arith, λ h. ground arith)
balance_verdict-none_iff c (some w) pending (some k) = (λ h. ground arith, λ h. ground arith)

amount_against-none_iff :
    (env : ClaimEnv) (c : Claim) (t : Option SourcedAmount)
    → (amount_against env c t ≡ none) ↔ (IsUnreadable env c.normalized_value × (t ≢ none))
unfolding amount_against
amount_against-none_iff env c none = (λ h. ground arith, λ (u, known). ground (arith, known refl))
amount_against-none_iff env c (some a) =
    let verdict = amount_verdict-none_iff c a (claimed_int env c.normalized_value) in
    let read = claimed_int-none_iff env c.normalized_value in
    (λ h. (read.0 (verdict.0 h), λ q. ground arith), λ (u, known). verdict.1 (read.1 u))

plain-none_iff :
    (env : ClaimEnv) (e : EvidenceBundle) (c v : Claim)
    → c.claim_type ≢ ClaimType.wallet_balance
    → c.claim_type ≢ ClaimType.transaction_amount
    → (some v ≡ none) ↔ Raises env e c
plain-none_iff env e c v a b = (λ h. ground arith, λ r. ground (arith, a, b, r))

verifier_of-none_iff :
    (env : ClaimEnv) (e : EvidenceBundle) (c : Claim) (t : ClaimType)
    → c.claim_type ≡ t
    → (verifier_of env t c e ≡ none) ↔ Raises env e c
unfolding verifier_of verify_transaction_amount_claim verify_wallet_balance_claim
verifier_of-none_iff env e c ClaimType.transaction_amount h =
    let against = amount_against-none_iff env c (get_trusted_amount e) in
    (
      λ q. let (u, known) = against.0 q in (u, inr (h, known)),
      λ (u, w). elim w [ inl b ↦ ground arith | inr (a, known) ↦ against.1 (u, known) ],
    )
verifier_of-none_iff env e c ClaimType.wallet_balance h =
    let verdict =
      balance_verdict-none_iff c e.wallet_ledger (is_pending e.transaction)
        (claimed_int env c.normalized_value) in
    let read = claimed_int-none_iff env c.normalized_value in
    (λ q. (read.0 (verdict.0 q), inl h), λ (u, w). verdict.1 (read.1 u))
verifier_of-none_iff env e c ClaimType.transaction_id h =
    plain-none_iff env e c _ (λ w. ground arith) (λ w. ground arith)
verifier_of-none_iff env e c ClaimType.user_identity h =
    plain-none_iff env e c _ (λ w. ground arith) (λ w. ground arith)
verifier_of-none_iff env e c ClaimType.payment_status h =
    plain-none_iff env e c _ (λ w. ground arith) (λ w. ground arith)
verifier_of-none_iff env e c ClaimType.service_delivery h =
    plain-none_iff env e c _ (λ w. ground arith) (λ w. ground arith)
verifier_of-none_iff env e c ClaimType.provider_status h =
    plain-none_iff env e c _ (λ w. ground arith) (λ w. ground arith)
verifier_of-none_iff env e c ClaimType.bank_status h =
    plain-none_iff env e c _ (λ w. ground arith) (λ w. ground arith)
verifier_of-none_iff env e c ClaimType.refund_status h =
    plain-none_iff env e c _ (λ w. ground arith) (λ w. ground arith)
verifier_of-none_iff env e c ClaimType.account_status h =
    plain-none_iff env e c _ (λ w. ground arith) (λ w. ground arith)
verifier_of-none_iff env e c ClaimType.withdrawal_status h =
    plain-none_iff env e c _ (λ w. ground arith) (λ w. ground arith)
verifier_of-none_iff env e c ClaimType.customer_opinion h =
    plain-none_iff env e c _ (λ w. ground arith) (λ w. ground arith)
verifier_of-none_iff env e c ClaimType.time h =
    plain-none_iff env e c _ (λ w. ground arith) (λ w. ground arith)
verifier_of-none_iff env e c ClaimType.unknown h =
    plain-none_iff env e c _ (λ w. ground arith) (λ w. ground arith)

cons_verified-none_iff :
    {R S : Type 0} (v : Option Claim) (rest : Option (List Claim))
    → (v ≡ none) ↔ R
    → (rest ≡ none) ↔ S
    → (cons_verified v rest ≡ none) ↔ (R ⊎ S)
cons_verified-none_iff none rest r s = (λ h. inl (r.0 refl), λ h. refl)
cons_verified-none_iff (some c) none r s = (λ h. inr (s.0 refl), λ h. refl)
cons_verified-none_iff (some c) (some cs) r s = (
  λ h. ground arith,
  λ w. elim w [ inl a ↦ ground (arith, r.1 a) | inr b ↦ ground (arith, s.1 b) ],
)

verify_each-none_iff :
    (env : ClaimEnv) (e : EvidenceBundle) (cs : List Claim)
    → (verify_each env e cs ≡ none) ↔ OneRaises env e cs
unfolding verify_each
verify_each-none_iff env e [] = (λ h. ground arith, λ x. elim x [ ])
verify_each-none_iff env e (c ∷ cs) =
    cons_verified-none_iff (verifier_of env c.claim_type c e) (verify_each env e cs)
      (verifier_of-none_iff env e c c.claim_type refl) (verify_each-none_iff env e cs)

summarise-none_iff :
    (env : ClaimEnv) (e : EvidenceBundle) (verified : Option (List Claim))
    → (summarise env e verified ≡ none) ↔ (verified ≡ none)
unfolding summarise
summarise-none_iff env e none = (λ h. refl, λ h. refl)
summarise-none_iff env e (some ds) = (λ h. ground arith, λ h. ground arith)

-- Where the claims are taken from the extraction, the verification raises an exception exactly when
-- the value of one of them is a text that is no number, and it claims the balance of the wallet, or
-- an amount of which the system knows one.
pub verify_all_claims-none_iff :
    (env : ClaimEnv) (info : Option ExtractedInfo) (raw : String) (e : EvidenceBundle)
    (cs : List Claim)
    → claims_from_extracted_info env info raw ≡ some cs
    → (verify_all_claims env info raw e ≡ none) ↔ OneRaises env e cs
unfolding verify_all_claims verify_claims
verify_all_claims-none_iff env info raw e cs q =
    let each = verify_each-none_iff env e cs in
    let whole = summarise-none_iff env e (verify_each env e cs) in
    subst (λ o. (verify_claims env e o ≡ none) ↔ OneRaises env e cs) (sym q)
      (λ h. each.0 (whole.0 h), λ h. whole.1 (each.1 h))
