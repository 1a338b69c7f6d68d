-- ===== src/Claims/Actions.antt =====
-- The data for actions: the amount is the one that the sources report, and no claim changes it.
use back_office_fintech.Common.{
  String, Bool, true, false, not, Option, none, some, List, [], ◌≡◌, refl, sym, ap, subst, ◌∙◌,
  arith, str_eq, inl, inr, Bool-cases, Option-cases,
}
use back_office_fintech.Common.Int.{ℤ}
use back_office_fintech.Common.Text.{text_or_empty}
use back_office_fintech.Common.Dict.{Dict, insert, lookup, lookup-insert}
use back_office_fintech.Schemas.CaseState.{ExtractedInfo, is_truthy}
use back_office_fintech.Schemas.Evidence.{
  AccountStatus, EvidenceBundle, FraudCase, ReconciliationStatus, Transaction, WalletLedger,
}
use back_office_fintech.Claims.{Claim, ClaimEnv, ClaimValue, ClaimVerificationSummary}
use back_office_fintech.Claims.Amounts.{
  SourcedAmount, check_system_amount_consistency, get_trusted_amount,
}
use back_office_fintech.Claims.Sources.{
  Reports, check_system_amount_consistency_iff, get_trusted_amount-Reports, get_trusted_amount-some,
}
use back_office_fintech.Claims.Synthesis.{claims_from_extracted_info}
use back_office_fintech.Claims.Summary.{
  summarise, summary_of, verify_all_claims, verify_claims, verify_each,
}
use back_office_fintech.Claims.TrustedData.{
  build_trusted_data_for_action, flag, insert_flag, insert_number, insert_text, with_account,
  with_amount, with_fraud, with_ledger, with_reconciliation, with_transaction,
}

-- The amount in the data for actions.
unfoldable pub action_amount : Dict ClaimValue → Option ClaimValue
action_amount d = lookup "action_amount" d

-- Another key leaves the amount alone.
module _ (key : String) (h : str_eq key "action_amount" ≡ false) where
  past : (v : ClaimValue) (d : Dict ClaimValue) → action_amount (insert key v d) ≡ action_amount d
  unfolding action_amount
  past v d = rw (lookup-insert key "action_amount" v d, h) refl

  past_number :
      (n : Option ℤ) (d : Dict ClaimValue) → action_amount (insert_number key n d) ≡ action_amount d
  past_number none d = refl
  past_number (some n) d = past (ClaimValue.number n) d

  past_flag :
      (b : Option Bool) (d : Dict ClaimValue)
      → action_amount (insert_flag key b d) ≡ action_amount d
  past_flag none d = refl
  past_flag (some b) d = past (flag b) d

  past_text :
      (t : Option String) (d : Dict ClaimValue)
      → action_amount (insert_text key t d) ≡ action_amount d
  past_text t d = elim (Bool-cases (is_truthy t)) [
    | inl set ↦ rw set (past (ClaimValue.word (text_or_empty t)) d)
    | inr unset ↦ rw unset refl
  ]

amount_with_transaction :
    (t : Option Transaction) (d : Dict ClaimValue)
    → action_amount (with_transaction t d) ≡ action_amount d
unfolding with_transaction str_eq
amount_with_transaction none d = refl
amount_with_transaction (some t) d =
    past "service_type" refl _ _ ∙ past "user_id" refl _ _ ∙ past "transaction_id" refl _ _

amount_with_ledger :
    (w : Option WalletLedger) (d : Dict ClaimValue)
    → action_amount (with_ledger w d) ≡ action_amount d
unfolding with_ledger str_eq
amount_with_ledger none d = refl
amount_with_ledger (some w) d =
    past "has_credit_refund" refl _ _
    ∙ past "has_user_debit" refl _ _
    ∙ past "wallet_status" refl _ _

amount_with_reconciliation :
    (r : Option ReconciliationStatus) (d : Dict ClaimValue)
    → action_amount (with_reconciliation r d) ≡ action_amount d
unfolding with_reconciliation str_eq
amount_with_reconciliation none d = refl
amount_with_reconciliation (some r) d =
    past_text "bank_status" refl r.bank_status _ ∙ past_number "bank_amount" refl r.bank_amount d

amount_with_account :
    (a : Option AccountStatus) (d : Dict ClaimValue)
    → action_amount (with_account a d) ≡ action_amount d
unfolding with_account str_eq
amount_with_account none d = refl
amount_with_account (some a) d =
    past_text "lock_reason" refl a.lock_reason _
    ∙ past_flag "withdrawal_enabled" refl a.withdrawal_enabled _
    ∙ past "account_status" refl _ _
    ∙ past "user_id" refl _ _

amount_with_fraud :
    (f : Option FraudCase) (d : Dict ClaimValue) → action_amount (with_fraud f d) ≡ action_amount d
unfolding with_fraud str_eq
amount_with_fraud none d = refl
amount_with_fraud (some f) d =
    past_text "recommended_decision" refl f.recommended_decision _
    ∙ past_text "fraud_status" refl f.fraud_status _
    ∙ past_text "risk_level" refl f.risk_level _
    ∙ past_number "risk_score" refl f.risk_score d

-- The value of an amount with its source.
abbrev value_of : Option SourcedAmount → Option ClaimValue
value_of none = none
value_of (some (n, source)) = some (ClaimValue.number n)

amount_with_amount : (a : Option SourcedAmount) → action_amount (with_amount a []) ≡ value_of a
unfolding with_amount action_amount str_eq lookup insert
amount_with_amount none = refl
amount_with_amount (some (n, source)) = refl

trusted_amount :
    (e : EvidenceBundle)
    → action_amount (build_trusted_data_for_action e) ≡ value_of (get_trusted_amount e)
unfolding build_trusted_data_for_action
trusted_amount e =
    amount_with_fraud e.fraud_case _
    ∙ amount_with_account e.account_status _
    ∙ amount_with_reconciliation e.reconciliation_status _
    ∙ amount_with_ledger e.wallet_ledger _
    ∙ amount_with_transaction e.transaction _
    ∙ amount_with_amount (get_trusted_amount e)

-- What a summary says that depends on the evidence alone.
abbrev IsFromEvidence : EvidenceBundle → ClaimVerificationSummary → Type 0
IsFromEvidence e s =
    (s.trusted_data_used_for_action ≡ build_trusted_data_for_action e)
    × (s.has_system_evidence_conflict ≡ not (check_system_amount_consistency e))

verify_claims-IsFromEvidence :
    (env : ClaimEnv) (e : EvidenceBundle) (claims : Option (List Claim))
    (s : ClaimVerificationSummary)
    → verify_claims env e claims ≡ some s
    → IsFromEvidence e s
unfolding verify_claims summarise summary_of
verify_claims-IsFromEvidence env e none s h = ground arith
verify_claims-IsFromEvidence env e (some claims) s h =
    elim (Option-cases (verify_each env e claims)) [
      | inl raised ↦ ground arith
      | inr (verified, q) ↦ ground arith
    ]

-- The amount for actions: there is none exactly where no source reports one; it is one that a source
-- reports, and where there is no conflict, the one that all of them report.
abbrev pub IsReported : EvidenceBundle → Bool → Option ClaimValue → Type 0
IsReported e conflict none = (m : ℤ) → ¬ Reports e m
IsReported e conflict (some v) =
    (n : ℤ) × (v ≡ ClaimValue.number n)
    × Reports e n
    × ((m : ℤ) → conflict ≡ false → Reports e m → m ≡ n)

trusted-IsReported :
    (e : EvidenceBundle) (conflict : Bool) (a : Option SourcedAmount)
    → conflict ≡ not (check_system_amount_consistency e)
    → get_trusted_amount e ≡ a
    → IsReported e conflict (value_of a)
trusted-IsReported e conflict none c q = λ m r. get_trusted_amount-some e m r q
trusted-IsReported e conflict (some (n, source)) c q =
    let reported = get_trusted_amount-Reports e n source q in
    (
      n,
      refl,
      reported,
      λ m free r.
          let agreed : check_system_amount_consistency e ≡ true = ground (arith, c, free) in
          (check_system_amount_consistency_iff e).0 agreed m n r reported,
    )

action_amount_lem :
    (env : ClaimEnv) (info : Option ExtractedInfo) (raw : String) (e : EvidenceBundle)
    (s : ClaimVerificationSummary)
    → verify_all_claims env info raw e ≡ some s
    → (action_amount s.trusted_data_used_for_action ≡ value_of (get_trusted_amount e))
      × (s.has_system_evidence_conflict ≡ not (check_system_amount_consistency e))
unfolding verify_all_claims
action_amount_lem env info raw e s h =
    let (same, conflict) =
      verify_claims-IsFromEvidence env e (claims_from_extracted_info env info raw) s h in
    (ap action_amount same ∙ trusted_amount e, conflict)

-- The amount for actions in a summary of claims comes from the evidence alone: it is the same for every
-- other complaint and extraction about the same evidence; there is none where neither the ledger
-- nor the transaction nor the bank reports an amount; and otherwise it is one that a source reports,
-- which without a conflict of the sources is the amount of all that report one.
pub verify_all_claims-action_amount :
    (env : ClaimEnv) (info other : Option ExtractedInfo) (raw another : String) (e : EvidenceBundle)
    (s t : ClaimVerificationSummary)
    → verify_all_claims env info raw e ≡ some s
    → verify_all_claims env other another e ≡ some t
    → (action_amount s.trusted_data_used_for_action ≡ action_amount t.trusted_data_used_for_action)
      × IsReported e s.has_system_evidence_conflict (action_amount s.trusted_data_used_for_action)
verify_all_claims-action_amount env info other raw another e s t h k =
    let (amount, conflict) = action_amount_lem env info raw e s h in
    (
      amount ∙ sym (action_amount_lem env other another e t k).0,
      subst (IsReported e s.has_system_evidence_conflict) (sym amount) (
          trusted-IsReported e s.has_system_evidence_conflict (get_trusted_amount e) conflict refl),
    )
