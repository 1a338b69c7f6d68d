-- ===== src/Verifier/Verdicts.antt =====
-- When the verifier says that an issue exists, and when it says that claims contradict the evidence.
use back_office_fintech.Common.{
  String, Bool, true, false, ◌||◌, Option, none, some, List, [], ◌∷◌, ◌≡◌, ◌⊎◌, ◌↔◌, inl, inr, refl,
  sym, ap, subst, ◌∙◌, arith, str_eq, str_eq_iff, is_one_of, Bool-cases,
}
use back_office_fintech.Common.Int.{ℤ}
use back_office_fintech.Common.Value.{Value}
use back_office_fintech.Common.Dict.{lookup}
use back_office_fintech.Common.Text.{concat, text_or_empty}
use back_office_fintech.Schemas.CaseState.{is_truthy}
use back_office_fintech.Registry.{WorkflowRegistry, get}
use back_office_fintech.Verifier.{Parsed, VerifierEnv}
use back_office_fintech.Verifier.CustomerClaims.{CustomerClaims, value_or_null}
use back_office_fintech.Verifier.Contradictions.{
  Contradiction, cleaned_amount, contradictions_of, detect_contradictions, normalize_amount,
}
use back_office_fintech.Verifier.Account.{
  ResolutionResult, Session, VerificationResult, assemble, assemble_if, assemble_with, base_status,
  evidence_of, map_issue_status, resolved_with, status_from_base, supports, unresolved,
  verify_account_issue,
}

abbrev pub issue_statuses : List String
issue_statuses = "verified_issue_found" ∷ "contradiction" ∷ []

abbrev pub found_statuses : List String
found_statuses = "resolved" ∷ "multiple_candidates" ∷ "amount_mismatch" ∷ []

abbrev says_issue : String → Bool → Bool → Bool
says_issue s c d = is_one_of (map_issue_status s c d) issue_statuses

resolved_says : (c d : Bool) → says_issue "resolved" c d ≡ true
unfolding map_issue_status status_from_base base_status lookup str_eq
resolved_says true d = refl
resolved_says false d = refl

candidates_say : (c d : Bool) → says_issue "multiple_candidates" c d ≡ true
unfolding map_issue_status status_from_base base_status lookup str_eq
candidates_say true d = refl
candidates_say false d = refl

mismatch_says : (c d : Bool) → says_issue "amount_mismatch" c d ≡ true
unfolding map_issue_status status_from_base base_status lookup str_eq
mismatch_says true d = refl
mismatch_says false d = refl

no_match_silent : (d : Bool) → is_one_of (status_from_base "no_match" d) issue_statuses ≡ false
unfolding status_from_base str_eq
no_match_silent true = refl
no_match_silent false = refl

insufficient_silent :
    (d : Bool) → is_one_of (status_from_base "insufficient_evidence" d) issue_statuses ≡ false
unfolding status_from_base str_eq
insufficient_silent true = refl
insufficient_silent false = refl

base_of_other :
    (s : String)
    → str_eq s "resolved" ≡ false
    → str_eq s "multiple_candidates" ≡ false
    → str_eq s "amount_mismatch" ≡ false
    → (base_status s ≡ "no_match") ⊎ (base_status s ≡ "insufficient_evidence")
unfolding base_status lookup
base_of_other s h k m = ground (
  arith,
  h,
  k,
  m,
  str_eq_iff s "resolved",
  str_eq_iff s "multiple_candidates",
  str_eq_iff s "amount_mismatch",
  str_eq_iff "resolved" s,
  str_eq_iff "multiple_candidates" s,
  str_eq_iff "amount_mismatch" s,
)

other_silent :
    (s : String) (c d : Bool) → is_one_of s found_statuses ≡ false → says_issue s c d ≡ false
unfolding map_issue_status
other_silent s c d h =
    let a : str_eq s "resolved" ≡ false = ground (arith, h) in
    let b : str_eq s "multiple_candidates" ≡ false = ground (arith, h) in
    let m : str_eq s "amount_mismatch" ≡ false = ground (arith, h) in
    let silent : is_one_of (status_from_base (base_status s) d) issue_statuses ≡ false =
      elim (base_of_other s a b m) [
        | inl q ↦ rw q (no_match_silent d)
        | inr q ↦ rw q (insufficient_silent d)
      ] in
    ground (arith, silent, a, m)

found_says : (s : String) (c d : Bool) → is_one_of s found_statuses ≡ true → says_issue s c d ≡ true
found_says s c d h = elim (Bool-cases (str_eq s "resolved")) [
  | inl q ↦
      subst (λ t. says_issue t c d ≡ true) (sym ((str_eq_iff s "resolved").0 q)) (resolved_says c d)
  | inr p ↦ elim (Bool-cases (str_eq s "multiple_candidates")) [
    | inl q ↦
        subst (λ t. says_issue t c d ≡ true) (sym ((str_eq_iff s "multiple_candidates").0 q))
          (candidates_say c d)
    | inr r ↦
        let q : str_eq s "amount_mismatch" ≡ true = ground (arith, h, p, r) in
        subst (λ t. says_issue t c d ≡ true) (sym ((str_eq_iff s "amount_mismatch").0 q))
          (mismatch_says c d)
  ]
]

says_issue_lem : (s : String) (c d : Bool) → says_issue s c d ≡ is_one_of s found_statuses
says_issue_lem s c d = elim (Bool-cases (is_one_of s found_statuses)) [
  | inl found ↦ found_says s c d found ∙ sym found
  | inr other ↦ other_silent s c d other ∙ sym other
]

-- The session names a user or a merchant, and its subject may file such a complaint.
abbrev pub IsAdmitted : WorkflowRegistry → String → Option Session → Type 0
IsAdmitted registry workflow none = ⊥
IsAdmitted registry workflow (some session) =
    ((is_truthy session.user_id || is_truthy session.merchant_id) ≡ true)
    × (supports (get registry workflow) (text_or_empty session.subject_type) ≡ true)

assemble-issue_exists :
    (workflow : String) (claims : CustomerClaims) (r : ResolutionResult)
    (o : Option (List Contradiction)) (v : VerificationResult)
    → assemble_if workflow claims r o ≡ some v
    → v.issue_exists ≡ is_one_of r.resolution_status found_statuses
unfolding assemble_with
assemble-issue_exists workflow claims r none v h = absurd (ground arith)
assemble-issue_exists workflow claims r (some cs) v h =
    let same : assemble_with workflow claims r cs ≡ v = ground (arith, h) in
    subst (λ x. x.issue_exists ≡ is_one_of r.resolution_status found_statuses) same
      (says_issue_lem r.resolution_status _ _)

-- The customer's claim of an amount is a text that is an infinite number.
abbrev pub Overflows : VerifierEnv → CustomerClaims → Type 0
Overflows env claims =
    (s : String) × (lookup "amount" claims.latest ≡ some (Value.text s))
    × (env.number_of_text (cleaned_amount s) ≡ Parsed.overflow_error)

normalize_amount-none_iff :
    (env : VerifierEnv) (claims : CustomerClaims) (o : Option Value)
    → lookup "amount" claims.latest ≡ o
    → (normalize_amount env (value_or_null o) ≡ none) ↔ Overflows env claims
unfolding normalize_amount
normalize_amount-none_iff env claims none q = (λ h. ground arith, λ (s, p, r). ground (arith, p, q))
normalize_amount-none_iff env claims (some (Value.text t)) q =
    (λ h. (t, q, ground (arith, h)), λ (s, p, r). ground (arith, p, q, r))
normalize_amount-none_iff env claims (some Value.null) q =
    (λ h. ground arith, λ (s, p, r). ground (arith, p, q))
normalize_amount-none_iff env claims (some (Value.num n)) q =
    (λ h. ground arith, λ (s, p, r). ground (arith, p, q))
normalize_amount-none_iff env claims (some (Value.bool b)) q =
    (λ h. ground arith, λ (s, p, r). ground (arith, p, q))
normalize_amount-none_iff env claims (some (Value.dict f)) q =
    (λ h. ground arith, λ (s, p, r). ground (arith, p, q))
normalize_amount-none_iff env claims (some (Value.list e)) q =
    (λ h. ground arith, λ (s, p, r). ground (arith, p, q))

contradictions_of-none_iff :
    (env : VerifierEnv) (workflow : String) (claims : CustomerClaims) (r : ResolutionResult)
    (a : Option (Option ℤ))
    → (assemble_if workflow claims r (contradictions_of env claims (evidence_of r) a) ≡ none)
      ↔ (a ≡ none)
contradictions_of-none_iff env workflow claims r none = (λ h. refl, λ h. refl)
contradictions_of-none_iff env workflow claims r (some a) = (λ h. ground arith, λ h. ground arith)

assemble-none_iff :
    (env : VerifierEnv) (workflow : String) (claims : CustomerClaims) (r : ResolutionResult)
    → (assemble env workflow claims r ≡ none) ↔ Overflows env claims
unfolding assemble detect_contradictions
assemble-none_iff env workflow claims r =
    let amount = normalize_amount env (value_or_null (lookup "amount" claims.latest)) in
    let raised = contradictions_of-none_iff env workflow claims r amount in
    let read = normalize_amount-none_iff env claims _ refl in
    (λ h. read.0 (raised.0 h), λ h. raised.1 (read.1 h))

-- The resolver has found one transaction, several, or one with another amount.
abbrev pub HasFound : Option ResolutionResult → Type 0
HasFound none = ⊥
HasFound (some r) = is_one_of r.resolution_status found_statuses ≡ true

-- The resolver has answered, whatever its answer is.
abbrev pub HasAnswered : Option ResolutionResult → Type 0
HasAnswered none = ⊥
HasAnswered (some r) = Unit

-- What the verifier answers: an exception only for an admitted session, an answer of the resolver and an
-- infinite amount; otherwise whether an issue exists.
abbrev pub Judges :
    VerifierEnv
    → WorkflowRegistry
    → Option Session
    → String
    → CustomerClaims
    → Option ResolutionResult
    → Option VerificationResult
    → Type 0
Judges env registry session workflow claims resolution none =
    IsAdmitted registry workflow session × HasAnswered resolution × Overflows env claims
Judges env registry session workflow claims resolution (some v) =
    (v.issue_exists ≡ true) ↔ (IsAdmitted registry workflow session × HasFound resolution)

resolved_with-Judges :
    (env : VerifierEnv) (registry : WorkflowRegistry) (session : Option Session) (workflow : String)
    (claims : CustomerClaims) (resolution : Option ResolutionResult) (o : Option VerificationResult)
    → IsAdmitted registry workflow session
    → resolved_with env workflow claims resolution ≡ o
    → Judges env registry session workflow claims resolution o
unfolding assemble
resolved_with-Judges env registry session workflow claims none none a h = absurd (ground (arith, h))
resolved_with-Judges env registry session workflow claims none (some v) a h =
    let same : unresolved workflow true "insufficient_evidence" claims ("message_analysis" ∷ [])
        ≡ v =
      ground (arith, h) in
    (λ e. absurd (ground (arith, ap (λ x. x.issue_exists) same, e)), λ (b, f). absurd f)
resolved_with-Judges env registry session workflow claims (some r) none a h =
    (a, tt, (assemble-none_iff env workflow claims r).0 h)
resolved_with-Judges env registry session workflow claims (some r) (some v) a h =
    let exists = assemble-issue_exists workflow claims r _ v h in
    (λ e. (a, sym exists ∙ e), λ (b, f). exists ∙ f)

refused-Judges :
    (env : VerifierEnv) (registry : WorkflowRegistry) (session : Option Session) (workflow : String)
    (claims : CustomerClaims) (resolution : Option ResolutionResult) (identity : Bool)
    (status : String) (missing : List String)
    → ¬ IsAdmitted registry workflow session
    → Judges env registry session workflow claims resolution
        (some (unresolved workflow identity status claims missing))
refused-Judges env registry session workflow claims resolution identity status missing refused =
    (λ h. absurd (ground arith), λ (a, f). absurd (refused a))

-- The verifier says that an issue exists exactly when the session is one of a known user or merchant
-- whose kind the workflow admits, the message was analysed, and the resolver has found one
-- transaction, several, or one with another amount: the status of the transaction, the issue rules of
-- the workflow, the customer's claims and their contradictions with the evidence have no part in it.
-- Only where the session is admitted, the message was analysed and the customer has claimed an
-- infinite amount does it raise an exception instead.
pub verify_account_issue-exists_iff :
    (env : VerifierEnv) (registry : WorkflowRegistry) (session : Option Session) (workflow : String)
    (claims : CustomerClaims) (resolution : Option ResolutionResult)
    → Judges env registry session workflow claims resolution
        (verify_account_issue env registry session workflow claims resolution)
unfolding verify_account_issue
verify_account_issue-exists_iff env registry none workflow claims resolution =
    refused-Judges env registry none workflow claims resolution false "no_match" [] (λ a. a)
verify_account_issue-exists_iff env registry (some session) workflow claims resolution =
    elim (Bool-cases (is_truthy session.user_id || is_truthy session.merchant_id)) [
      | inr unknown ↦ rw unknown (
          refused-Judges env registry (some session) workflow claims resolution false "no_match" []
            (λ (k, s). ground (arith, k, unknown)))
      | inl known ↦
          elim (Bool-cases
            (supports (get registry workflow) (text_or_empty session.subject_type))) [
              | inr other ↦
                  rw (known, other)
                    (refused-Judges env registry (some session) workflow claims resolution true
                      "no_match"
                      (concat (
                          "subject_type_"
                          ∷ text_or_empty session.subject_type
                          ∷ "_not_supported"
                          ∷ [])
                        ∷ [])
                      (λ (k, s). ground (arith, s, other)))
              | inl supported ↦
                  rw (known, supported)
                    (resolved_with-Judges env registry (some session) workflow claims resolution _
                      (known, supported) refl)
            ]
    ]
