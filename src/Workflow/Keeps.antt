-- ===== src/Workflow/Keeps.antt =====
-- What the nodes leave alone: the retry counters, and before a decision everything that is decided.
use Prim.Native.String.{count}
use text.Mathlib.TextLemmas.{length-append}
use back_office_fintech.Common.{
  Bool-cases, inl, inr, sym, ap, ◌∙◌, str_eq_iff, false, String, [], ◌∷◌, is_empty, Option, ◌≡◌,
  arith,
}
use back_office_fintech.Common.Text.{concat, text_or_empty}
use back_office_fintech.Audit.{AuditLogger}
use back_office_fintech.Graph.State.{AgentState}
use back_office_fintech.Graph.Services.{Services}
use back_office_fintech.Nodes.Intake.{or_else, case_intake, extract_info, missing_info_handler}
use back_office_fintech.Nodes.FetchEvidence.{
  fetch_evidence, fetch_fraud_evidence, fetch_merchant_evidence, fetch_transaction_evidence,
}
use back_office_fintech.Claims.{ClaimVerificationSummary}
use back_office_fintech.Nodes.Conflicts.{detect_with, route_workflow}

-- The retry counters and all that the decision, the approval and the draft write.
pub record Keeps (s t : AgentState) : Type 0 where
  pub retries : t.retry_count ≡ s.retry_count
  pub limit : t.max_retries ≡ s.max_retries
  pub decision : t.rule_decision ≡ s.rule_decision
  pub action : t.recommended_action ≡ s.recommended_action
  pub packet : t.approval_packet ≡ s.approval_packet
  pub verdict : t.approval_status ≡ s.approval_status
  pub required : t.approval_required ≡ s.approval_required
  pub draft : t.draft_output ≡ s.draft_output

module _ (sv : Services) (s : AgentState) (a : Option AuditLogger) where
  pub case_intake-Keeps : Keeps s (case_intake sv s a).0
  unfolding case_intake
  case_intake-Keeps = ground arith

  pub extract_info-Keeps : Keeps s (extract_info sv s a).0
  unfolding extract_info
  extract_info-Keeps = ground arith

  pub missing_info_handler-Keeps : Keeps s (missing_info_handler sv s a).0
  unfolding missing_info_handler
  missing_info_handler-Keeps = ground arith

  pub detect_with-Keeps : (v : ClaimVerificationSummary) → Keeps s (detect_with sv s a v).0
  unfolding detect_with
  detect_with-Keeps v = ground arith

  pub route_workflow-Keeps : Keeps s (route_workflow sv s a).0
  unfolding route_workflow
  route_workflow-Keeps = ground arith

  fetch_fraud_evidence-Keeps : Keeps s (fetch_fraud_evidence sv s a).0
  unfolding fetch_fraud_evidence
  fetch_fraud_evidence-Keeps = ground arith

  fetch_merchant_evidence-Keeps : Keeps s (fetch_merchant_evidence sv s a).0
  unfolding fetch_merchant_evidence
  fetch_merchant_evidence-Keeps = ground arith

  fetch_transaction_evidence-Keeps : Keeps s (fetch_transaction_evidence sv s a).0
  unfolding fetch_transaction_evidence
  fetch_transaction_evidence-Keeps = ground arith

  pub fetch_evidence-Keeps : Keeps s (fetch_evidence sv s a).0
  unfolding fetch_evidence
  fetch_evidence-Keeps = ground (
    arith, fetch_fraud_evidence-Keeps, fetch_merchant_evidence-Keeps,
    fetch_transaction_evidence-Keeps,
  )

prefixed : (x : String) → is_empty (concat ("CASE_" ∷ x ∷ [])) ≡ false
unfolding concat
prefixed x = elim (Bool-cases (is_empty (concat ("CASE_" ∷ x ∷ [])))) [
  | inl p ↦ absurd (
      omega (
        arith,
        sym (ap count ((str_eq_iff (concat ("CASE_" ∷ x ∷ [])) "").0 p))
            ∙ length-append "CASE_" (concat (x ∷ [])),
      ))
  | inr n ↦ n
]

or_else_named :
    (o : Option String) (y : String) → is_empty y ≡ false → is_empty (or_else o y) ≡ false
or_else_named o y h = ground arith

-- The identifier of the case, once `case_intake` has set it.
module _ (sv : Services) (s : AgentState) (a : Option AuditLogger) where
  pub case_intake-named : is_empty (text_or_empty (case_intake sv s a).0.case_id) ≡ false
  unfolding case_intake
  case_intake-named = or_else_named s.case_id _ (prefixed sv.new_case_id)

  pub extract_info-same_case : (extract_info sv s a).0.case_id ≡ s.case_id
  unfolding extract_info
  extract_info-same_case = ground arith

  pub missing_info_handler-same_case : (missing_info_handler sv s a).0.case_id ≡ s.case_id
  unfolding missing_info_handler
  missing_info_handler-same_case = ground arith

  pub detect_with-same_case :
      (v : ClaimVerificationSummary) → (detect_with sv s a v).0.case_id ≡ s.case_id
  unfolding detect_with
  detect_with-same_case v = ground arith

  fetch_fraud_evidence-same_case : (fetch_fraud_evidence sv s a).0.case_id ≡ s.case_id
  unfolding fetch_fraud_evidence
  fetch_fraud_evidence-same_case = ground arith

  fetch_merchant_evidence-same_case : (fetch_merchant_evidence sv s a).0.case_id ≡ s.case_id
  unfolding fetch_merchant_evidence
  fetch_merchant_evidence-same_case = ground arith

  fetch_transaction_evidence-same_case : (fetch_transaction_evidence sv s a).0.case_id ≡ s.case_id
  unfolding fetch_transaction_evidence
  fetch_transaction_evidence-same_case = ground arith

  pub fetch_evidence-same_case : (fetch_evidence sv s a).0.case_id ≡ s.case_id
  unfolding fetch_evidence
  fetch_evidence-same_case = ground (
    arith, fetch_fraud_evidence-same_case, fetch_merchant_evidence-same_case,
    fetch_transaction_evidence-same_case,
  )
