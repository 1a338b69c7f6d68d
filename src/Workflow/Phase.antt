-- ===== src/Workflow/Phase.antt =====
-- Every node leads from what holds at it to what holds at the next.
use back_office_fintech.Common.{
  String, Bool, true, false, Option, none, some, ◌≡◌, inl, inr, refl, ap, Option-cases, arith,
  str_eq, if◌then◌else◌,
}
use back_office_fintech.Schemas.Enums.{ActionType, action_type_of_value-value}
use back_office_fintech.Schemas.Evidence.{EvidenceBundle}
use back_office_fintech.Audit.{AuditLogger}
use back_office_fintech.Rules.Approval.{needs_approval}
use back_office_fintech.Rules.MerchantSettlement.{Calendar}
use back_office_fintech.Rules.TrainTicket.Decisions.{decide_train_ticket-approval}
use back_office_fintech.Rules.UtilityBill.Decisions.{decide_utility_bill-approval}
use back_office_fintech.Rules.WalletTopup.Decisions.{decide_wallet_topup-approval}
use back_office_fintech.Rules.FraudAccountLock.Decisions.{decide_fraud_account_lock-approval}
use back_office_fintech.Rules.MerchantSettlement.Decisions.{decide_merchant_settlement-approval}
use back_office_fintech.Graph.State.{AgentState, RuleDecision}
use back_office_fintech.Graph.Services.{Services}
use back_office_fintech.Graph.Edges.{Node, is_waiting_approval, next_node}
use back_office_fintech.Nodes.Conflicts.{
  bundle_of, detect_conflict, is_known_workflow, route_workflow, verify_state,
}
use back_office_fintech.Nodes.Decision.{
  apply_rules, decide, generate_response, recommend_action, rule_decision_of,
}
use back_office_fintech.Nodes.Approval.{approval_gate}
use back_office_fintech.Nodes.Draft.{create_draft}
use back_office_fintech.Nodes.Closing.{audit_and_close, manual_review, retry_or_dead_letter}
use back_office_fintech.Workflow.{NodeResult, exec}
use back_office_fintech.Workflow.Keeps.{
  Keeps, case_intake-Keeps, case_intake-named, extract_info-same_case,
  missing_info_handler-same_case, fetch_evidence-same_case, detect_with-same_case,
  detect_with-Keeps, extract_info-Keeps, fetch_evidence-Keeps, missing_info_handler-Keeps,
}
pub use back_office_fintech.Workflow.Invariant.{
  IsFresh, IsUndecided, HasId, IsOpen, IsDecided, IsRecommended, IsPaused, IsHarmlessDraft,
  IsReviewed, IsDropped, Outcome, Inv,
}

-- Only the conflict check raises, where the verification of the claims of its state does. Otherwise the
-- state that a node leaves meets the invariant of the node that follows.
abbrev pub Goes : Services → Node → AgentState → NodeResult → Type 0
Goes sv n s none = (n ≡ Node.detect_conflict) × (verify_state sv s ≡ none)
Goes sv n s (some (t, a)) = Inv (next_node n t) t

Keeps-IsUndecided : (s t : AgentState) → Keeps s t → IsUndecided s → IsUndecided t
Keeps-IsUndecided s t k u = ground arith

stays-IsOpen : (s t : AgentState) → Keeps s t → t.case_id ≡ s.case_id → IsOpen s → IsOpen t
stays-IsOpen s t k e u = record {
  undecided = Keeps-IsUndecided s t k u.undecided;
  named = rw e u.named;
}

-- The engine of a known workflow decides, and asks for the approval that its action needs.
abbrev pub DecidesWell : Option RuleDecision → Type 0
DecidesWell none = ⊥
DecidesWell (some r) =
    (a : ActionType) × (d : String) × (r ≡ rule_decision_of a d (needs_approval a))

well_made :
    (a : ActionType) (d : String) (b : Bool)
    → b ≡ needs_approval a
    → DecidesWell (some (rule_decision_of a d b))
well_made a d b h = (a, d, ap (rule_decision_of a d) h)

DecidesWell-cond :
    (b : Bool) (x y : Option RuleDecision)
    → DecidesWell x
    → (b ≡ false → DecidesWell y)
    → DecidesWell (if b then x else y)
DecidesWell-cond true x y p q = p
DecidesWell-cond false x y p q = q refl

-- For every known workflow the graph's rule node obtains a decision from the engine of that workflow,
-- and the approval flag that it stores is set exactly when the proposed action needs an approval.
pub decide-DecidesWell :
    (cal : Calendar) (w : Option String) (e : EvidenceBundle)
    → is_known_workflow w ≡ true
    → DecidesWell (decide cal w e)
unfolding decide
decide-DecidesWell cal none e h = absurd (ground arith)
decide-DecidesWell cal (some w) e h =
    DecidesWell-cond (str_eq w "train_ticket") _ _
      (well_made _ _ _
        (decide_train_ticket-approval e.wallet_ledger e.train_provider e.refund_status e))
      λ p1.
        DecidesWell-cond (str_eq w "utility_bill") _ _
          (well_made _ _ _
            (decide_utility_bill-approval e.wallet_ledger e.utility_provider e.refund_status e))
          λ p2.
            DecidesWell-cond (str_eq w "wallet_topup") _ _
              (well_made _ _ _
                (decide_wallet_topup-approval e.transaction e.reconciliation_status e))
              λ p3.
                DecidesWell-cond (str_eq w "fraud_account_lock") _ _
                  (well_made _ _ _
                    (decide_fraud_account_lock-approval e.account_status e.fraud_case e))
                  λ p4.
                    DecidesWell-cond (str_eq w "merchant_settlement_delay") _ _
                      (well_made _ _ _ (decide_merchant_settlement-approval cal e))
                      λ p5. absurd (ground arith)

module _ (sv : Services) (s : AgentState) (a : Option AuditLogger) where
  case_intake-Goes : IsUndecided s → Goes sv Node.case_intake s (exec sv Node.case_intake s a)
  unfolding exec next_node
  case_intake-Goes u = record {
    undecided = Keeps-IsUndecided s _ (case_intake-Keeps sv s a) u;
    named = case_intake-named sv s a;
  }

  extract_info-Goes : IsOpen s → Goes sv Node.extract_info s (exec sv Node.extract_info s a)
  unfolding exec next_node
  extract_info-Goes u =
      ground (arith, stays-IsOpen s _ (extract_info-Keeps sv s a) (extract_info-same_case sv s a) u)

  missing_info_handler-Goes :
      IsOpen s → Goes sv Node.missing_info_handler s (exec sv Node.missing_info_handler s a)
  unfolding exec next_node
  missing_info_handler-Goes u = ground (
    arith,
    stays-IsOpen s _ (missing_info_handler-Keeps sv s a) (missing_info_handler-same_case sv s a) u,
  )

  fetch_evidence-Goes : IsOpen s → Goes sv Node.fetch_evidence s (exec sv Node.fetch_evidence s a)
  unfolding exec next_node
  fetch_evidence-Goes u =
      ground
        (arith, stays-IsOpen s _ (fetch_evidence-Keeps sv s a) (fetch_evidence-same_case sv s a) u)

  detect_conflict-Goes :
      IsOpen s → Goes sv Node.detect_conflict s (exec sv Node.detect_conflict s a)
  unfolding exec next_node detect_conflict
  detect_conflict-Goes u = elim (Option-cases (verify_state sv s)) [
    | inl raised ↦ rw raised (refl, raised)
    | inr (v, e) ↦ rw e (
        ground
          (arith, stays-IsOpen s _ (detect_with-Keeps sv s a v) (detect_with-same_case sv s a v) u))
  ]

  route_workflow-Goes : IsOpen s → Goes sv Node.route_workflow s (exec sv Node.route_workflow s a)
  unfolding exec next_node route_workflow
  route_workflow-Goes u = ground arith

  retry_or_dead_letter-Goes :
      IsOpen s → Goes sv Node.retry_or_dead_letter s (exec sv Node.retry_or_dead_letter s a)
  unfolding exec next_node retry_or_dead_letter
  retry_or_dead_letter-Goes u = ground arith

  apply_rules-Goes :
      Inv Node.apply_rules s → Goes sv Node.apply_rules s (exec sv Node.apply_rules s a)
  unfolding exec next_node apply_rules
  apply_rules-Goes (u, k) =
      ground (arith, decide-DecidesWell sv.calendar s.selected_workflow (bundle_of s) k)

  generate_response-Goes :
      (b : Bool)
      → IsRecommended s b
      → Goes sv Node.generate_response s (exec sv Node.generate_response s a)
  unfolding exec next_node generate_response
  generate_response-Goes b h = ground arith

  create_draft-Goes :
      IsRecommended s false → Goes sv Node.create_draft s (exec sv Node.create_draft s a)
  unfolding exec next_node create_draft
  create_draft-Goes h = ground arith

  manual_review-Goes : IsOpen s → Goes sv Node.manual_review s (exec sv Node.manual_review s a)
  unfolding exec next_node manual_review
  manual_review-Goes u = ground arith

  audit_and_close-Goes :
      Outcome s (is_waiting_approval s.status)
      → Goes sv Node.audit_and_close s (exec sv Node.audit_and_close s a)
  unfolding exec next_node audit_and_close
  audit_and_close-Goes o = ground arith

  approval_gate-Goes :
      IsRecommended s true → Goes sv Node.approval_gate s (exec sv Node.approval_gate s a)
  unfolding exec next_node approval_gate
  approval_gate-Goes h = ground (arith, action_type_of_value-value (h.0).action_type)

  recommend_action-Goes :
      IsDecided s → Goes sv Node.recommend_action s (exec sv Node.recommend_action s a)
  unfolding exec next_node recommend_action
  recommend_action-Goes h = ground (arith, action_type_of_value-value h.0)

  end-Goes : Inv Node.end s → Goes sv Node.end s (exec sv Node.end s a)
  unfolding exec next_node
  end-Goes h = h

-- What holds at a node, holds at the next.
pub exec-Goes :
    (sv : Services) (n : Node) (s : AgentState) (a : Option AuditLogger)
    → Inv n s
    → Goes sv n s (exec sv n s a)
exec-Goes sv Node.case_intake s a h = case_intake-Goes sv s a h
exec-Goes sv Node.extract_info s a h = extract_info-Goes sv s a h
exec-Goes sv Node.missing_info_handler s a h = missing_info_handler-Goes sv s a h
exec-Goes sv Node.fetch_evidence s a h = fetch_evidence-Goes sv s a h
exec-Goes sv Node.retry_or_dead_letter s a h = retry_or_dead_letter-Goes sv s a h
exec-Goes sv Node.detect_conflict s a h = detect_conflict-Goes sv s a h
exec-Goes sv Node.route_workflow s a h = route_workflow-Goes sv s a h
exec-Goes sv Node.apply_rules s a h = apply_rules-Goes sv s a h
exec-Goes sv Node.recommend_action s a h = recommend_action-Goes sv s a h
exec-Goes sv Node.generate_response s a (b, h) = generate_response-Goes sv s a b h
exec-Goes sv Node.approval_gate s a h = approval_gate-Goes sv s a h
exec-Goes sv Node.create_draft s a h = create_draft-Goes sv s a h
exec-Goes sv Node.manual_review s a h = manual_review-Goes sv s a h
exec-Goes sv Node.audit_and_close s a h = audit_and_close-Goes sv s a h
exec-Goes sv Node.end s a h = end-Goes sv s a h
