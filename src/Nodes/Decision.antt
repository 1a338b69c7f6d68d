-- ===== src/Nodes/Decision.antt =====
-- src/fintech_agent/nodes/rule_decision.py, recommendation.py and generate_response.py.
use back_office_fintech.Common.{ℕ, String, Bool, Option, none, some, [], ◌∷◌, ◌++◌, if◌then◌else◌}
use back_office_fintech.Common.Text.{concat, text_or_empty}
use back_office_fintech.Common.Value.{Value, fields_of}
use back_office_fintech.Schemas.Enums.{
  ActionType, AuditEventType, CaseStatus, action_type_value, action_type_of_value,
}
use back_office_fintech.Schemas.CaseState.{RecommendedAction}
use back_office_fintech.Schemas.Evidence.{EvidenceBundle, Transaction, WalletLedger}
use back_office_fintech.Audit.{AuditLogger, EventSpec, log_if, spec_of}
use back_office_fintech.Rules.Risk.{classify_risk}
use back_office_fintech.Rules.TrainTicket.{decide_train_ticket}
use back_office_fintech.Rules.UtilityBill.{decide_utility_bill}
use back_office_fintech.Rules.WalletTopup.{decide_wallet_topup}
use back_office_fintech.Rules.FraudAccountLock.{decide_fraud_account_lock}
use back_office_fintech.Rules.MerchantSettlement.{Calendar, decide_merchant_settlement}
use back_office_fintech.Graph.State.{AgentState, RuleDecision}
use back_office_fintech.Graph.Services.{Services}
use back_office_fintech.Nodes.Intake.{is_workflow}
use back_office_fintech.Nodes.Conflicts.{bundle_of}

-- What the graph keeps of a decision: `{"action": decision.action.value, ...}`.
abbrev pub rule_decision_of : ActionType → String → Bool → RuleDecision
rule_decision_of a d r = record {
  action = action_type_value a;
  diagnosis = d;
  approval_required = r;
}

train_rule : EvidenceBundle → RuleDecision
train_rule e =
    let d = decide_train_ticket e.wallet_ledger e.train_provider e.refund_status e in
    rule_decision_of d.action d.diagnosis d.approval_required

utility_rule : EvidenceBundle → RuleDecision
utility_rule e =
    let d = decide_utility_bill e.wallet_ledger e.utility_provider e.refund_status e in
    rule_decision_of d.action d.diagnosis d.approval_required

topup_rule : EvidenceBundle → RuleDecision
topup_rule e =
    let d = decide_wallet_topup e.transaction e.reconciliation_status e in
    rule_decision_of d.action d.diagnosis d.approval_required

fraud_rule : EvidenceBundle → RuleDecision
fraud_rule e =
    let d = decide_fraud_account_lock e.account_status e.fraud_case e in
    rule_decision_of d.action d.diagnosis d.approval_required

settlement_rule : Calendar → EvidenceBundle → RuleDecision
settlement_rule cal e =
    let d = decide_merchant_settlement cal e in
    rule_decision_of d.action d.diagnosis d.approval_required

-- The rule engine of a workflow, by its name; `none` is the last `else`.
unfoldable pub decide : Calendar → Option String → EvidenceBundle → Option RuleDecision
unfolding train_rule utility_rule topup_rule fraud_rule settlement_rule
decide cal w e =
    if is_workflow "train_ticket" w
    then some (train_rule e)
    else if is_workflow "utility_bill" w
    then some (utility_rule e)
    else if is_workflow "wallet_topup" w
    then some (topup_rule e)
    else if is_workflow "fraud_account_lock" w
    then some (fraud_rule e)
    else if is_workflow "merchant_settlement_delay" w
    then some (settlement_rule cal e)
    else none

-- `f"{workflow}"` of a missing workflow is "None".
abbrev workflow_text : Option String → String
workflow_text none = "None"
workflow_text (some w) = w

abbrev rule_spec : AgentState → RuleDecision → EventSpec
rule_spec s d = spec_of (text_or_empty s.case_id) AuditEventType.rule_applied (
    fields_of (
      ("workflow", Value.text (workflow_text s.selected_workflow))
      ∷ ("action", Value.text d.action)
      ∷ ("diagnosis", Value.text d.diagnosis)
      ∷ ("approval_required", Value.bool d.approval_required)
      ∷ []))

store_decision :
    Services
    → AgentState
    → Option AuditLogger
    → Option RuleDecision
    → AgentState × Option AuditLogger
store_decision services s audit none = (
  record s {
    status = some CaseStatus.manual_review;
    errors =
        s.errors
        ++ concat ("no rule engine for workflow=" ∷ workflow_text s.selected_workflow ∷ []) ∷ [];
  },
  audit,
)
store_decision services s audit (some d) =
    let (audit', ids) = log_if services.audit_env audit (rule_spec s d) s.audit_event_ids in
    (
      record s {
        rule_decision = some d;
        approval_required = d.approval_required;
        status = some CaseStatus.recommending;
        audit_event_ids = ids;
      },
      audit',
    )

unfoldable pub apply_rules :
    Services → AgentState → Option AuditLogger → AgentState × Option AuditLogger
unfolding store_decision
apply_rules services s audit =
    store_decision services s audit (decide services.calendar s.selected_workflow (bundle_of s))

abbrev ledger_amount : Option WalletLedger → ℕ
ledger_amount none = 0
ledger_amount (some l) = l.debit_amount

abbrev transaction_amount : Option Transaction → ℕ
transaction_amount none = 0
transaction_amount (some t) = t.amount

-- `evidence.wallet_ledger.debit_amount if evidence and evidence.wallet_ledger else 0`
abbrev pub debit_of : AgentState → ℕ
debit_of s = elim s.evidence_bundle [ none ↦ 0 | some e ↦ ledger_amount e.wallet_ledger ]

abbrev pub paid_of : AgentState → ℕ
paid_of s = elim s.evidence_bundle [ none ↦ 0 | some e ↦ transaction_amount e.transaction ]

unfoldable pub recommended_amount : AgentState → ℕ
recommended_amount s =
    if is_workflow "wallet_topup" s.selected_workflow then paid_of s else debit_of s

abbrev recommendation_of : AgentState → RuleDecision → ActionType → RecommendedAction
recommendation_of s d a = record {
  action_type = a;
  diagnosis = d.diagnosis;
  summary =
      concat ("Rule engine recommends: " ∷ action_type_value a ∷ " (" ∷ d.diagnosis ∷ ")" ∷ []);
  risk_level = classify_risk a (recommended_amount s);
  evidence_refs = [];
  approval_required = d.approval_required;
}

abbrev recommendation_spec : AgentState → RuleDecision → ActionType → EventSpec
recommendation_spec s d a = spec_of (text_or_empty s.case_id) AuditEventType.action_recommended (
    fields_of (
      ("action_type", Value.text (action_type_value a))
      ∷ ("diagnosis", Value.text d.diagnosis)
      ∷ ("approval_required", Value.bool d.approval_required)
      ∷ []))

recommend :
    Services
    → AgentState
    → RuleDecision
    → ActionType
    → Option AuditLogger
    → AgentState × Option AuditLogger
recommend services s d a audit =
    let (audit', ids) =
      log_if services.audit_env audit (recommendation_spec s d a) s.audit_event_ids in
    (
      record s {
        recommended_action = some (recommendation_of s d a);
        status =
            some (
              if d.approval_required
              then CaseStatus.waiting_approval
              else CaseStatus.draft_created);
        audit_event_ids = ids;
      },
      audit',
    )

recommend_for :
    Services
    → AgentState
    → Option RuleDecision
    → Option AuditLogger
    → Option (AgentState × Option AuditLogger)
unfolding recommend
recommend_for services s none audit = some (
  record s {
    status = some CaseStatus.manual_review;
    errors = s.errors ++ "no rule_decision available" ∷ [];
  },
  audit,
)
recommend_for services s (some d) audit = elim (action_type_of_value d.action) [
  | none ↦ none
  | some a ↦ some (recommend services s d a audit)
]

-- `none` is the `ValueError` of `ActionType(decision["action"])`.
unfoldable pub recommend_action :
    Services → AgentState → Option AuditLogger → Option (AgentState × Option AuditLogger)
unfolding recommend_for
recommend_action services s audit = recommend_for services s s.rule_decision audit

-- The response and the ticket are added; nothing else but the audit identifiers changes. The logged
-- details, which only describe the generated texts, are left out.
unfoldable pub generate_response :
    Services → AgentState → Option AuditLogger → AgentState × Option AuditLogger
generate_response services s audit =
    let generated = services.generate_case_response s in
    let ticket = services.build_resolution_ticket s generated in
    let spec : EventSpec = record {
      case_id = text_or_empty s.case_id;
      actor = "llm_response_generator";
      event_type = AuditEventType.response_generated;
      previous_status = none;
      new_status = none;
      correlation_id = none;
      details = fields_of [];
    } in
    let (audit', ids) = log_if services.audit_env audit spec s.audit_event_ids in
    (
      record s {
        generated_response = some generated;
        resolution_ticket = some ticket;
        audit_event_ids = ids;
      },
      audit',
    )
