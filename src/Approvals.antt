-- ===== src/Approvals.antt =====
-- src/fintech_agent/workflows/approval_service.py: the decision of a human on a paused case.
pub mod Decided
pub mod Lifecycle
pub mod Pending
use back_office_fintech.Common.{
  String, Bool, true, false, ◌||◌, Option, none, some, List, [], ◌∷◌, is_empty, if◌then◌else◌,
}
use back_office_fintech.Common.Text.{concat, text_or_empty}
use back_office_fintech.Common.Dict.{Dict, contains, erase, insert, lookup}
use back_office_fintech.Common.Value
use back_office_fintech.Common.Value.{Value, Fields, fields_of}
use back_office_fintech.Schemas.Enums.{
  ApprovalStatus, AuditEventType, CaseStatus, action_type_value, case_status_value,
}
use back_office_fintech.Schemas.CaseState.{ApprovalDecision, ApprovalPacket}
use back_office_fintech.Audit.{AuditLogger, EventSpec, log_if}
use back_office_fintech.Graph.State.{AgentState}
use back_office_fintech.Graph.Edges.{is_waiting_approval}
use back_office_fintech.Graph.Services.{Services}
use back_office_fintech.Nodes.Draft.{create_draft}
use back_office_fintech.Nodes.Closing.{audit_and_close}

pub record ApprovalService : Type 0 where
  pub pending : Dict AgentState
  pub decided : Dict AgentState
  pub audit : Option AuditLogger

-- The exceptions: the two `ValueError`s of `register_pending`, `CaseNotFoundError` and
-- `AlreadyDecidedError`, with what their messages show, and pydantic's where the case or the approver
-- of an `ApprovalDecision` is an empty text.
pub data ApprovalError : Type 0 where
  no_case_id : ApprovalError
  not_waiting : Option CaseStatus → ApprovalError
  case_not_found : String → ApprovalError
  already_decided : String → Option ApprovalStatus → ApprovalError
  invalid_decision : ApprovalError

pub data Outcome {ℓ} (A : Type ℓ) : Type ℓ where
  returned : A → Outcome A
  raised : ApprovalError → Outcome A

unfoldable pub register_pending : ApprovalService → AgentState → Outcome (ApprovalService × String)
register_pending service s =
    let case_id = text_or_empty s.case_id in
    if is_empty case_id
    then Outcome.raised ApprovalError.no_case_id
    else if is_waiting_approval s.status
    then Outcome.returned (record service { pending = insert case_id s service.pending }, case_id)
    else Outcome.raised (ApprovalError.not_waiting s.status)

unfoldable pub get_pending : ApprovalService → String → Outcome AgentState
get_pending service case_id = elim (lookup case_id service.decided) [
  | some s ↦ Outcome.raised (ApprovalError.already_decided case_id s.approval_status)
  | none ↦ elim (lookup case_id service.pending) [
    | none ↦ Outcome.raised (ApprovalError.case_not_found case_id)
    | some s ↦ Outcome.returned s
  ]
]

-- The construction of the `ApprovalDecision`, after `_get_pending`.
unfoldable pub checked : String → String → Outcome AgentState → Outcome AgentState
checked case_id approver (Outcome.raised e) = Outcome.raised e
checked case_id approver (Outcome.returned s) =
    if is_empty case_id || is_empty approver
    then Outcome.raised ApprovalError.invalid_decision
    else Outcome.returned s

-- `comment or ""`
abbrev comment_text : Option String → String
comment_text none = ""
comment_text (some c) = c

abbrev proposed_action_text : Option ApprovalPacket → String
proposed_action_text none = "unknown"
proposed_action_text (some p) = action_type_value p.proposed_action

abbrev human_spec : String → String → AuditEventType → CaseStatus → Fields → EventSpec
human_spec case_id approver t next d = record {
  case_id = case_id;
  actor = concat ("human:" ∷ approver ∷ []);
  event_type = t;
  previous_status = some (case_status_value CaseStatus.waiting_approval);
  new_status = some (case_status_value next);
  correlation_id = none;
  details = d;
}

abbrev approval_of : String → String → ApprovalStatus → Option String → ApprovalDecision
approval_of case_id approver status comment = record {
  case_id = case_id;
  approver = approver;
  status = status;
  comment = comment;
}

-- Phase 2: `create_draft`, then `audit_and_close`.
abbrev resume : Services → AgentState → Option AuditLogger → AgentState × Option AuditLogger
resume services s audit =
    let (s1, audit1) = create_draft services s audit in audit_and_close services s1 audit1

-- The decision of a case that `_get_pending` returns moves it:
-- `del self._pending[case_id]; self._decided[case_id] = state`.
unfoldable pub settle :
    ApprovalService
    → String
    → (AgentState → AgentState × Option AuditLogger)
    → Outcome AgentState
    → Outcome (ApprovalService × AgentState)
settle service case_id decision (Outcome.raised e) = Outcome.raised e
settle service case_id decision (Outcome.returned s) =
    let (t, audit) = decision s in
    Outcome.returned (
      record {
        pending = erase case_id service.pending;
        decided = insert case_id t service.decided;
        audit = audit;
      },
      t,
    )

unfoldable pub approve_state :
    Services
    → String
    → String
    → Option String
    → AgentState
    → Option AuditLogger
    → AgentState × Option AuditLogger
approve_state services case_id approver comment s audit =
    let (audit1, ids) =
      log_if services.audit_env audit
        (human_spec case_id approver AuditEventType.human_approved CaseStatus.draft_created (
          fields_of (
            ("comment", Value.text (comment_text comment))
            ∷ ("proposed_action", Value.text (proposed_action_text s.approval_packet))
            ∷ [])))
        s.audit_event_ids in
    resume services
      (record s {
        approval_decision = some (approval_of case_id approver ApprovalStatus.approved comment);
        approval_status = some ApprovalStatus.approved;
        audit_event_ids = ids;
      })
      audit1

unfoldable pub approve_case :
    Services
    → ApprovalService
    → String
    → String
    → Option String
    → Outcome (ApprovalService × AgentState)
unfolding settle
approve_case services service case_id approver comment =
    settle service case_id (λ s. approve_state services case_id approver comment s service.audit)
      (checked case_id approver (get_pending service case_id))

abbrev pub rejection_draft : String → Dict Value
rejection_draft reason =
    ("type", Value.text "rejected")
    ∷ ("reason", Value.text reason)
    ∷ ("status", Value.text "rejected")
    ∷ []

unfoldable pub reject_state :
    Services
    → String
    → String
    → String
    → AgentState
    → Option AuditLogger
    → AgentState × Option AuditLogger
reject_state services case_id approver reason s audit =
    let (audit1, ids) =
      log_if services.audit_env audit
        (human_spec case_id approver AuditEventType.human_rejected CaseStatus.closed
          (fields_of (("reason", Value.text reason) ∷ [])))
        s.audit_event_ids in
    let (s1, audit2) =
      audit_and_close services
        (record s {
          approval_decision =
              some (approval_of case_id approver ApprovalStatus.rejected (some reason));
          approval_status = some ApprovalStatus.rejected;
          draft_output = some (rejection_draft reason);
          audit_event_ids = ids;
          status = some CaseStatus.closed;
        })
        audit1 in
    (record s1 { status = some CaseStatus.closed }, audit2)

unfoldable pub reject_case :
    Services → ApprovalService → String → String → String → Outcome (ApprovalService × AgentState)
unfolding settle
reject_case services service case_id approver reason =
    settle service case_id (λ s. reject_state services case_id approver reason s service.audit)
      (checked case_id approver (get_pending service case_id))

unfoldable pub is_pending : ApprovalService → String → Bool
is_pending service case_id = contains case_id service.pending

unfoldable pub is_decided : ApprovalService → String → Bool
is_decided service case_id = contains case_id service.decided

-- `get_approval_packet`
unfoldable pub get_approval_packet : ApprovalService → String → Option ApprovalPacket
get_approval_packet service case_id = elim (lookup case_id service.pending) [
  | none ↦ none
  | some s ↦ s.approval_packet
]
