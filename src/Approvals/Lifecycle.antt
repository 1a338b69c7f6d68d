-- ===== src/Approvals/Lifecycle.antt =====
-- The two phases together: a run of the graph that waits, its registration, and its approval.
use back_office_fintech.Common.{
  String, true, false, Option, none, some, ◌≡◌, inl, inr, arith, is_empty,
}
use back_office_fintech.Common.Text.{text_or_empty}
use back_office_fintech.Common.Dict.{insert, lookup, lookup-insert_self}
use back_office_fintech.Schemas.Enums.{CaseStatus}
use back_office_fintech.Graph.State.{AgentState}
use back_office_fintech.Graph.Services.{Services}
use back_office_fintech.Workflow.{Config}
use back_office_fintech.Workflow.Phase.{IsPaused}
use back_office_fintech.Workflow.Phase as Phase
use back_office_fintech.Workflow.Outcomes.{IsSettled}
use back_office_fintech.Approvals.{ApprovalService, Outcome, approve_case, register_pending}
use back_office_fintech.Approvals.Decided.{Approves, approve_case-Approves}

pub register_pending-waiting :
    (service : ApprovalService) (s : AgentState)
    → s.status ≡ some CaseStatus.waiting_approval
    → is_empty (text_or_empty s.case_id) ≡ false
    → register_pending service s
      ≡ Outcome.returned (
        record service { pending = insert (text_or_empty s.case_id) s service.pending },
        text_or_empty s.case_id,
      )
unfolding register_pending
register_pending-waiting service s w i = ground arith

outcome-IsPaused : (s : AgentState) → Phase.Outcome s true → IsPaused s
outcome-IsPaused s (Phase.Outcome.paused e p) = p
outcome-IsPaused s (Phase.Outcome.drafted e p) = absurd (ground arith)
outcome-IsPaused s (Phase.Outcome.reviewed e p) = absurd (ground arith)
outcome-IsPaused s (Phase.Outcome.dropped e p) = absurd (ground arith)

pub waiting-IsPaused :
    (c : Config)
    → IsSettled c
    → c.state.status ≡ some CaseStatus.waiting_approval
    → IsPaused c.state
waiting-IsPaused c (e, inl (p, o)) w = outcome-IsPaused c.state o
waiting-IsPaused c (e, inr (p, o)) w = absurd (ground arith)

pub has_id : (s : AgentState) → IsPaused s → is_empty (text_or_empty s.case_id) ≡ false
has_id s h = ground arith

-- The two phases fit: a settled configuration, as every run from a state with nothing decided ends
-- in, whose case waits, was paused for an action that needs an approval; and where the case is not yet
-- decided, it can be registered, and approving it by a named approver then closes it.
pub settled-register-approve :
    (sv : Services) (c : Config) (service : ApprovalService) (who : String)
    (comment : Option String)
    → IsSettled c
    → c.state.status ≡ some CaseStatus.waiting_approval
    → is_empty who ≡ false
    → lookup (text_or_empty c.state.case_id) service.decided ≡ none
    → let id = text_or_empty c.state.case_id in
      let registered : ApprovalService = record service {
        pending = insert id c.state service.pending;
      } in
      IsPaused c.state
      × (register_pending service c.state ≡ Outcome.returned (registered, id))
      × Approves registered id who comment c.state (approve_case sv registered id who comment)
settled-register-approve sv c service who comment h w n d =
    let id = text_or_empty c.state.case_id in
    let i = has_id c.state (waiting-IsPaused c h w) in
    (
      waiting-IsPaused c h w,
      register_pending-waiting service c.state w i,
      approve_case-Approves sv _ id who comment c.state i n d
          (lookup-insert_self id c.state service.pending),
    )
