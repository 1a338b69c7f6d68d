-- ===== src/Examples/Runs.antt =====
-- The theorems about the graph and the approval service, applied to a case with a train ticket.
use back_office_fintech.Common.{
  true, false, none, some, ◌≡◌, refl, inl, is_nonempty, is_empty, str_eq,
}
use back_office_fintech.Common.Dict.{insert, lookup}
use back_office_fintech.Schemas.Evidence.{empty_bundle}
use back_office_fintech.Audit.{new_logger}
use back_office_fintech.Rules.Conflict.{check_user_ownership, detect_all_conflicts}
use back_office_fintech.Graph.State.{AgentState, empty_state}
use back_office_fintech.Graph.Edges.{Node}
use back_office_fintech.Nodes.Conflicts.{bundle_of}
use back_office_fintech.Workflow.{Config, run, start}
use back_office_fintech.Workflow.Phase.{IsUndecided, IsPaused}
use back_office_fintech.Nodes.Conflicts.{is_known_workflow}
use back_office_fintech.Nodes.Decision.{decide}
use back_office_fintech.Workflow.Phase.{DecidesWell, decide-DecidesWell}
use back_office_fintech.Workflow.Outcomes.{
  IsLeftToReview, IsSettled, Settles, conflict-IsLeftToReview, run-start-Settles,
}
use back_office_fintech.Approvals.{ApprovalService, Outcome, approve_case, register_pending}
use back_office_fintech.Approvals.Decided.{Approves}
use back_office_fintech.Approvals.Lifecycle.{settled-register-approve}
use back_office_fintech.Approvals.Pending.{new_service}
use back_office_fintech.Workflow.Phase as Phase
use back_office_fintech.Examples.{
  refund_action, refund_packet, sample_calendar, sample_services, sample_settlement, sample_start,
  sample_transaction, waiting_state,
}

start-IsUndecided : IsUndecided sample_start
start-IsUndecided = record {
  fresh = record { action = refl; packet = refl; verdict = refl; draft = refl };
  decision = refl;
  required = refl;
}

run-start-Settles_example :
    let c = start sample_start (some new_logger) in
    Settles sample_services 19 c (run sample_services 19 c)
run-start-Settles_example =
    run-start-Settles sample_services sample_start (some new_logger) start-IsUndecided

abbrev conflicting_state : AgentState
conflicting_state = record empty_state {
  user_id = some "U2";
  evidence_bundle =
      some (record empty_bundle { transaction = some (sample_transaction "U1" "success") });
}

has_conflict :
    is_nonempty (detect_all_conflicts (bundle_of conflicting_state) conflicting_state.user_id)
    ≡ true
unfolding detect_all_conflicts check_user_ownership str_eq
has_conflict = refl

conflict-IsLeftToReview_example : IsLeftToReview sample_services conflicting_state (
    run sample_services 3
      (record { node = Node.detect_conflict; state = conflicting_state; audit = none }))
conflict-IsLeftToReview_example =
    conflict-IsLeftToReview sample_services conflicting_state none has_conflict

abbrev pub waiting_config : Config
waiting_config = record { node = Node.end; state = waiting_state "CASE-1"; audit = none }

has_id : is_empty "CASE-1" ≡ false
unfolding str_eq
has_id = refl

pub waiting-IsSettled : IsSettled waiting_config
waiting-IsSettled = (
  refl,
  inl (
    refl,
    Phase.Outcome.paused refl
        (refund_action, refl, refl, refund_packet "CASE-1", refl, refl, refl, refl, refl, has_id),
  ),
)

pub has_approver : is_empty "A1" ≡ false
unfolding str_eq
has_approver = refl

none_decided : lookup "CASE-1" (new_service (some new_logger)).decided ≡ none
unfolding lookup
none_decided = refl

settled-register-approve_example :
    let service = new_service (some new_logger) in
    let registered : ApprovalService = record service {
      pending = insert "CASE-1" (waiting_state "CASE-1") service.pending;
    } in
    IsPaused (waiting_state "CASE-1")
    × (register_pending service (waiting_state "CASE-1") ≡ Outcome.returned (registered, "CASE-1"))
    × Approves registered "CASE-1" "A1"
        (some "ok")
        (waiting_state "CASE-1")
        (approve_case sample_services registered "CASE-1" "A1" (some "ok"))
settled-register-approve_example =
    settled-register-approve sample_services waiting_config (new_service (some new_logger)) "A1"
      (some "ok") waiting-IsSettled refl has_approver none_decided

known_settlement : is_known_workflow (some "merchant_settlement_delay") ≡ true
unfolding str_eq
known_settlement = refl

decide-DecidesWell_example :
    DecidesWell (decide sample_calendar (some "merchant_settlement_delay") sample_settlement)
decide-DecidesWell_example =
    decide-DecidesWell sample_calendar (some "merchant_settlement_delay") sample_settlement
      known_settlement
