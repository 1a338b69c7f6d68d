-- ===== src/Examples/Cases.antt =====
-- The theorems on the case service, applied.
use back_office_fintech.Common.{none, some, [], ◌≡◌, refl, str_eq}
use back_office_fintech.Common.Dict.{insert, lookup}
use back_office_fintech.Schemas.Enums.{ServiceType}
use back_office_fintech.Audit.{new_logger}
use back_office_fintech.Graph.State.{AgentState}
use back_office_fintech.Workflow.{start}
use back_office_fintech.Approvals.{register_pending}
use back_office_fintech.CaseService.{
  CaseService, approve, create_and_run, extracted_info_of, finish, get_case, given_info, initial,
  initial_state, new_case_service, reject, service_type_of_value,
}
use back_office_fintech.CaseService.Settled.{Records, create_and_run-Records}
use back_office_fintech.CaseService.Reached.{Decides, Reached, Step, reached-waiting-Decides}
use back_office_fintech.Examples.{sample_services, waiting_state}
use back_office_fintech.Examples.Runs.{has_approver, waiting-IsSettled, waiting_config}

abbrev complaint_start : AgentState
complaint_start =
    initial "no ticket" (some "U1")
      (some (given_info (some "U1") (some "T1") (some ServiceType.train_ticket)))

starts :
    initial_state "no ticket" (some "U1") (some "T1") (some "train_ticket") ≡ some complaint_start
unfolding initial_state extracted_info_of service_type_of_value str_eq
starts = refl

create_and_run-Records_example :
    Records sample_services new_case_service (start complaint_start (some new_logger)) (
      create_and_run sample_services new_case_service "no ticket"
        (some "U1")
        (some "T1")
        (some "train_ticket"))
create_and_run-Records_example =
    create_and_run-Records sample_services new_case_service "no ticket" (some "U1") (some "T1")
      (some "train_ticket") complaint_start starts

-- The service with one case that waits.
abbrev waiting_service : CaseService
waiting_service = record {
  approval_service = record {
    pending = insert "CASE-1" (waiting_state "CASE-1") [];
    decided = [];
    audit = none;
  };
  cases = insert "CASE-1" (waiting_state "CASE-1") [];
}

waiting_stored :
    finish new_case_service (waiting_state "CASE-1") none
    ≡ some (waiting_service, waiting_state "CASE-1")
unfolding finish register_pending str_eq
waiting_stored = refl

waiting-Reached : Reached waiting_service
waiting-Reached = Reached.next new_case_service waiting_service Reached.start (
    Step.created waiting_config waiting_service (waiting_state "CASE-1") waiting-IsSettled
      waiting_stored)

waiting_shown : get_case waiting_service "CASE-1" ≡ some (waiting_state "CASE-1")
unfolding get_case lookup insert str_eq
waiting_shown = refl

reached-waiting-Decides_example :
    Decides "CASE-1" (approve sample_services waiting_service "CASE-1" "A1" (some "ok"))
    × Decides "CASE-1" (reject sample_services waiting_service "CASE-1" "A1" "wrong amount")
reached-waiting-Decides_example =
    reached-waiting-Decides sample_services waiting_service "CASE-1" "A1" "wrong amount" (some "ok")
      (waiting_state "CASE-1") waiting-Reached waiting_shown refl has_approver
