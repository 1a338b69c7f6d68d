-- ===== src/CaseService.antt =====
-- src/fintech_agent/api/service.py: the life of a case, from its complaint to the human decision.
pub mod Settled
pub mod Live
pub mod Reached
use back_office_fintech.Common.{
  ℕ, String, Bool, true, false, ◌||◌, Option, none, some, List, [], str_eq, if◌then◌else◌,
}
use back_office_fintech.Common.Text.{text_or_empty}
use back_office_fintech.Common.Dict.{Dict, insert, lookup}
use back_office_fintech.Schemas.Enums.{ServiceType}
use back_office_fintech.Schemas.CaseState.{ExtractedInfo, is_truthy}
use back_office_fintech.Audit.{AuditEvent, AuditLogger, get_events_by_case, new_logger}
use back_office_fintech.Graph.State.{AgentState, empty_state}
use back_office_fintech.Graph.Edges.{Node, is_waiting_approval}
use back_office_fintech.Graph.Services.{Services}
use back_office_fintech.Workflow.{Config, run, start}
use back_office_fintech.Approvals.{
  ApprovalError, ApprovalService, Outcome, approve_case, is_pending, register_pending, reject_case,
}

-- The audit logger is one object for the graph and the approval service, and stands in the latter.
pub record CaseService : Type 0 where
  pub approval_service : ApprovalService
  pub cases : Dict AgentState

abbrev pub new_case_service : CaseService
new_case_service = record {
  approval_service = record { pending = []; decided = []; audit = some new_logger };
  cases = [];
}

-- The service type of a text, as pydantic reads it; `none` is its exception.
unfoldable pub service_type_of_value : String → Option ServiceType
service_type_of_value s =
    if str_eq s "train_ticket"
    then some ServiceType.train_ticket
    else if str_eq s "electric_bill"
    then some ServiceType.electric_bill
    else if str_eq s "water_bill"
    then some ServiceType.water_bill
    else if str_eq s "wallet_topup"
    then some ServiceType.wallet_topup
    else if str_eq s "account_security"
    then some ServiceType.account_security
    else if str_eq s "merchant_settlement"
    then some ServiceType.merchant_settlement
    else if str_eq s "unknown"
    then some ServiceType.unknown
    else none

abbrev pub given_info : Option String → Option String → Option ServiceType → ExtractedInfo
given_info user_id transaction_id service_type = record {
  user_id = user_id;
  transaction_id = transaction_id;
  service_type = service_type;
  issue_type = none;
  order_id = none;
  bill_code = none;
  customer_code = none;
  phone = none;
  email = none;
  wallet_id = none;
  merchant_id = none;
  merchant_name = none;
  tax_code = none;
  settlement_date = none;
  settlement_cycle = none;
  payout_id = none;
  batch_id = none;
  bank_account_number = none;
  amount_claimed = none;
  language = none;
  extraction_method = none;
  missing_fields = [];
  claims = [];
}

abbrev pub with_type : Option String → Option String → Option ServiceType → Option ExtractedInfo
with_type user_id transaction_id none = none
with_type user_id transaction_id (some t) = some (given_info user_id transaction_id (some t))

-- `ExtractedInfo(transaction_id=..., service_type=..., user_id=...)`
unfoldable pub extracted_info_of :
    Option String → Option String → Option String → Option ExtractedInfo
extracted_info_of user_id transaction_id none = some (given_info user_id transaction_id none)
extracted_info_of user_id transaction_id (some s) =
    with_type user_id transaction_id (service_type_of_value s)

abbrev pub initial : String → Option String → Option ExtractedInfo → AgentState
initial raw_complaint user_id info = record empty_state {
  raw_complaint = some raw_complaint;
  user_id = if is_truthy user_id then user_id else none;
  extracted_info = info;
}

abbrev pub with_info : String → Option String → Option ExtractedInfo → Option AgentState
with_info raw_complaint user_id none = none
with_info raw_complaint user_id (some info) = some (initial raw_complaint user_id (some info))

-- The state that the graph starts from; `none` is an exception.
unfoldable pub initial_state :
    String → Option String → Option String → Option String → Option AgentState
initial_state raw_complaint user_id transaction_id service_type =
    if is_truthy transaction_id || is_truthy service_type
    then with_info raw_complaint user_id (extracted_info_of user_id transaction_id service_type)
    else some (initial raw_complaint user_id none)

-- The case is stored, with the logger as the run leaves it.
abbrev pub store_result : CaseService → AgentState → Option AuditLogger → CaseService
store_result service s audit = record {
  approval_service = record service.approval_service { audit = audit };
  cases = insert (text_or_empty s.case_id) s service.cases;
}

abbrev pub registered :
    CaseService
    → AgentState
    → Outcome (ApprovalService × String)
    → Option (CaseService × AgentState)
registered service s (Outcome.raised e) = none
registered service s (Outcome.returned (approvals, id)) =
    some (record service { approval_service = approvals }, s)

unfoldable pub finish :
    CaseService → AgentState → Option AuditLogger → Option (CaseService × AgentState)
finish service s audit =
    let stored = store_result service s audit in
    if is_waiting_approval s.status
    then registered stored s (register_pending stored.approval_service s)
    else some (stored, s)

abbrev pub at_end :
    CaseService → Node → AgentState → Option AuditLogger → Option (CaseService × AgentState)
at_end service Node.end s audit = finish service s audit
at_end service _ s audit = none

-- What LangGraph returns: the state at the end node, or an exception where the run raised one or
-- did not come to the end.
abbrev pub invoke_result : CaseService → Option Config → Option (CaseService × AgentState)
invoke_result service none = none
invoke_result service (some c) = at_end service c.node c.state c.audit

-- LangGraph's limit of steps.
abbrev pub recursion_limit : ℕ
recursion_limit = 25

abbrev pub run_from : Services → CaseService → Option AgentState → Option (CaseService × AgentState)
run_from sv service none = none
run_from sv service (some s) =
    invoke_result service (run sv recursion_limit (start s service.approval_service.audit))

-- `none` is an exception.
unfoldable pub create_and_run :
    Services
    → CaseService
    → String
    → Option String
    → Option String
    → Option String
    → Option (CaseService × AgentState)
create_and_run sv service raw_complaint user_id transaction_id service_type =
    run_from sv service (initial_state raw_complaint user_id transaction_id service_type)

abbrev or_case : Option AgentState → Option AgentState → Option AgentState
or_case none stored = stored
or_case (some s) stored = some s

unfoldable pub get_case : CaseService → String → Option AgentState
get_case service id = or_case (lookup id service.approval_service.decided) (lookup id service.cases)

abbrev events_of : Option AuditLogger → String → List AuditEvent
events_of none id = []
events_of (some logger) id = get_events_by_case logger id

unfoldable pub get_audit_trail : CaseService → String → List AuditEvent
get_audit_trail service id = events_of service.approval_service.audit id

-- `self._cases[case_id] = result`, after a decision that returns.
abbrev pub decided_result :
    CaseService
    → String
    → Outcome (ApprovalService × AgentState)
    → Outcome (CaseService × AgentState)
decided_result service id (Outcome.raised e) = Outcome.raised e
decided_result service id (Outcome.returned (approvals, s)) =
    Outcome.returned (record { approval_service = approvals; cases = insert id s service.cases }, s)

-- `CaseService.approve_case`
unfoldable pub approve :
    Services → CaseService → String → String → Option String → Outcome (CaseService × AgentState)
approve sv service id approver comment =
    decided_result service id (approve_case sv service.approval_service id approver comment)

-- `CaseService.reject_case`
unfoldable pub reject :
    Services → CaseService → String → String → String → Outcome (CaseService × AgentState)
reject sv service id approver reason =
    decided_result service id (reject_case sv service.approval_service id approver reason)

unfoldable pub is_pending_approval : CaseService → String → Bool
is_pending_approval service id = is_pending service.approval_service id
