-- ===== src/Graph/Edges.antt =====
-- The nodes and edges of src/fintech_agent/graph/builder.py and edges.py.
use back_office_fintech.Common.{
  String, Bool, true, false, ◌&&◌, Option, none, some, str_eq, is_nonempty, if◌then◌else◌,
}
use back_office_fintech.Common.Dict.{lookup}
use back_office_fintech.Schemas.Enums.{ApprovalStatus, CaseStatus}
use back_office_fintech.Graph.State.{AgentState}

pub data Node : Type 0 where
  case_intake extract_info missing_info_handler fetch_evidence retry_or_dead_letter : Node
  detect_conflict route_workflow apply_rules recommend_action generate_response : Node
  approval_gate create_draft manual_review audit_and_close end : Node

abbrev pub is_dead_letter : Option CaseStatus → Bool
is_dead_letter (some CaseStatus.dead_letter) = true
is_dead_letter _ = false

abbrev pub is_manual_review : Option CaseStatus → Bool
is_manual_review (some CaseStatus.manual_review) = true
is_manual_review _ = false

abbrev pub is_waiting_approval : Option CaseStatus → Bool
is_waiting_approval (some CaseStatus.waiting_approval) = true
is_waiting_approval _ = false

abbrev pub lets_through : Option ApprovalStatus → Bool
lets_through (some ApprovalStatus.approved) = true
lets_through (some ApprovalStatus.not_required) = true
lets_through _ = false

abbrev pub has_failed : Option String → Bool
has_failed none = false
has_failed (some s) = str_eq s "failed"

unfoldable pub after_extract_info : AgentState → Node
after_extract_info s =
    if is_nonempty s.missing_info then Node.missing_info_handler else Node.fetch_evidence

unfoldable pub after_missing_info : AgentState → Node
after_missing_info s = if is_dead_letter s.status then Node.audit_and_close else Node.fetch_evidence

unfoldable pub after_fetch_evidence : AgentState → Node
after_fetch_evidence s =
    if has_failed (lookup "transaction" s.tool_results)
      && has_failed (lookup "wallet_ledger" s.tool_results)
    then Node.retry_or_dead_letter
    else Node.detect_conflict

unfoldable pub after_detect_conflict : AgentState → Node
after_detect_conflict s = if s.has_conflict then Node.manual_review else Node.route_workflow

unfoldable pub after_route_workflow : AgentState → Node
after_route_workflow s = if is_manual_review s.status then Node.manual_review else Node.apply_rules

unfoldable pub after_generate_response : AgentState → Node
after_generate_response s =
    if is_waiting_approval s.status then Node.approval_gate else Node.create_draft

unfoldable pub after_approval_gate : AgentState → Node
after_approval_gate s =
    if lets_through s.approval_status then Node.create_draft else Node.audit_and_close

unfoldable pub after_retry : AgentState → Node
after_retry s = if is_dead_letter s.status then Node.audit_and_close else Node.fetch_evidence

-- The edge out of each node, on the state that the node leaves.
unfoldable pub next_node : Node → AgentState → Node
unfolding after_extract_info after_missing_info after_fetch_evidence after_detect_conflict
    after_route_workflow after_generate_response after_approval_gate after_retry
next_node Node.case_intake s = Node.extract_info
next_node Node.extract_info s = after_extract_info s
next_node Node.missing_info_handler s = after_missing_info s
next_node Node.fetch_evidence s = after_fetch_evidence s
next_node Node.retry_or_dead_letter s = after_retry s
next_node Node.detect_conflict s = after_detect_conflict s
next_node Node.route_workflow s = after_route_workflow s
next_node Node.apply_rules s = Node.recommend_action
next_node Node.recommend_action s = Node.generate_response
next_node Node.generate_response s = after_generate_response s
next_node Node.approval_gate s = after_approval_gate s
next_node Node.create_draft s = Node.audit_and_close
next_node Node.manual_review s = Node.audit_and_close
next_node Node.audit_and_close s = Node.end
next_node Node.end s = Node.end
