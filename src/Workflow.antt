-- ===== src/Workflow.antt =====
-- The compiled graph as a machine: a node runs, then the edge out of it is followed. An exception
-- that leaves a node ends the run (`none`). LangGraph stops a run after 25 steps by default.
pub mod Keeps
pub mod Termination
pub mod Invariant
pub mod Phase
pub mod Outcomes
use back_office_fintech.Common.{ℕ, zero, suc, Option, none, some}
use back_office_fintech.Audit.{AuditLogger}
use back_office_fintech.Graph.State.{AgentState}
use back_office_fintech.Graph.Services.{Services}
use back_office_fintech.Graph.Edges.{Node, next_node}
use back_office_fintech.Nodes.Intake.{case_intake, extract_info, missing_info_handler}
use back_office_fintech.Nodes.FetchEvidence.{fetch_evidence}
use back_office_fintech.Nodes.Conflicts.{detect_conflict, route_workflow}
use back_office_fintech.Nodes.Decision.{apply_rules, generate_response, recommend_action}
use back_office_fintech.Nodes.Approval.{approval_gate}
use back_office_fintech.Nodes.Draft.{create_draft}
use back_office_fintech.Nodes.Closing.{audit_and_close, manual_review, retry_or_dead_letter}

abbrev pub NodeResult : Type 0
NodeResult = Option (AgentState × Option AuditLogger)

unfoldable pub exec : Services → Node → AgentState → Option AuditLogger → NodeResult
exec sv Node.case_intake s a = some (case_intake sv s a)
exec sv Node.extract_info s a = some (extract_info sv s a)
exec sv Node.missing_info_handler s a = some (missing_info_handler sv s a)
exec sv Node.fetch_evidence s a = some (fetch_evidence sv s a)
exec sv Node.retry_or_dead_letter s a = some (retry_or_dead_letter sv s a)
exec sv Node.detect_conflict s a = detect_conflict sv s a
exec sv Node.route_workflow s a = some (route_workflow sv s a)
exec sv Node.apply_rules s a = some (apply_rules sv s a)
exec sv Node.recommend_action s a = recommend_action sv s a
exec sv Node.generate_response s a = some (generate_response sv s a)
exec sv Node.approval_gate s a = approval_gate sv s a
exec sv Node.create_draft s a = some (create_draft sv s a)
exec sv Node.manual_review s a = some (manual_review sv s a)
exec sv Node.audit_and_close s a = some (audit_and_close sv s a)
exec sv Node.end s a = some (s, a)

pub record Config : Type 0 where
  pub node : Node
  pub state : AgentState
  pub audit : Option AuditLogger

abbrev pub follow : Node → NodeResult → Option Config
follow n none = none
follow n (some (s, a)) = some (record { node = next_node n s; state = s; audit = a })

unfoldable pub step : Services → Config → Option Config
step sv c = follow c.node (exec sv c.node c.state c.audit)

-- At most `fuel` steps; the end node stays where it is.
unfoldable pub run : Services → ℕ → Config → Option Config
run sv zero c = some c
run sv (suc fuel) c = elim (step sv c) [ none ↦ none | some c' ↦ run sv fuel c' ]

-- `START → case_intake`
abbrev pub start : AgentState → Option AuditLogger → Config
start s a = record { node = Node.case_intake; state = s; audit = a }
