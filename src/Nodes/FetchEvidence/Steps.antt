-- ===== src/Nodes/FetchEvidence/Steps.antt =====
-- One tool call of `fetch_evidence`: what it records of its success or failure.
use back_office_fintech.Common.{
  String, Bool, true, false, Option, none, some, List, [], ◌∷◌, ◌++◌, if◌then◌else◌,
}
use back_office_fintech.Common.Text.{concat, text_or_empty}
use back_office_fintech.Common.Dict.{Dict, insert}
use back_office_fintech.Common.Value.{Value, Fields, fields_of}
use back_office_fintech.Schemas.Enums.{AuditEventType}
use back_office_fintech.Audit.{AuditLogger, EventSpec, log_if}
use back_office_fintech.Graph.State.{AgentState}
use back_office_fintech.Graph.Services.{Fetched, Services}

-- The variables that the calls of one run of the node update.
pub record FetchState : Type 0 where
  pub tool_results : Dict String
  pub errors : List String
  pub audit_ids : List String
  pub audit : Option AuditLogger

abbrev tool_spec : AgentState → String → Bool → String → EventSpec
tool_spec s tool success summary = record {
  case_id = text_or_empty s.case_id;
  actor = "agent";
  event_type = if success then AuditEventType.tool_result_received else AuditEventType.tool_failed;
  previous_status = none;
  new_status = none;
  correlation_id = s.correlation_id;
  details = fields_of (
      ("tool", Value.text tool)
      ∷ ("success", Value.bool success)
      ∷ ("result_summary", Value.text summary)
      ∷ []);
}

-- `_log_tool`
unfoldable pub log_tool : Services → AgentState → String → Bool → String → FetchState → FetchState
log_tool services s tool success summary f =
    let (audit', ids) =
      log_if services.audit_env f.audit (tool_spec s tool success summary) f.audit_ids in
    record f { audit = audit'; audit_ids = ids }

-- `tool_results[key] = outcome`
abbrev pub note_result : String → String → FetchState → FetchState
note_result key outcome f = record f { tool_results = insert key outcome f.tool_results }

-- `errors.append(f"{key}: {e}")`
abbrev pub note_error : String → String → FetchState → FetchState
note_error key e f = record f { errors = f.errors ++ concat (key ∷ ": " ∷ e ∷ []) ∷ [] }

abbrev started_spec : AgentState → Fields → EventSpec
started_spec s d = record {
  case_id = text_or_empty s.case_id;
  actor = "agent";
  event_type = AuditEventType.evidence_fetch_started;
  previous_status = none;
  new_status = none;
  correlation_id = s.correlation_id;
  details = d;
}

unfoldable pub log_started : Services → AgentState → Fields → FetchState → FetchState
log_started services s d f =
    let (audit', ids) = log_if services.audit_env f.audit (started_spec s d) f.audit_ids in
    record f { audit = audit'; audit_ids = ids }

module _ {ℓ} {A : Type ℓ} where
  -- A tool whose failure is an error: the data is there, or the failure is noted.
  unfoldable pub fetch_required :
      Services → AgentState → String → String → Fetched A → FetchState → Option A × FetchState
  unfolding log_tool
  fetch_required services s key tool (Fetched.found a) f =
      (some a, log_tool services s tool true "found" (note_result key "ok" f))
  fetch_required services s key tool (Fetched.refused e) f =
      (none, log_tool services s tool false e (note_result key "failed" (note_error key e f)))

  -- A tool that may find nothing.
  unfoldable pub fetch_optional :
      Services
      → AgentState
      → String
      → String
      → Fetched (Option A)
      → FetchState
      → Option A × FetchState
  unfolding log_tool
  fetch_optional services s key tool (Fetched.found (some a)) f =
      (some a, log_tool services s tool true "found" (note_result key "ok" f))
  fetch_optional services s key tool (Fetched.found none) f =
      (none, log_tool services s tool false "not_found" (note_result key "not_found" f))
  fetch_optional services s key tool (Fetched.refused e) f =
      (none, log_tool services s tool false e (note_result key "failed" (note_error key e f)))

-- The variables at the start of a run.
abbrev pub fetch_start : AgentState → Option AuditLogger → FetchState
fetch_start s logger = record {
  tool_results = [];
  errors = s.errors;
  audit_ids = s.audit_event_ids;
  audit = logger;
}
