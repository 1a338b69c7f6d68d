-- ===== src/Nodes/FetchEvidence/Fraud.antt =====
-- `_fetch_fraud_evidence`: who the user is, then the account and the fraud case.
use back_office_fintech.Common.{
  String, true, false, not, ◌&&◌, Option, none, some, [], ◌∷◌, ◌++◌, if◌then◌else◌,
}
use back_office_fintech.Common.Text.{concat, text_or_empty}
use back_office_fintech.Common.Value.{Value, fields_of}
use back_office_fintech.Schemas.Enums.{CaseStatus}
use back_office_fintech.Schemas.CaseState.{ExtractedInfo, is_truthy}
use back_office_fintech.Schemas.Evidence.{empty_bundle}
use back_office_fintech.Audit.{AuditLogger}
use back_office_fintech.Graph.State.{AgentState}
use back_office_fintech.Graph.Services.{IdentityReply, Services}
use back_office_fintech.Nodes.FetchEvidence.Steps.{
  FetchState, fetch_required, fetch_start, log_started, log_tool, note_result,
}

-- The user found so far, where he was found, and the other variables.
pub record Resolution : Type 0 where
  pub user_id : Option String
  pub source : Option String
  pub fetch : FetchState

-- `f"resolved={user_id}"`
abbrev resolved_text : Option String → String
resolved_text none = "resolved=None"
resolved_text (some u) = concat ("resolved=" ∷ u ∷ [])

abbrev resolve_by_reply :
    Services → AgentState → String → String → String → IdentityReply → Resolution → Resolution
resolve_by_reply services s kind tool key (IdentityReply.resolved u) r = record {
  user_id = u;
  source = some (concat (kind ∷ ":" ∷ key ∷ []));
  fetch =
      log_tool services s tool true (resolved_text u)
        (note_result "identity_lookup" (concat ("ok_" ∷ kind ∷ [])) r.fetch);
}
resolve_by_reply services s kind tool key (IdentityReply.not_found e) r = record r {
  fetch =
      log_tool services s tool false e
        (note_result (concat ("identity_lookup_" ∷ kind ∷ [])) "not_found" r.fetch);
}
resolve_by_reply services s kind tool key (IdentityReply.raised e) r = record r {
  fetch =
      log_tool services s tool false e
        (note_result (concat ("identity_lookup_" ∷ kind ∷ [])) "failed" r.fetch);
}

-- One look-up, made while no user is known and where its key was extracted.
unfoldable pub try_lookup :
    Services
    → AgentState
    → String
    → String
    → (String → IdentityReply)
    → Option String
    → Resolution
    → Resolution
try_lookup services s kind tool look key r =
    if not (is_truthy r.user_id) && is_truthy key
    then resolve_by_reply services s kind tool (text_or_empty key) (look (text_or_empty key)) r
    else r

abbrev extracted_user : Option ExtractedInfo → Option String
extracted_user none = none
extracted_user (some x) = x.user_id

-- `(extracted.user_id if extracted else None) or state.get("user_id")`
abbrev known_user : AgentState → Option String
known_user s =
    if is_truthy (extracted_user s.extracted_info)
    then extracted_user s.extracted_info
    else s.user_id

resolve_from : Services → AgentState → Option ExtractedInfo → Resolution → Resolution
unfolding try_lookup
resolve_from services s none r = r
resolve_from services s (some x) r =
    try_lookup services s "wallet_id" "get_user_by_wallet_id" services.tools.get_user_by_wallet_id
      x.wallet_id
      (try_lookup services s "email" "get_user_by_email" services.tools.get_user_by_email x.email (
        try_lookup services s "phone" "get_user_by_phone" services.tools.get_user_by_phone x.phone
          r))

unfoldable pub resolve_user : Services → AgentState → Option AuditLogger → Resolution
unfolding resolve_from
resolve_user services s audit =
    resolve_from services s s.extracted_info
      (record { user_id = known_user s; source = none; fetch = fetch_start s audit })

-- The user is not known: no evidence at all.
fraud_unresolved : Services → AgentState → FetchState → AgentState × Option AuditLogger
fraud_unresolved services s f0 =
    let f =
      log_started services s
        (fields_of (
          ("user_id", Value.null)
          ∷ ("workflow", Value.text "fraud_account_lock")
          ∷ ("identity_status", Value.text "missing")
          ∷ []))
        (note_result "identity_lookup" "missing" f0) in
    (
      record s {
        evidence_bundle = some empty_bundle;
        tool_results = f.tool_results;
        selected_workflow = some "fraud_account_lock";
        errors = f.errors ++ "identity_not_resolved: no user_id, phone, email, or wallet_id" ∷ [];
        status = some CaseStatus.fetching_evidence;
        audit_event_ids = f.audit_ids;
      },
      f.audit,
    )

abbrev note_source : Option String → FetchState → FetchState
note_source none f = f
note_source (some source) f = note_result "identity_source" source f

abbrev source_or_direct : Option String → String
source_or_direct none = "direct"
source_or_direct (some source) = source

fraud_resolved :
    Services → AgentState → String → Option String → FetchState → AgentState × Option AuditLogger
fraud_resolved services s user source f0 =
    let f1 =
      log_started services s
        (fields_of (
          ("user_id", Value.text user)
          ∷ ("workflow", Value.text "fraud_account_lock")
          ∷ ("identity_source", Value.text (source_or_direct source))
          ∷ []))
        (note_source source f0) in
    let (a, f2) =
      fetch_required services s "account_status" "get_account_status"
        (services.tools.get_account_status user) f1 in
    let (c, f3) =
      fetch_required services s "fraud_case" "get_fraud_case" (services.tools.get_fraud_case user)
        f2 in
    (
      record s {
        evidence_bundle = some (record empty_bundle { account_status = a; fraud_case = c });
        tool_results = f3.tool_results;
        user_id = some user;
        selected_workflow = some "fraud_account_lock";
        errors = f3.errors;
        status = some CaseStatus.fetching_evidence;
        audit_event_ids = f3.audit_ids;
      },
      f3.audit,
    )

unfoldable pub fetch_fraud_evidence :
    Services → AgentState → Option AuditLogger → AgentState × Option AuditLogger
unfolding fraud_unresolved fraud_resolved
fetch_fraud_evidence services s audit =
    let r = resolve_user services s audit in
    if is_truthy r.user_id
    then fraud_resolved services s (text_or_empty r.user_id) r.source r.fetch
    else fraud_unresolved services s r.fetch
