-- ===== src/CaseTransition.antt =====
-- src/fintech_agent/api/case_transition.py: how a message relates to the active case.
pub mod Reuse
use back_office_fintech.Common.{
  String, Bool, true, false, not, ◌&&◌, ◌||◌, Option, none, some, List, [], ◌∷◌, str_eq, is_empty,
  is_one_of, if◌then◌else◌,
}
use back_office_fintech.Common.Text.{lower, strip, text_or_empty}
use back_office_fintech.Schemas.CaseState.{is_truthy}

abbrev known_workflows : List String
known_workflows =
    "wallet_topup" ∷ "fraud_account_lock" ∷ "train_ticket" ∷ "utility_bill"
    ∷ "merchant_settlement_delay" ∷ []

abbrev pub non_case_types : List String
non_case_types = "greeting" ∷ "out_of_scope" ∷ []

abbrev pub ack_types : List String
ack_types = "acknowledgement" ∷ "correction_ack" ∷ []

abbrev pub terminal_statuses : List String
terminal_statuses = "resolved" ∷ "no_issue_found" ∷ "no_match" ∷ "closed" ∷ "evidence_error" ∷ []

pub record CaseTransition : Type 0 where
  pub transition : String
  pub reason : String
  pub target_workflow : String
  pub reuse_old_diagnosis : Bool

-- The entries of `latest_router_result` that are read.
pub record RouterResult : Type 0 where
  pub message_type : Option String
  pub workflow_hint : Option String

-- The entries of `active_case`.
pub record ActiveCase : Type 0 where
  pub workflow : Option String
  pub status : Option String
  pub case_id : Option String

-- `_norm_workflow`
unfoldable pub norm_workflow : Option String → String
norm_workflow workflow =
    let wf = strip (text_or_empty workflow) in if is_one_of wf known_workflows then wf else ""

abbrev transition_of : String → String → String → Bool → CaseTransition
transition_of t r w b = record {
  transition = t;
  reason = r;
  target_workflow = w;
  reuse_old_diagnosis = b;
}

-- `latest_wf and active_wf and latest_wf != active_wf`
abbrev pub is_other_workflow : String → String → Bool
is_other_workflow latest active =
    not (is_empty latest) && not (is_empty active) && not (str_eq latest active)

abbrev is_same_workflow : String → String → Bool
is_same_workflow latest active =
    not (is_empty latest) && not (is_empty active) && str_eq latest active

abbrev pub has_active_case : ActiveCase → Bool
has_active_case active = is_truthy active.workflow || is_truthy active.case_id

-- `active_wf or latest_wf`
abbrev text_or_else : String → String → String
text_or_else a b = if is_empty a then b else a

-- The fourth rule: a new complaint while there is an active case.
new_complaint : String → String → String → CaseTransition
new_complaint latest_wf active_wf active_status =
    if is_other_workflow latest_wf active_wf
    then transition_of "workflow_switch" "new complaint about a different workflow" latest_wf false
    else if is_one_of active_status terminal_statuses
    then transition_of "new_case" "new complaint after the active case was finished" latest_wf false
    else if is_same_workflow latest_wf active_wf
    then transition_of "new_case" "new complaint, same workflow" latest_wf false
    else transition_of "new_case" "new complaint, workflow not yet resolved" "" false

unfoldable pub decide_case_transition : RouterResult → ActiveCase → CaseTransition
unfolding new_complaint
decide_case_transition latest active =
    let message_type = text_or_empty latest.message_type in
    let latest_wf = norm_workflow latest.workflow_hint in
    let active_wf = norm_workflow active.workflow in
    let active_status = lower (text_or_empty active.status) in
    if is_one_of message_type non_case_types
    then transition_of "off_topic" "non-case message type" "" false
    else if is_one_of message_type ack_types
    then transition_of "acknowledgement" "acknowledgement of active case" active_wf true
    else if not (has_active_case active)
    then transition_of "new_case" "no active case" latest_wf false
    else if str_eq message_type "new_complaint"
    then new_complaint latest_wf active_wf active_status
    else if str_eq message_type "workflow_switch" || is_other_workflow latest_wf active_wf
    then transition_of "workflow_switch" "latest workflow differs from active case" latest_wf false
    else transition_of "same_case" "follow-up on the active case" (text_or_else active_wf latest_wf)
        true
