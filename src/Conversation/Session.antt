-- ===== src/Conversation/Session.antt =====
-- src/fintech_agent/api/conversation_state.py: the operations of `ConversationState`. A new case takes
-- its identifier as an argument.
pub mod Updates
pub mod Activity
pub mod Switching
pub mod Restoring
pub mod Reached
pub mod Returning
use back_office_fintech.Common.{
  ℕ, String, Bool, true, false, not, ◌&&◌, Option, none, some, List, [], ◌∷◌, ◌++◌, str_eq,
  is_empty, if◌then◌else◌,
}
use back_office_fintech.Common.Int.{pos}
use back_office_fintech.Common.Dict.{Dict}
use back_office_fintech.Common.Value
use back_office_fintech.Common.Value.{Value, fields_of, nat}
use back_office_fintech.Schemas.CaseState.{is_truthy}
use back_office_fintech.Conversation.{CaseState, ConversationState, new_case}

abbrev pub is_active : CaseState → Bool
is_active c = str_eq c.status "active"

unfoldable pub find_active : String → List CaseState → Option CaseState
find_active id [] = none
find_active id (c ∷ cs) = if str_eq c.case_id id && is_active c then some c else find_active id cs

abbrev pub active_from : Option String → List CaseState → Option CaseState
active_from none cases = none
active_from (some id) cases = if is_empty id then none else find_active id cases

-- `active_case`
unfoldable pub active_case : ConversationState → Option CaseState
active_case s = active_from s.active_case_id s.cases

-- The argument `id` is the identifier of the new case.
unfoldable pub create_case : String → String → ConversationState → ConversationState
create_case id workflow s = record s {
  cases = s.cases ++ new_case id workflow ∷ [];
  active_case_id = some id;
}

abbrev pub with_status : String → CaseState → CaseState
with_status status c = record c { status = status }

-- A list with one case changed, and that case.
abbrev pub Updated : Type 0
Updated = List CaseState × CaseState

abbrev pub cons_updated : CaseState → Option Updated → Option Updated
cons_updated c none = none
cons_updated c (some (cs, x)) = some (c ∷ cs, x)

-- The first case of an identifier, changed, if there is one.
unfoldable pub update_first : (CaseState → CaseState) → String → List CaseState → Option Updated
update_first f id [] = none
update_first f id (c ∷ cs) =
    if str_eq c.case_id id then some (f c ∷ cs, f c) else cons_updated c (update_first f id cs)

abbrev pub is_the_active : Option String → String → Bool
is_the_active none id = false
is_the_active (some a) id = str_eq a id

abbrev pub archived_result : ConversationState → String → Option Updated → ConversationState
archived_result s id none = s
archived_result s id (some (cs, c)) = record s {
  cases = cs;
  active_case_id = if is_the_active s.active_case_id id then none else s.active_case_id;
}

unfoldable pub archive_case : String → ConversationState → ConversationState
archive_case id s = archived_result s id (update_first (with_status "archived") id s.cases)

abbrev pub archive_if_any : Option String → ConversationState → ConversationState
archive_if_any none s = s
archive_if_any (some a) s = if is_empty a then s else archive_case a s

unfoldable pub archive_and_create : String → String → ConversationState → ConversationState
archive_and_create id workflow s = create_case id workflow (archive_if_any s.active_case_id s)

abbrev pub or_this : Option Updated → Option Updated → Option Updated
or_this none this = this
or_this (some r) this = some r

abbrev pub is_archived : CaseState → Bool
is_archived c = str_eq c.status "archived"

-- The search of `restore_case` goes from the end.
unfoldable pub restore_last : String → List CaseState → Option Updated
restore_last workflow [] = none
restore_last workflow (c ∷ cs) = or_this (cons_updated c (restore_last workflow cs)) (
    if str_eq c.workflow_id workflow && is_archived c
    then some (with_status "active" c ∷ cs, with_status "active" c)
    else none)

abbrev pub restored_result :
    ConversationState → Option Updated → ConversationState × Option CaseState
restored_result s none = (s, none)
restored_result s (some (cs, c)) =
    (record s { cases = cs; active_case_id = some c.case_id }, some c)

unfoldable pub restore_case : String → ConversationState → ConversationState × Option CaseState
restore_case workflow s = restored_result s (restore_last workflow s.cases)

abbrev pub unarchived : CaseState → CaseState
unarchived c = if is_archived c then with_status "active" c else c

-- `if self.active_case_id and self.active_case_id != case_id: self.archive_case(...)`
abbrev pub archive_other : Option String → String → ConversationState → ConversationState
archive_other none id s = s
archive_other (some a) id s = if is_empty a then s else if str_eq a id then s else archive_case a s

abbrev pub switched_result :
    ConversationState → String → Option Updated → ConversationState × Option CaseState
switched_result s id none = (s, none)
switched_result s id (some (cs, c)) = (
  record (archive_other s.active_case_id id (record s { cases = cs })) { active_case_id = some id },
  some c,
)

unfoldable pub switch_to_case : String → ConversationState → ConversationState × Option CaseState
switch_to_case id s = switched_result s id (update_first unarchived id s.cases)

abbrev context_of : Option CaseState → List (String × Value)
context_of none = []
context_of (some c) =
    ("case_id", Value.text c.case_id)
    ∷ ("selected_workflow", Value.text c.workflow_id)
    ∷ ("has_active_case", Value.bool true)
    ∷ ("awaiting_field", Value.text "")
    ∷ ("resolution_status", Value.text c.resolution_status)
    ∷ ("customer_claims", Value.dict (fields_of c.customer_claims))
    ∷ ("verified_evidence", Value.dict (fields_of c.verified_evidence))
    ∷ ("no_match_count", nat c.no_match_count)
    ∷ ("recheck_count", nat c.recheck_count)
    ∷ ("last_response_hash", Value.text c.last_response_hash)
    ∷ []

unfoldable pub to_active_case_context : ConversationState → Dict Value
to_active_case_context s = context_of (active_case s)
