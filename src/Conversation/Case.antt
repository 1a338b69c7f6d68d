-- ===== src/Conversation/Case.antt =====
-- src/fintech_agent/api/conversation_state.py: the operations of one case. `none` is an exception.
pub mod History
use back_office_fintech.Common.{
  ℕ, suc, String, Bool, true, false, not, Option, none, some, List, [], ◌∷◌, ◌++◌, is_empty,
  if◌then◌else◌,
}
use back_office_fintech.Common.Dict.{Dict, insert, lookup}
use back_office_fintech.Common.Value
use back_office_fintech.Common.Value.{
  Fields, Value, no_elements, no_fields, with_element, with_field,
}
use back_office_fintech.Conversation.{CaseState, ClaimRecord, ResolverResult}

-- `v is not None and v != ""`
unfoldable pub is_given : Value → Bool
is_given Value.null = false
is_given (Value.text s) = not (is_empty s)
is_given (Value.bool _) = true
is_given (Value.num _) = true
is_given (Value.dict _) = true
is_given (Value.list _) = true

-- The given fields, merged into the current claims.
unfoldable pub merge_given : Dict Value → Dict Value → Dict Value
merge_given [] claims = claims
merge_given ((k, v) ∷ fields) claims =
    if is_given v then merge_given fields (insert k v claims) else merge_given fields claims

abbrev pub new_record : String → Dict Value → ClaimRecord
new_record id fields = record {
  fields = fields;
  superseded = false;
  superseded_by = "";
  claim_id = id;
}

unfoldable pub record_claim : String → Dict Value → CaseState → CaseState
record_claim id fields c = record c {
  claim_history = c.claim_history ++ new_record id fields ∷ [];
  customer_claims = merge_given fields c.customer_claims;
}

-- The last record of the history as it is after a correction.
abbrev pub mark : String → ClaimRecord → ClaimRecord
mark id r = record r { superseded = true; superseded_by = id }

unfoldable pub mark_last : String → List ClaimRecord → List ClaimRecord
mark_last id [] = []
mark_last id (r ∷ []) = mark id r ∷ []
mark_last id (r ∷ t ∷ rs) = r ∷ mark_last id (t ∷ rs)

-- That record alone.
unfoldable pub marked : String → List ClaimRecord → List ClaimRecord
marked id [] = []
marked id (r ∷ []) = mark id r ∷ []
marked id (r ∷ t ∷ rs) = marked id (t ∷ rs)

unfoldable pub supersede_claims : String → Dict Value → CaseState → CaseState
supersede_claims id fields c = record c {
  superseded_claims = c.superseded_claims ++ marked id c.claim_history;
  claim_history = mark_last id c.claim_history ++ new_record id fields ∷ [];
  customer_claims = merge_given fields c.customer_claims;
}

unfoldable pub entries_of : Fields → Dict Value
entries_of no_fields = []
entries_of (with_field k v f) = (k, v) ∷ entries_of f

-- `dict(result.get("verified_evidence", {}))`; an empty text or list is an empty dictionary. `none` is an
-- exception; a list of pairs, which Python accepts too, is taken as one.
abbrev evidence_entry : Option Value → Option (Dict Value)
evidence_entry none = some []
evidence_entry (some (Value.dict f)) = some (entries_of f)
evidence_entry (some (Value.text s)) = if is_empty s then some [] else none
evidence_entry (some (Value.bool _)) = none
evidence_entry (some (Value.num _)) = none
evidence_entry (some Value.null) = none
evidence_entry (some (Value.list no_elements)) = some []
evidence_entry (some (Value.list (with_element _ _))) = none

abbrev or_nothing : Option (Dict Value) → Dict Value
or_nothing none = []
or_nothing (some d) = d

abbrev store_evidence : CaseState → ResolverResult → Option (Dict Value) → Option CaseState
store_evidence c r none = none
store_evidence c r (some e) = some (record c { resolver_result = some r; verified_evidence = e })

unfoldable pub record_resolver_result : ResolverResult → CaseState → Option CaseState
record_resolver_result (ResolverResult.with_evidence e) c =
    store_evidence c (ResolverResult.with_evidence e) (some (or_nothing e))
record_resolver_result (ResolverResult.dictionary d) c =
    store_evidence c (ResolverResult.dictionary d) (evidence_entry (lookup "verified_evidence" d))
record_resolver_result (ResolverResult.other v) c =
    some (record c { resolver_result = some (ResolverResult.other v) })

unfoldable pub record_diagnosis : Dict Value → String → CaseState → CaseState
record_diagnosis diagnosis status c = record c { diagnosis = diagnosis; resolution_status = status }

unfoldable pub record_no_match : String → CaseState → CaseState
record_no_match hash c = record c {
  no_match_count = suc c.no_match_count;
  last_response_hash = hash;
}

unfoldable pub record_recheck : CaseState → CaseState
record_recheck c = record c { recheck_count = suc c.recheck_count }

unfoldable pub increment_messages : CaseState → CaseState
increment_messages c = record c { message_count = suc c.message_count }
