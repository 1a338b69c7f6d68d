-- ===== src/Conversation.antt =====
-- src/fintech_agent/api/conversation_state.py: the cases of a chat session and their claims. The
-- times are left out. A record of claims is shared by the two lists of a case; it is changed only
-- while it is the last of the history, so the lists hold its value.
pub mod Case
pub mod Session
use back_office_fintech.Common.{ℕ, String, Bool, false, Option, none, List, []}
use back_office_fintech.Common.Dict.{Dict}
use back_office_fintech.Common.Value.{Value}

pub record ClaimRecord : Type 0 where
  pub fields : Dict Value
  pub superseded : Bool
  pub superseded_by : String
  pub claim_id : String

-- What a resolver returns: an object with evidence or without, or a dictionary.
pub data ResolverResult : Type 0 where
  with_evidence : Option (Dict Value) → ResolverResult
  dictionary : Dict Value → ResolverResult
  other : Value → ResolverResult

pub record CaseState : Type 0 where
  pub case_id : String
  pub workflow_id : String
  pub customer_claims : Dict Value
  pub claim_history : List ClaimRecord
  pub superseded_claims : List ClaimRecord
  pub resolver_result : Option ResolverResult
  pub verified_evidence : Dict Value
  pub diagnosis : Dict Value
  pub resolution_status : String
  pub status : String
  pub message_count : ℕ
  pub no_match_count : ℕ
  pub last_response_hash : String
  pub recheck_count : ℕ

-- `CaseState(workflow_id=...)`
abbrev pub new_case : String → String → CaseState
new_case id workflow = record {
  case_id = id;
  workflow_id = workflow;
  customer_claims = [];
  claim_history = [];
  superseded_claims = [];
  resolver_result = none;
  verified_evidence = [];
  diagnosis = [];
  resolution_status = "";
  status = "active";
  message_count = 0;
  no_match_count = 0;
  last_response_hash = "";
  recheck_count = 0;
}

pub record ConversationState : Type 0 where
  pub session_id : String
  pub active_case_id : Option String
  pub cases : List CaseState

abbrev pub new_conversation : String → ConversationState
new_conversation id = record { session_id = id; active_case_id = none; cases = [] }
