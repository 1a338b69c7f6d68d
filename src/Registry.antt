-- ===== src/Registry.antt =====
-- src/fintech_agent/workflows/workflow_registry.py: the catalogue of workflows. The callables of a
-- specification and its rules for contradictions and diagnoses, which are always empty, are left out.
pub mod Builtin
pub mod Matching
pub mod Contract
use back_office_fintech.Common.{
  String, Bool, Option, none, some, List, [], ◌∷◌, is_one_of, if◌then◌else◌,
}
use back_office_fintech.Common.Text.{lower}
use back_office_fintech.Common.Dict.{Dict, insert, lookup}
use back_office_fintech.Common.Value.{Value}

pub record WorkflowSpec : Type 0 where
  pub workflow_id : String
  pub display_noun : String
  pub supported_subject_types : List String
  pub intent_examples : List String
  pub required_identity_fields : List String
  pub searchable_claim_fields : List String
  pub service_types : List String  -- a set
  pub evidence_schema : Dict String
  pub customer_response_policy : String
  pub staff_handoff_policy : Dict (List String)
  pub issue_verification_rules : Dict (Dict (List String))
  pub safe_response_policy : Dict Value

-- `_specs`
abbrev pub WorkflowRegistry : Type 0
WorkflowRegistry = Dict WorkflowSpec

unfoldable pub register : WorkflowSpec → WorkflowRegistry → WorkflowRegistry
register spec r = insert spec.workflow_id spec r

unfoldable pub get : WorkflowRegistry → String → Option WorkflowSpec
get r id = lookup id r

unfoldable pub list_ids : WorkflowRegistry → List String
list_ids [] = []
list_ids ((id, spec) ∷ r) = id ∷ list_ids r

unfoldable pub list_specs : WorkflowRegistry → List WorkflowSpec
list_specs [] = []
list_specs ((id, spec) ∷ r) = spec ∷ list_specs r

abbrev noun_or_generic : Option WorkflowSpec → String
noun_or_generic none = "giao dịch"
noun_or_generic (some spec) = spec.display_noun

unfoldable pub get_display_noun : WorkflowRegistry → String → String
get_display_noun r id = noun_or_generic (lookup id r)

abbrev types_of : Option WorkflowSpec → Option (List String)
types_of none = none
types_of (some spec) = some spec.service_types

unfoldable pub get_service_types : WorkflowRegistry → String → Option (List String)
get_service_types r id = types_of (lookup id r)

-- The loop of `match_workflow_for_service_type`, on the text in lower case.
unfoldable pub match_lower : WorkflowRegistry → String → Option String
match_lower [] svc = none
match_lower ((id, spec) ∷ r) svc =
    if is_one_of svc spec.service_types then some spec.workflow_id else match_lower r svc

unfoldable pub match_workflow_for_service_type : WorkflowRegistry → String → Option String
match_workflow_for_service_type r svc = match_lower r (lower svc)

abbrev rules_of : Option WorkflowSpec → Dict (Dict (List String))
rules_of none = []
rules_of (some spec) = spec.issue_verification_rules

unfoldable pub get_issue_rules : WorkflowRegistry → String → Dict (Dict (List String))
get_issue_rules r id = rules_of (lookup id r)

abbrev policy_of : Option WorkflowSpec → Dict Value
policy_of none = []
policy_of (some spec) = spec.safe_response_policy

unfoldable pub get_response_policy : WorkflowRegistry → String → Dict Value
get_response_policy r id = policy_of (lookup id r)
