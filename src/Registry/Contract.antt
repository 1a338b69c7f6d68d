-- ===== src/Registry/Contract.antt =====
-- src/fintech_agent/workflows/resolver_contract.py: the result of a resolver, and the two vocabularies
-- of its status.
use back_office_fintech.Common.{String, Bool, Option, none, some, List, [], ◌∷◌}
use back_office_fintech.Common.Int.{ℤ}
use back_office_fintech.Common.Dict.{Dict, lookup}
use back_office_fintech.Common.Value.{Value}

pub record RootCause : Type 0 where
  pub found : Bool
  pub issue_location : String
  pub reason : String
  pub confidence : String

pub record ResolverResult : Type 0 where
  pub resolver_status : String
  pub verified_evidence : Dict Value
  pub candidate_evidence : List (Dict Value)
  pub missing_evidence : List String
  pub contradictions : List (Dict Value)
  pub root_cause : Option RootCause
  pub public_safe_evidence : Dict Value
  pub public_response : String
  pub resolved_entity_id : Option String
  pub resolved_entity_type : String
  pub missing_info : List String
  pub verified_amount : Option ℤ
  pub verified_status : String
  pub verified_owner_id : String
  pub verified_bank_name : String
  pub verified_bank_status : String
  pub verified_provider_status : String

-- `_MAP`
abbrev status_map : Dict String
status_map =
    ("verified_match", "resolved")
    ∷ ("resolved", "resolved")
    ∷ ("no_match", "no_match")
    ∷ ("multiple_candidates", "multiple_candidates")
    ∷ ("contradiction", "no_match")
    ∷ ("insufficient_evidence", "need_more_info")
    ∷ []

-- `_REVERSE`
abbrev reverse_map : Dict String
reverse_map =
    ("resolved", "resolved")
    ∷ ("no_match", "no_match")
    ∷ ("multiple_candidates", "multiple_candidates")
    ∷ ("need_more_info", "insufficient_evidence")
    ∷ ("invalid_session", "insufficient_evidence")
    ∷ ("evidence_error", "insufficient_evidence")
    ∷ ("ownership_mismatch", "no_match")
    ∷ []

-- `d.get(key, key)`
abbrev or_itself : Option String → String → String
or_itself none key = key
or_itself (some s) key = s

unfoldable pub resolution_status : ResolverResult → String
unfolding lookup
resolution_status r = or_itself (lookup r.resolver_status status_map) r.resolver_status

unfoldable pub set_resolution_status : String → ResolverResult → ResolverResult
unfolding lookup
set_resolution_status value r = record r {
  resolver_status = or_itself (lookup value reverse_map) value;
}
