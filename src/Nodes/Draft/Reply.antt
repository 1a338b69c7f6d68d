-- ===== src/Nodes/Draft/Reply.antt =====
-- src/fintech_agent/nodes/draft_action.py: what a branch of `create_draft` ends in.
use back_office_fintech.Common.{ℕ, String, Bool, Option, none, some, List, [], ◌∷◌}
use back_office_fintech.Common.Text.{concat}
use back_office_fintech.Common.Dict.{Dict}
use back_office_fintech.Common.Value.{Value, Fields, nat}
use back_office_fintech.Schemas.Enums.{CaseStatus, risk_level_value}
use back_office_fintech.Schemas.CaseState.{RecommendedAction}
use back_office_fintech.Graph.State.{AgentState}
use back_office_fintech.Graph.Services.{DraftReply, Fetched}

-- How the body of the `try` ends: with a draft, its status, whether it sets `approval_required`,
-- and the details that it logs, if any; or with an exception.
pub data Drafted : Type 0 where
  made : Dict Value → CaseStatus → Bool → Option Fields → Drafted
  raised : String → Drafted

abbrev pub text_or : Option String → String → Value
text_or none d = Value.text d
text_or (some s) d = Value.text s

abbrev pub reply_amount : Option ℕ → Value
reply_amount none = nat 0
reply_amount (some n) = nat n

-- `state.get("case_id", "UNKNOWN")`
abbrev pub case_or_unknown : AgentState → String
case_or_unknown s = elim s.case_id [ none ↦ "UNKNOWN" | some i ↦ i ]

abbrev pub with_reply : Fetched DraftReply → (DraftReply → Drafted) → Drafted
with_reply (Fetched.found r) k = k r
with_reply (Fetched.refused e) k = raised e

abbrev pub draft_type : String → String × Value
draft_type t = ("type", Value.text t)

abbrev pub evidence_lines : RecommendedAction → List String
evidence_lines a = a.diagnosis ∷ concat ("risk=" ∷ risk_level_value a.risk_level ∷ []) ∷ []
