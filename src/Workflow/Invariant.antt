-- ===== src/Workflow/Invariant.antt =====
-- What holds at each node of a run that starts with nothing decided, and how a run can come out.
use back_office_fintech.Common.{is_empty, String, Bool, true, false, none, some, ◌≡◌, ◌⊎◌}
use back_office_fintech.Common.Text.{text_or_empty}
use back_office_fintech.Schemas.Enums.{ActionType, ApprovalStatus, CaseStatus}
use back_office_fintech.Schemas.CaseState.{ApprovalPacket, RecommendedAction}
use back_office_fintech.Rules.Approval.{needs_approval}
use back_office_fintech.Graph.State.{AgentState}
use back_office_fintech.Graph.Edges.{Node, is_waiting_approval}
use back_office_fintech.Nodes.Conflicts.{is_known_workflow}
use back_office_fintech.Nodes.Decision.{rule_decision_of}

-- Nothing is recommended, asked for or drafted.
pub record IsFresh (s : AgentState) : Type 0 where
  pub action : s.recommended_action ≡ none
  pub packet : s.approval_packet ≡ none
  pub verdict : s.approval_status ≡ none
  pub draft : s.draft_output ≡ none

pub record IsUndecided (s : AgentState) : Type 0 where
  pub fresh : IsFresh s
  pub decision : s.rule_decision ≡ none
  pub required : s.approval_required ≡ false

abbrev pub HasId : AgentState → Type 0
HasId s = is_empty (text_or_empty s.case_id) ≡ false

pub record IsOpen (s : AgentState) : Type 0 where
  pub undecided : IsUndecided s
  pub named : HasId s

-- The stored decision is of an action, and asks for the approval that this action needs.
abbrev pub IsDecided : AgentState → Type 0
IsDecided s =
    (a : ActionType) × (d : String) × (s.rule_decision
      ≡ some (rule_decision_of a d (needs_approval a)))
    × (s.approval_required ≡ needs_approval a)
    × IsFresh s
    × HasId s

abbrev pub IsRecommended : AgentState → Bool → Type 0
IsRecommended s b =
    (x : RecommendedAction) × (s.recommended_action ≡ some x)
    × (d : String) × (s.rule_decision ≡ some (rule_decision_of x.action_type d b))
    × (needs_approval x.action_type ≡ b)
    × (s.approval_required ≡ b)
    × (is_waiting_approval s.status ≡ b)
    × (s.approval_packet ≡ none)
    × (s.approval_status ≡ none)
    × (s.draft_output ≡ none)
    × HasId s

-- An action that needs an approval waits for it, the case has an identifier, and nothing is drafted.
abbrev pub IsPaused : AgentState → Type 0
IsPaused s =
    (x : RecommendedAction) × (s.recommended_action ≡ some x)
    × (needs_approval x.action_type ≡ true)
    × (p : ApprovalPacket) × (s.approval_packet ≡ some p)
    × (p.proposed_action ≡ x.action_type)
    × (s.approval_status ≡ some ApprovalStatus.pending)
    × (s.approval_required ≡ true)
    × (s.draft_output ≡ none)
    × HasId s

-- What is recommended needs no approval.
abbrev pub IsHarmlessDraft : AgentState → Type 0
IsHarmlessDraft s =
    (x : RecommendedAction) × (s.recommended_action ≡ some x)
    × (needs_approval x.action_type ≡ false)
    × (s.approval_packet ≡ none)

-- The case is left to the operations team.
abbrev pub IsReviewed : AgentState → Type 0
IsReviewed s =
    (x : RecommendedAction) × (s.recommended_action ≡ some x)
    × (x.action_type ≡ ActionType.manual_review)
    × (s.approval_packet ≡ none)

abbrev pub IsDropped : AgentState → Type 0
IsDropped s = (s.recommended_action ≡ none) × (s.draft_output ≡ none) × (s.approval_packet ≡ none)

-- How a run can come out; `w` says whether it waits.
pub data Outcome (s : AgentState) (w : Bool) : Type 0 where
  paused : w ≡ true → IsPaused s → Outcome s w
  drafted : w ≡ false → IsHarmlessDraft s → Outcome s w
  reviewed : w ≡ false → IsReviewed s → Outcome s w
  dropped : w ≡ false → IsDropped s → Outcome s w

abbrev pub Inv : Node → AgentState → Type 0
Inv Node.case_intake s = IsUndecided s
Inv Node.apply_rules s = IsOpen s × (is_known_workflow s.selected_workflow ≡ true)
Inv Node.recommend_action s = IsDecided s
Inv Node.generate_response s = (b : Bool) × IsRecommended s b
Inv Node.approval_gate s = IsRecommended s true
Inv Node.create_draft s = IsRecommended s false
Inv Node.audit_and_close s = Outcome s (is_waiting_approval s.status)
Inv Node.end s =
    ((s.status ≡ some CaseStatus.waiting_approval) × Outcome s true)
    ⊎ ((s.status ≡ some CaseStatus.closed) × Outcome s false)
Inv n s = IsOpen s
