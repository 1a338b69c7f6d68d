-- ===== src/Workflow/Termination.antt =====
-- How many steps a run of the graph takes.
use back_office_fintech.Common.{
  ℕ, zero, suc, ◌+◌, ◌-◌, ◌*◌, ◌≤◌, ◌<◌, Option, none, some, ◌≡◌, ◌⊎◌, refl, inl, inr, arith,
  Option-cases,
}
use back_office_fintech.Audit.{AuditLogger}
use back_office_fintech.Graph.State.{AgentState}
use back_office_fintech.Graph.Services.{Services}
use back_office_fintech.Graph.Edges.{Node, next_node}
use back_office_fintech.Nodes.Conflicts.{detect_conflict}
use back_office_fintech.Nodes.Approval.{approval_gate}
use back_office_fintech.Nodes.Closing.{retry_or_dead_letter}
use back_office_fintech.Nodes.Decision.{recommend_action}
use back_office_fintech.Workflow.{Config, exec, follow, run, start, step}
use back_office_fintech.Workflow.Keeps.{
  case_intake-Keeps, extract_info-Keeps, fetch_evidence-Keeps, missing_info_handler-Keeps,
}

-- How many steps are left at most, where `left` retries are left.
abbrev steps_left : Node → ℕ → ℕ
steps_left Node.end left = 0
steps_left Node.audit_and_close left = 1
steps_left Node.create_draft left = 2
steps_left Node.manual_review left = 2
steps_left Node.approval_gate left = 3
steps_left Node.generate_response left = 4
steps_left Node.recommend_action left = 5
steps_left Node.apply_rules left = 6
steps_left Node.route_workflow left = 7
steps_left Node.detect_conflict left = 8
steps_left Node.retry_or_dead_letter left = 9 + 2 * left
steps_left Node.fetch_evidence left = 10 + 2 * left
steps_left Node.missing_info_handler left = 11 + 2 * left
steps_left Node.extract_info left = 12 + 2 * left
steps_left Node.case_intake left = 13 + 2 * left

abbrev retries_left : AgentState → ℕ
retries_left s = s.max_retries - s.retry_count

abbrev pub measure : Config → ℕ
measure c = steps_left c.node (retries_left c.state)

-- A step comes to the end or lowers the measure.
abbrev Lowers : Node → ℕ → Option Config → Type 0
Lowers n m none = Unit
Lowers n m (some c) = (c.node ≡ Node.end) ⊎ (measure c < m)

lowers :
    (sv : Services) (n : Node) (s : AgentState) (a : Option AuditLogger)
    → Lowers n (steps_left n (retries_left s)) (follow n (exec sv n s a))
unfolding exec next_node
lowers sv Node.case_intake s a = ground (arith, case_intake-Keeps sv s a)
lowers sv Node.extract_info s a = ground (arith, extract_info-Keeps sv s a)
lowers sv Node.missing_info_handler s a = ground (arith, missing_info_handler-Keeps sv s a)
lowers sv Node.fetch_evidence s a = ground (arith, fetch_evidence-Keeps sv s a)
lowers sv Node.retry_or_dead_letter s a = unfold retry_or_dead_letter in ground arith
lowers sv Node.detect_conflict s a = elim (Option-cases (detect_conflict sv s a)) [
  | inl e ↦ rw e tt
  | inr (r, e) ↦ rw e (ground arith)
]
lowers sv Node.route_workflow s a = ground arith
lowers sv Node.apply_rules s a = ground arith
lowers sv Node.recommend_action s a = elim (Option-cases (recommend_action sv s a)) [
  | inl e ↦ rw e tt
  | inr (r, e) ↦ rw e (ground arith)
]
lowers sv Node.generate_response s a = ground arith
lowers sv Node.approval_gate s a = elim (Option-cases (approval_gate sv s a)) [
  | inl e ↦ rw e tt
  | inr (r, e) ↦ rw e (ground arith)
]
lowers sv Node.create_draft s a = ground arith
lowers sv Node.manual_review s a = ground arith
lowers sv Node.audit_and_close s a = ground arith
lowers sv Node.end s a = inl refl

-- A run with as much fuel as its measure ends at the end node, unless it ends by an exception.
abbrev pub Ends : Option Config → Type 0
Ends none = Unit
Ends (some c) = c.node ≡ Node.end

end_stays : (sv : Services) (fuel : ℕ) (c : Config) → c.node ≡ Node.end → Ends (run sv fuel c)
unfolding run step exec next_node
end_stays sv zero c h = h
end_stays sv (suc fuel) c h = rw h (end_stays sv fuel _ refl)

nothing_left : (n : Node) (m : ℕ) → steps_left n m ≤ 0 → n ≡ Node.end
nothing_left n m h = ground arith

after_step :
    (sv : Services) (fuel m : ℕ) (n : Node) (o : Option Config)
    → ((c : Config) → measure c ≤ fuel → Ends (run sv fuel c))
    → Lowers n m o
    → m ≤ suc fuel
    → Ends (elim o [ none ↦ none | some c ↦ run sv fuel c ])
after_step sv fuel m n none ends l h = tt
after_step sv fuel m n (some c) ends (inl p) h = end_stays sv fuel c p
after_step sv fuel m n (some c) ends (inr q) h = ends c (omega arith)

pub run-Ends : (sv : Services) (fuel : ℕ) (c : Config) → measure c ≤ fuel → Ends (run sv fuel c)
unfolding run step
run-Ends sv zero c h = nothing_left c.node (retries_left c.state) h
run-Ends sv (suc fuel) c h =
    after_step sv fuel (measure c) c.node (follow c.node (exec sv c.node c.state c.audit))
      (λ d. run-Ends sv fuel d) (lowers sv c.node c.state c.audit) h

-- The graph ends: with `13 + 2 * (max_retries - retry_count)` steps a run from the first node is at
-- the end node, unless a node has raised an exception. That is 19 steps for the default three
-- retries, fewer than the 25 at which LangGraph gives up.
pub run-start-Ends :
    (sv : Services) (s : AgentState) (a : Option AuditLogger)
    → Ends (run sv (13 + 2 * (s.max_retries - s.retry_count)) (start s a))
run-start-Ends sv s a = run-Ends sv _ (start s a) (omega arith)
