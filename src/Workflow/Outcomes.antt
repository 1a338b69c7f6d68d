-- ===== src/Workflow/Outcomes.antt =====
-- How a run of the graph comes out.
use back_office_fintech.Common.{
  ℕ, zero, suc, ◌+◌, ◌-◌, ◌*◌, ◌≤◌, ◌<◌, true, false, Option, none, some, ◌≡◌, ◌⊎◌, refl, sym,
  subst, ap, ◌∙◌, arith, is_nonempty,
}
use back_office_fintech.Audit.{AuditLogger}
use back_office_fintech.Schemas.Enums.{ActionType, CaseStatus}
use back_office_fintech.Schemas.CaseState.{RecommendedAction}
use back_office_fintech.Rules.Conflict.{detect_all_conflicts}
use back_office_fintech.Claims.{ClaimVerificationSummary}
use back_office_fintech.Nodes.Conflicts.{
  bundle_of, detect_conflict, detect_result, detect_with, verify_state,
}
use back_office_fintech.Nodes.Closing.{audit_and_close, manual_review}
use back_office_fintech.Graph.State.{AgentState}
use back_office_fintech.Graph.Services.{Services}
use back_office_fintech.Graph.Edges.{Node, next_node}
use back_office_fintech.Workflow.{Config, NodeResult, exec, follow, run, start, step}
use back_office_fintech.Workflow.Termination.{Ends, run-Ends, run-start-Ends}
use back_office_fintech.Workflow.Phase.{Goes, Inv, IsUndecided, Outcome, exec-Goes}

-- Within the limit of steps the run is at the conflict check, in a state on which the verification of
-- the claims raises an exception.
abbrev pub HasRaised : Services → ℕ → Config → Type 0
HasRaised sv fuel c =
    (k : ℕ) × (k < fuel)
    × ((d : Config) × (run sv k c ≡ some d)
        × (d.node ≡ Node.detect_conflict)
        × (verify_state sv d.state ≡ none))

-- What holds of a run of at most `fuel` steps from `c`: it has raised the exception of the
-- verification of claims, or the invariant holds at the node where it is.
abbrev pub Holds : Services → ℕ → Config → Option Config → Type 0
Holds sv fuel c none = HasRaised sv fuel c
Holds sv fuel c (some d) = Inv d.node d.state

abbrev run_on : Services → ℕ → Option Config → Option Config
run_on sv fuel none = none
run_on sv fuel (some c) = run sv fuel c

run-suc : (sv : Services) (k : ℕ) (c : Config) → run sv (suc k) c ≡ run_on sv k (step sv c)
unfolding run
run-suc sv k c =
    elim (step sv c) as (λ o. elim o [ none ↦ none | some d ↦ run sv k d ] ≡ run_on sv k o) [
      | none ↦ refl
      | some d ↦ refl
    ]

later_raised :
    (sv : Services) (fuel : ℕ) (c d : Config) (o : Option Config)
    → step sv c ≡ some d
    → Holds sv fuel d o
    → Holds sv (suc fuel) c o
later_raised sv fuel c d none q (k, l, (e, r, n, h)) =
    (suc k, omega (arith, l), (e, run-suc sv k c ∙ (ap (run_on sv k) q ∙ r), n, h))
later_raised sv fuel c d (some e) q h = h

after_step :
    (sv : Services) (fuel : ℕ) (c : Config) (r : NodeResult)
    → ((d : Config) → Inv d.node d.state → Holds sv fuel d (run sv fuel d))
    → follow c.node r ≡ step sv c
    → Goes sv c.node c.state r
    → Holds sv (suc fuel) c (run_on sv fuel (follow c.node r))
unfolding run
after_step sv fuel c none goes q (n, raised) = (0, omega arith, (c, refl, n, raised))
after_step sv fuel c (some (s, a)) goes q h =
    let d : Config = record { node = next_node c.node s; state = s; audit = a } in
    later_raised sv fuel c d (run sv fuel d) (sym q) (goes d h)

run-Holds :
    (sv : Services) (fuel : ℕ) (c : Config) → Inv c.node c.state → Holds sv fuel c (run sv fuel c)
unfolding step
run-Holds sv zero c h = unfold run in h
run-Holds sv (suc fuel) c h = subst (Holds sv (suc fuel) c) (sym (run-suc sv fuel c)) (
    after_step sv fuel c (exec sv c.node c.state c.audit) (λ d. run-Holds sv fuel d) refl
      (exec-Goes sv c.node c.state c.audit h))

-- The configuration is at the end node, with one of the outcomes and the status that goes with it.
abbrev pub IsSettled : Config → Type 0
IsSettled c =
    (c.node ≡ Node.end)
    × (((c.state.status ≡ some CaseStatus.waiting_approval) × Outcome c.state true)
        ⊎ ((c.state.status ≡ some CaseStatus.closed) × Outcome c.state false))

-- A run of at most `fuel` steps from `c` is settled, or has raised the exception of the verification of
-- claims.
abbrev pub Settles : Services → ℕ → Config → Option Config → Type 0
Settles sv fuel c none = HasRaised sv fuel c
Settles sv fuel c (some d) = IsSettled d

settled :
    (sv : Services) (fuel : ℕ) (c : Config) (o : Option Config)
    → Ends o
    → Holds sv fuel c o
    → Settles sv fuel c o
settled sv fuel c none e h = h
settled sv fuel c (some d) e h = (e, subst (λ n. Inv n d.state) e h)

-- The same for a limit of steps that is large enough.
pub run-Settles :
    (sv : Services) (s : AgentState) (a : Option AuditLogger) (fuel : ℕ)
    → 13 + 2 * (s.max_retries - s.retry_count) ≤ fuel
    → IsUndecided s
    → Settles sv fuel (start s a) (run sv fuel (start s a))
run-Settles sv s a fuel h u =
    settled sv fuel (start s a) _ (run-Ends sv fuel (start s a) h) (run-Holds sv fuel (start s a) u)

-- A run of the graph from a state where nothing is decided is at the end node after
-- `13 + 2 * (max_retries - retry_count)` steps, whatever the services answer, or the same run has
-- come within these steps to the conflict check in a state on which the verification of the claims
-- raises an exception; there is no other exception. At the end either the case waits for approval, with
-- an approval packet for a recommended action that needs one, and no draft is made; or the case is
-- closed, and its recommended action needs no approval, or is a manual review, or there is none,
-- and in each of these there is no approval packet.
pub run-start-Settles :
    (sv : Services) (s : AgentState) (a : Option AuditLogger)
    → IsUndecided s
    → let fuel = 13 + 2 * (s.max_retries - s.retry_count) in
      Settles sv fuel (start s a) (run sv fuel (start s a))
run-start-Settles sv s a u =
    settled sv _ (start s a) _ (run-start-Ends sv s a) (run-Holds sv _ (start s a) u)

-- The case is closed at the end node, left to the operations team, with its conflicts recorded, and
-- nothing is asked of an approver, unless the verification of its claims has raised.
abbrev pub IsLeftToReview : Services → AgentState → Option Config → Type 0
IsLeftToReview sv s none = verify_state sv s ≡ none
IsLeftToReview sv s (some c) =
    (c.node ≡ Node.end)
    × (c.state.status ≡ some CaseStatus.closed)
    × (c.state.conflicts ≡ detect_all_conflicts (bundle_of s) s.user_id)
    × (c.state.approval_packet ≡ s.approval_packet)
    × ((x : RecommendedAction) × (c.state.recommended_action ≡ some x)
        × (x.action_type ≡ ActionType.manual_review))

checked-IsLeftToReview :
    (sv : Services) (s : AgentState) (a : Option AuditLogger) (v : Option ClaimVerificationSummary)
    → verify_state sv s ≡ v
    → is_nonempty (detect_all_conflicts (bundle_of s) s.user_id) ≡ true
    → IsLeftToReview sv s (elim (follow Node.detect_conflict (detect_result sv s a v)) [
      | none ↦ none
      | some c ↦ run sv 2 c
    ])
unfolding run step exec next_node detect_with manual_review audit_and_close
checked-IsLeftToReview sv s a none q h = q
checked-IsLeftToReview sv s a (some v) q h = ground arith

-- From the conflict check, evidence with a conflict takes three steps to the end, whatever the state:
-- the case is left to a manual review with the conflicts recorded, closed, and no approval packet is
-- made. The only exception is that of the verification of its claims.
pub conflict-IsLeftToReview :
    (sv : Services) (s : AgentState) (a : Option AuditLogger)
    → is_nonempty (detect_all_conflicts (bundle_of s) s.user_id) ≡ true
    → IsLeftToReview sv s (run sv 3 (record { node = Node.detect_conflict; state = s; audit = a }))
unfolding run step exec detect_conflict
conflict-IsLeftToReview sv s a h = checked-IsLeftToReview sv s a (verify_state sv s) refl h
