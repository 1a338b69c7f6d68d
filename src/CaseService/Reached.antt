-- ===== src/CaseService/Reached.antt =====
-- The case services that complaints and decisions bring about.
use back_office_fintech.Common.{
  String, false, Option, none, some, ◌≡◌, refl, subst, arith, is_empty, Option-cases, inl, inr,
}
use back_office_fintech.Common.Dict.{lookup}
use back_office_fintech.Graph.State.{AgentState}
use back_office_fintech.Graph.Services.{Services}
use back_office_fintech.Workflow.{Config}
use back_office_fintech.Workflow.Outcomes.{IsSettled, Settles}
use back_office_fintech.Approvals.{ApprovalService, Outcome, approve_case, reject_case}
use back_office_fintech.Approvals.Decided.{
  Approves, Rejects, approve_case-Approves, approve_state-closes, reject_case-Rejects,
  reject_state-closes,
}
use back_office_fintech.CaseService.{
  CaseService, approve, at_end, create_and_run, decided_result, finish, get_case, initial_state,
  invoke_result, new_case_service, recursion_limit, reject, run_from,
}
use back_office_fintech.CaseService.Settled.{
  HasRecorded, IsInitial, finish-IsRecorded, initial-Settles, initial_state-IsInitial,
}
use back_office_fintech.CaseService.Live.{
  IsClosed, IsSound, IsWaiting, created-IsSound, decided-IsSound, settle-ClosesCase,
}

-- The end of the run of a complaint, as it is stored and registered, or a decision that returns. Each
-- has its own clock, identifiers and answers of tools.
pub data Step (service : CaseService) : CaseService → Type 0 where
  created :
      (c : Config) (after : CaseService) (s : AgentState)
      → IsSettled c
      → finish service c.state c.audit ≡ some (after, s)
      → Step service after
  approved :
      (sv : Services) (id who : String) (comment : Option String) (after : CaseService)
      (s : AgentState)
      → approve sv service id who comment ≡ Outcome.returned (after, s)
      → Step service after
  rejected :
      (sv : Services) (id who reason : String) (after : CaseService) (s : AgentState)
      → reject sv service id who reason ≡ Outcome.returned (after, s)
      → Step service after

pub data Reached : CaseService → Type 0 where
  start : Reached new_case_service
  next : (service after : CaseService) → Reached service → Step service after → Reached after

settled-Step :
    (sv : Services) (service after : CaseService) (c : Config) (o : Option Config) (s : AgentState)
    → Settles sv recursion_limit c o
    → invoke_result service o ≡ some (after, s)
    → Step service after
settled-Step sv service after c none s i h = absurd (ground arith)
settled-Step sv service after c (some d) s (e, i) h =
    Step.created d after s (e, i)
      (subst (λ n. at_end service n d.state d.audit ≡ some (after, s)) e h)

run_from-Step :
    (sv : Services) (service after : CaseService) (o : Option AgentState) (s : AgentState)
    → ((t : AgentState) → o ≡ some t → IsInitial t)
    → run_from sv service o ≡ some (after, s)
    → Step service after
run_from-Step sv service after none s i h = absurd (ground arith)
run_from-Step sv service after (some t) s i h =
    settled-Step sv service after _ _ s (initial-Settles sv service t (i t refl)) h

-- A complaint whose `create_and_run` returns is such a step.
create_and_run-Step :
    (sv : Services) (service : CaseService) (raw : String)
    (user transaction service_type : Option String) (after : CaseService) (s : AgentState)
    → create_and_run sv service raw user transaction service_type ≡ some (after, s)
    → Step service after
unfolding create_and_run
create_and_run-Step sv service raw user transaction service_type after s h =
    run_from-Step sv service after (initial_state raw user transaction service_type) s
      (initial_state-IsInitial raw user transaction service_type) h

step-IsSound : (service after : CaseService) → Step service after → IsSound service → IsSound after
unfolding approve reject approve_case reject_case
step-IsSound service _ (Step.created c after s settled h) i =
    created-IsSound service after s
      (subst (HasRecorded service) h (finish-IsRecorded service c settled)) i
step-IsSound service _ (Step.approved sv id who comment after s h) i =
    decided-IsSound service id _ after s
      (λ a t.
        settle-ClosesCase service.approval_service a id _ _ t
          (λ x. (approve_state-closes sv id who comment x service.approval_service.audit).0))
      h i
step-IsSound service _ (Step.rejected sv id who reason after s h) i =
    decided-IsSound service id _ after s
      (λ a t.
        settle-ClosesCase service.approval_service a id _ _ t
          (λ x. (reject_state-closes sv id who reason x service.approval_service.audit).0.0))
      h i

reached-IsSound : (service : CaseService) → Reached service → IsSound service
unfolding lookup
reached-IsSound _ Reached.start = record {
  waits = λ j x h w. absurd (ground arith);
  closed = λ j x h. absurd (ground arith);
}
reached-IsSound after (Reached.next service _ r x) =
    step-IsSound service after x (reached-IsSound service r)

-- The decision returns, the case is closed as it says, and `get_case` shows the closed case.
abbrev pub Decides : String → Outcome (CaseService × AgentState) → Type 0
Decides id (Outcome.raised e) = ⊥
Decides id (Outcome.returned (after, t)) = IsClosed t × (get_case after id ≡ some t)

-- The case is pending and not decided.
record IsOpen (service : CaseService) (id : String) (s : AgentState) : Type 0 where
  undecided : lookup id service.approval_service.decided ≡ none
  pending : lookup id service.approval_service.pending ≡ some s
  named : is_empty id ≡ false

waiting-IsOpen :
    (service : CaseService) (id : String) (s : AgentState)
    → IsSound service
    → get_case service id ≡ some s
    → IsWaiting s
    → IsOpen service id s
unfolding get_case
waiting-IsOpen service id s i h w =
    elim (Option-cases (lookup id service.approval_service.decided)) [
      | inl q ↦
          let shown : lookup id service.cases ≡ some s = ground (arith, h, q) in
          let (pending, named) = i.waits id s shown w in
          record { undecided = q; pending = pending; named = named }
      | inr (t, q) ↦ absurd (ground (arith, h, q, w, i.closed id t q))
    ]

approved-Decides :
    (service : CaseService) (id who : String) (comment : Option String) (s : AgentState)
    (o : Outcome (ApprovalService × AgentState))
    → Approves service.approval_service id who comment s o
    → Decides id (decided_result service id o)
unfolding get_case
approved-Decides service id who comment s (Outcome.raised e) x = x
approved-Decides service id who comment s (Outcome.returned (after, t)) (c, moves) =
    (c.0, rw moves.kept refl)

rejected-Decides :
    (service : CaseService) (id who reason : String) (s : AgentState)
    (o : Outcome (ApprovalService × AgentState))
    → Rejects service.approval_service id who reason s o
    → Decides id (decided_result service id o)
unfolding get_case
rejected-Decides service id who reason s (Outcome.raised e) x = x
rejected-Decides service id who reason s (Outcome.returned (after, t)) (c, d, moves) =
    (c.0, rw moves.kept refl)

-- No case that waits is stuck: in every case service that comes about from an empty one by storing and
-- registering the settled ends of runs and by decisions that return, a case
-- that `get_case` shows as waiting for approval can be approved, and rejected, by any named
-- approver. The decision returns, the case is closed, and `get_case` shows it closed.
pub reached-waiting-Decides :
    (sv : Services) (service : CaseService) (id who reason : String) (comment : Option String)
    (s : AgentState)
    → Reached service
    → get_case service id ≡ some s
    → IsWaiting s
    → is_empty who ≡ false
    → Decides id (approve sv service id who comment) × Decides id (reject sv service id who reason)
unfolding approve reject
reached-waiting-Decides sv service id who reason comment s r h w n =
    let o = waiting-IsOpen service id s (reached-IsSound service r) h w in
    let approvals = service.approval_service in
    (
      approved-Decides service id who comment s _
          (approve_case-Approves sv approvals id who comment s o.named n o.undecided o.pending),
      rejected-Decides service id who reason s _
          (reject_case-Rejects sv approvals id who reason s o.named n o.undecided o.pending),
    )
