-- ===== src/CaseService/Settled.antt =====
-- What `create_and_run` leaves of a complaint.
use back_office_fintech.Common.{
  String, true, false, ◌||◌, Option, none, some, ◌≡◌, ◌⊎◌, inl, inr, refl, sym, subst, arith,
  Bool-cases,
}
use back_office_fintech.Common.Text.{text_or_empty}
use back_office_fintech.Common.Dict.{insert}
use back_office_fintech.Schemas.Enums.{CaseStatus}
use back_office_fintech.Schemas.CaseState.{ExtractedInfo, is_truthy}
use back_office_fintech.Graph.State.{AgentState}
use back_office_fintech.Graph.Edges.{is_waiting_approval}
use back_office_fintech.Graph.Services.{Services}
use back_office_fintech.Workflow.{Config, run, start}
use back_office_fintech.Workflow.Phase.{IsPaused, IsUndecided}
use back_office_fintech.Workflow.Outcomes.{HasRaised, IsSettled, Settles, run-Settles}
use back_office_fintech.Approvals.Lifecycle.{has_id, register_pending-waiting, waiting-IsPaused}
use back_office_fintech.CaseService.{
  CaseService, at_end, create_and_run, extracted_info_of, finish, initial, initial_state,
  invoke_result, recursion_limit, run_from, store_result, with_info,
}

abbrev pub id_of : AgentState → String
id_of s = text_or_empty s.case_id

-- The case is stored. Where it waits, it was paused and is pending under its identifier; otherwise it
-- is closed and the pending cases are what they were. The decided cases are what they were.
abbrev pub IsRecorded : CaseService → CaseService → AgentState → Type 0
IsRecorded before after s =
    (after.cases ≡ insert (id_of s) s before.cases)
    × (after.approval_service.decided ≡ before.approval_service.decided)
    × (((s.status ≡ some CaseStatus.waiting_approval)
          × IsPaused s
          × (after.approval_service.pending ≡ insert (id_of s) s before.approval_service.pending))
        ⊎ ((s.status ≡ some CaseStatus.closed)
            × (after.approval_service.pending ≡ before.approval_service.pending)))

-- The call returns and records the case, or the run from `c` has raised, within the limit of steps, the
-- exception of the verification of claims.
abbrev pub Records : Services → CaseService → Config → Option (CaseService × AgentState) → Type 0
Records sv before c none = HasRaised sv recursion_limit c
Records sv before c (some (after, s)) = IsRecorded before after s

-- A call that returns and records the case.
abbrev pub HasRecorded : CaseService → Option (CaseService × AgentState) → Type 0
HasRecorded before none = ⊥
HasRecorded before (some (after, s)) = IsRecorded before after s

pub finish-IsRecorded :
    (service : CaseService) (c : Config)
    → IsSettled c
    → HasRecorded service (finish service c.state c.audit)
unfolding finish
finish-IsRecorded service c (e, inl (w, o)) =
    let p = waiting-IsPaused c (e, inl (w, o)) w in
    let r =
      register_pending-waiting (store_result service c.state c.audit).approval_service c.state w
        (has_id c.state p) in
    let waits : is_waiting_approval c.state.status ≡ true = rw w refl in
    rw (waits, r) (refl, refl, inl (w, p, refl))
finish-IsRecorded service c (e, inr (closed, o)) =
    let ended : is_waiting_approval c.state.status ≡ false = rw closed refl in
    rw ended (refl, refl, inr (closed, refl))

has_recorded :
    (sv : Services) (service : CaseService) (c : Config) (o : Option (CaseService × AgentState))
    → HasRecorded service o
    → Records sv service c o
has_recorded sv service c none h = absurd h
has_recorded sv service c (some (after, s)) h = h

invoke_result-Records :
    (sv : Services) (service : CaseService) (c : Config) (o : Option Config)
    → Settles sv recursion_limit c o
    → Records sv service c (invoke_result service o)
invoke_result-Records sv service c none h = h
invoke_result-Records sv service c (some d) (e, h) =
    subst (λ n. Records sv service c (at_end service n d.state d.audit)) (sym e)
      (has_recorded sv service c _ (finish-IsRecorded service d (e, h)))

-- A state that the graph can start from, with the three retries.
abbrev pub IsInitial : AgentState → Type 0
IsInitial s = IsUndecided s × (s.max_retries ≡ 3) × (s.retry_count ≡ 0)

initial-IsInitial :
    (raw : String) (user : Option String) (info : Option ExtractedInfo)
    → IsInitial (initial raw user info)
initial-IsInitial raw user info = (
  record {
    fresh = record { action = refl; packet = refl; verdict = refl; draft = refl };
    decision = refl;
    required = refl;
  },
  refl,
  refl,
)

with_info-IsInitial :
    (raw : String) (user : Option String) (info : Option ExtractedInfo) (s : AgentState)
    → with_info raw user info ≡ some s
    → IsInitial s
with_info-IsInitial raw user none s h = absurd (ground arith)
with_info-IsInitial raw user (some info) s h =
    let same : initial raw user (some info) ≡ s = ground arith in
    subst IsInitial same (initial-IsInitial raw user (some info))

pub initial_state-IsInitial :
    (raw : String) (user transaction service_type : Option String) (s : AgentState)
    → initial_state raw user transaction service_type ≡ some s
    → IsInitial s
unfolding initial_state
initial_state-IsInitial raw user transaction service_type s h =
    elim (Bool-cases (is_truthy transaction || is_truthy service_type)) [
      | inl given ↦
          with_info-IsInitial raw user (extracted_info_of user transaction service_type) s
            (ground (arith, h, given))
      | inr bare ↦
          let same : initial raw user none ≡ s = ground (arith, h, bare) in
          subst IsInitial same (initial-IsInitial raw user none)
    ]

pub initial-Settles :
    (sv : Services) (service : CaseService) (s : AgentState)
    → IsInitial s
    → let c = start s service.approval_service.audit in
      Settles sv recursion_limit c (run sv recursion_limit c)
initial-Settles sv service s (undecided, retries, count) =
    run-Settles sv s service.approval_service.audit recursion_limit (omega (arith, retries, count))
      undecided

run_from-Records :
    (sv : Services) (service : CaseService) (s : AgentState)
    → IsInitial s
    → Records sv service (start s service.approval_service.audit) (run_from sv service (some s))
run_from-Records sv service s i =
    invoke_result-Records sv service _ _ (initial-Settles sv service s i)

-- A complaint whose service type, where one is given, is known: `create_and_run` returns within
-- LangGraph's limit of 25 steps, or its run comes within them to the conflict check in a state on which
-- the verification of the claims raises an exception; no other exception is raised. Where it
-- returns, it has stored the case; a case that waits for approval is also registered as pending,
-- and any other is closed, with the pending cases unchanged.
pub create_and_run-Records :
    (sv : Services) (service : CaseService) (raw : String)
    (user transaction service_type : Option String) (s : AgentState)
    → initial_state raw user transaction service_type ≡ some s
    → Records sv service
        (start s service.approval_service.audit)
        (create_and_run sv service raw user transaction service_type)
unfolding create_and_run
create_and_run-Records sv service raw user transaction service_type s h =
    subst (λ o. Records sv service (start s service.approval_service.audit) (run_from sv service o))
      (sym h)
      (run_from-Records sv service s
        (initial_state-IsInitial raw user transaction service_type s h))
