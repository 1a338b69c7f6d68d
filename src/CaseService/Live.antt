-- ===== src/CaseService/Live.antt =====
-- Every case that waits can be decided, in every case service that comes about.
use back_office_fintech.Common.{
  String, false, Option, some, ◌≡◌, inl, inr, refl, sym, ap, subst, arith, is_empty, str_eq,
  str_eq_iff,
}
use back_office_fintech.Common.Dict.{Dict, erase, insert, lookup, lookup-insert}
use back_office_fintech.Schemas.Enums.{CaseStatus}
use back_office_fintech.Audit.{AuditLogger}
use back_office_fintech.Graph.State.{AgentState}
use back_office_fintech.Approvals.{ApprovalService, Outcome, settle}
use back_office_fintech.Approvals.Decided.{Moves, moved}
use back_office_fintech.Approvals.Lifecycle.{has_id}
use back_office_fintech.CaseService.{CaseService, decided_result}
use back_office_fintech.CaseService.Settled.{IsRecorded, id_of}

abbrev pub IsClosed : AgentState → Type 0
IsClosed s = s.status ≡ some CaseStatus.closed

abbrev pub IsWaiting : AgentState → Type 0
IsWaiting s = s.status ≡ some CaseStatus.waiting_approval

-- A case that waits is pending, under an identifier that is not empty.
abbrev WaitsPending : Dict AgentState → Dict AgentState → Type 0
WaitsPending cases pending =
    (j : String) (x : AgentState)
    → lookup j cases ≡ some x
    → IsWaiting x
    → (lookup j pending ≡ some x) × (is_empty j ≡ false)

abbrev DecidedClosed : Dict AgentState → Type 0
DecidedClosed decided = (j : String) (x : AgentState) → lookup j decided ≡ some x → IsClosed x

pub record IsSound (service : CaseService) : Type 0 where
  pub waits : WaitsPending service.cases service.approval_service.pending
  pub closed : DecidedClosed service.approval_service.decided

-- A case that is stored and registered.
insert_both :
    (id : String) (s : AgentState) (cases pending : Dict AgentState)
    → is_empty id ≡ false
    → WaitsPending cases pending
    → WaitsPending (insert id s cases) (insert id s pending)
insert_both id s cases pending named w j x h q =
    ground (
      arith,
      named,
      str_eq_iff id j,
      lookup-insert id j s cases,
      lookup-insert id j s pending,
      w j x,
    )

-- A closed case that is stored, where the other pending cases stay.
insert_closed :
    (id : String) (s : AgentState) (cases pending after : Dict AgentState)
    → IsClosed s
    → ((j : String) → str_eq id j ≡ false → lookup j after ≡ lookup j pending)
    → WaitsPending cases pending
    → WaitsPending (insert id s cases) after
insert_closed id s cases pending after c same w j x h q =
    ground (arith, c, lookup-insert id j s cases, same j, w j x)

pub created-IsSound :
    (service after : CaseService) (s : AgentState)
    → IsRecorded service after s
    → IsSound service
    → IsSound after
created-IsSound service after s (cases, decided, inl (w, p, pending)) i = record {
  waits =
      subst (λ d. WaitsPending d after.approval_service.pending) (sym cases)
        (subst (λ d. WaitsPending (insert (id_of s) s service.cases) d) (sym pending)
          (insert_both (id_of s) s service.cases service.approval_service.pending (has_id s p)
            i.waits));
  closed = subst DecidedClosed (sym decided) i.closed;
}
created-IsSound service after s (cases, decided, inr (c, pending)) i = record {
  waits =
      subst (λ d. WaitsPending d after.approval_service.pending) (sym cases)
        (insert_closed (id_of s) s service.cases service.approval_service.pending
          after.approval_service.pending c (λ j q. ap (lookup j) pending) i.waits);
  closed = subst DecidedClosed (sym decided) i.closed;
}

-- A decision that returns a closed case.
abbrev ClosesCase : String → ApprovalService → ApprovalService → AgentState → Type 0
ClosesCase id before after t = IsClosed t × Moves id before after t

pub settle-ClosesCase :
    (service after : ApprovalService) (id : String)
    (decision : AgentState → AgentState × Option AuditLogger) (o : Outcome AgentState)
    (t : AgentState)
    → ((s : AgentState) → IsClosed (decision s).0)
    → settle service id decision o ≡ Outcome.returned (after, t)
    → ClosesCase id service after t
unfolding settle
settle-ClosesCase service after id decision (Outcome.raised e) t c h = absurd (ground arith)
settle-ClosesCase service after id decision (Outcome.returned s) t c h =
    let same_case : (decision s).0 ≡ t = ground (arith, h) in
    let same_service : record {
      pending = erase id service.pending;
      decided = insert id (decision s).0 service.decided;
      audit = (decision s).1;
    }
        ≡ after =
      ground (arith, h) in
    (
      subst IsClosed same_case (c s),
      subst (λ x. Moves id service after x) same_case
          (subst (λ x. Moves id service x (decision s).0) same_service
            (moved service id (decision s).0 (decision s).1)),
    )

pub decided-IsSound :
    (service : CaseService) (id : String) (o : Outcome (ApprovalService × AgentState))
    (after : CaseService) (t : AgentState)
    → ((a : ApprovalService) (s : AgentState)
        → o ≡ Outcome.returned (a, s)
        → ClosesCase id service.approval_service a s)
    → decided_result service id o ≡ Outcome.returned (after, t)
    → IsSound service
    → IsSound after
decided-IsSound service id (Outcome.raised e) after t c h i = absurd (ground arith)
decided-IsSound service id (Outcome.returned (a, s)) after t c h i =
    let (closed, moves) = c a s refl in
    let same : record { approval_service = a; cases = insert id s service.cases } ≡ after =
      ground (arith, h) in
    subst IsSound same (record {
      waits =
          insert_closed id s service.cases service.approval_service.pending a.pending closed
            (λ j q. ground (arith, (moves.others j).0, q)) i.waits;
      closed = λ j x q. ground (arith, (moves.others j).1, closed, q, i.closed j x);
    })
