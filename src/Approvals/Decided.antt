-- ===== src/Approvals/Decided.antt =====
-- Decisions of the approval service: what an approval and a rejection leave.
use back_office_fintech.Common.{
  false, is_empty, String, Option, none, some, ◌≡◌, sym, subst, arith, str_eq, if◌then◌else◌,
}
use back_office_fintech.Common.Dict.{
  erase, insert, lookup, lookup-insert, lookup-erase, lookup-insert_self, lookup-erase_self,
}
use back_office_fintech.Schemas.Enums.{ApprovalStatus, CaseStatus}
use back_office_fintech.Audit.{AuditLogger}
use back_office_fintech.Graph.State.{AgentState}
use back_office_fintech.Graph.Services.{Services}
use back_office_fintech.Nodes.Draft.{create_draft}
use back_office_fintech.Nodes.Closing.{audit_and_close}
use back_office_fintech.Approvals.{
  ApprovalService, Outcome, approval_of, approve_case, approve_state, checked, get_pending,
  reject_case, reject_state, rejection_draft, settle,
}

-- What every decision leaves of a case: it is closed, and its proposal is what it was.
abbrev IsClosedAs :
    ApprovalStatus → String → String → Option String → AgentState → AgentState → Type 0
IsClosedAs status case_id approver comment s t =
    (t.status ≡ some CaseStatus.closed)
    × (t.approval_status ≡ some status)
    × (t.approval_decision ≡ some (approval_of case_id approver status comment))
    × (t.approval_packet ≡ s.approval_packet)
    × (t.recommended_action ≡ s.recommended_action)

pub approve_state-closes :
    (sv : Services) (id who : String) (c : Option String) (s : AgentState) (a : Option AuditLogger)
    → IsClosedAs ApprovalStatus.approved id who c s (approve_state sv id who c s a).0
unfolding approve_state create_draft audit_and_close
approve_state-closes sv id who c s a = ground arith

pub reject_state-closes :
    (sv : Services) (id who reason : String) (s : AgentState) (a : Option AuditLogger)
    → (IsClosedAs ApprovalStatus.rejected id who
        (some reason)
        s
        (reject_state sv id who reason s a).0)
      × ((reject_state sv id who reason s a).0.draft_output ≡ some (rejection_draft reason))
unfolding reject_state audit_and_close
reject_state-closes sv id who reason s a = ground arith

-- The case moves from the waiting to the decided, and the other cases stay.
pub record Moves (id : String) (before after : ApprovalService) (t : AgentState) : Type 0 where
  pub gone : lookup id after.pending ≡ none
  pub kept : lookup id after.decided ≡ some t
  pub others :
      (j : String)
      → (lookup j after.pending ≡ (if str_eq id j then none else lookup j before.pending))
        × (lookup j after.decided ≡ (if str_eq id j then some t else lookup j before.decided))

pub moved :
    (service : ApprovalService) (id : String) (t : AgentState) (a : Option AuditLogger)
    → Moves id service
        (record {
          pending = erase id service.pending;
          decided = insert id t service.decided;
          audit = a;
        })
        t
moved service id t a = record {
  gone = lookup-erase_self id service.pending;
  kept = lookup-insert_self id t service.decided;
  others = λ j. (lookup-erase id j service.pending, lookup-insert id j t service.decided);
}

checked-undecided :
    (service : ApprovalService) (id who : String) (s : AgentState)
    → is_empty id ≡ false
    → is_empty who ≡ false
    → lookup id service.decided ≡ none
    → lookup id service.pending ≡ some s
    → checked id who (get_pending service id) ≡ Outcome.returned s
unfolding get_pending checked
checked-undecided service id who s i w d p = ground arith

abbrev pub Approves :
    ApprovalService
    → String
    → String
    → Option String
    → AgentState
    → Outcome (ApprovalService × AgentState)
    → Type 0
Approves service id who c s (Outcome.raised e) = ⊥
Approves service id who c s (Outcome.returned (after, t)) =
    IsClosedAs ApprovalStatus.approved id who c s t × Moves id service after t

abbrev pub Rejects :
    ApprovalService
    → String
    → String
    → String
    → AgentState
    → Outcome (ApprovalService × AgentState)
    → Type 0
Rejects service id who reason s (Outcome.raised e) = ⊥
Rejects service id who reason s (Outcome.returned (after, t)) =
    IsClosedAs ApprovalStatus.rejected id who (some reason) s t
    × (t.draft_output ≡ some (rejection_draft reason))
    × Moves id service after t

-- Approving a case that waits and is not decided, by a named approver, never fails: the case is closed as approved by this
-- approver with this comment, whatever the draft tool answers, its packet and its recommended action
-- are what they were, it moves from the pending to the decided cases, and no other case is touched.
pub approve_case-Approves :
    (sv : Services) (service : ApprovalService) (id who : String) (c : Option String)
    (s : AgentState)
    → is_empty id ≡ false
    → is_empty who ≡ false
    → lookup id service.decided ≡ none
    → lookup id service.pending ≡ some s
    → Approves service id who c s (approve_case sv service id who c)
unfolding approve_case
approve_case-Approves sv service id who c s i w d p =
    subst
      (λ o.
        Approves service id who c s
          (settle service id (λ x. approve_state sv id who c x service.audit) o))
      (sym (checked-undecided service id who s i w d p))
      (approve_state-closes sv id who c s service.audit, moved service id _ _)

-- Rejecting a case that waits and is not decided, by a named approver, never fails: the case is closed as rejected by this
-- approver, its draft is only the note of the rejection, it moves from the pending to the decided
-- cases, and no other case is touched.
pub reject_case-Rejects :
    (sv : Services) (service : ApprovalService) (id who reason : String) (s : AgentState)
    → is_empty id ≡ false
    → is_empty who ≡ false
    → lookup id service.decided ≡ none
    → lookup id service.pending ≡ some s
    → Rejects service id who reason s (reject_case sv service id who reason)
unfolding reject_case
reject_case-Rejects sv service id who reason s i w d p =
    let h = reject_state-closes sv id who reason s service.audit in
    subst
      (λ o.
        Rejects service id who reason s
          (settle service id (λ x. reject_state sv id who reason x service.audit) o))
      (sym (checked-undecided service id who s i w d p)) (h.0, h.1, moved service id _ _)
