-- ===== src/Approvals/Pending.antt =====
-- Histories of the approval service.
use back_office_fintech.Common.{
  String, true, Option, some, List, [], ◌∷◌, ◌≡◌, ap, arith, str_eq_iff,
}
use back_office_fintech.Common.Text.{text_or_empty}
use back_office_fintech.Common.Dict.{contains, lookup, lookup-insert, lookup-erase}
use back_office_fintech.Schemas.Enums.{CaseStatus}
use back_office_fintech.Audit.{AuditLogger}
use back_office_fintech.Graph.State.{AgentState}
use back_office_fintech.Graph.Services.{Services}
use back_office_fintech.Approvals.{
  ApprovalError, ApprovalService, Outcome, approve_case, checked, get_pending, is_pending,
  register_pending, reject_case, settle,
}

-- The calls that change the service.
pub data Call : Type 0 where
  register : AgentState → Call
  approve : String → String → Option String → Call
  reject : String → String → String → Call

abbrev after {ℓ} : {A : Type ℓ} → ApprovalService → Outcome (ApprovalService × A) → ApprovalService
after service (Outcome.raised e) = service
after service (Outcome.returned (service', x)) = service'

-- A call that raises leaves the service as it was.
unfoldable pub perform : Services → ApprovalService → Call → ApprovalService
perform sv service (Call.register s) = after service (register_pending service s)
perform sv service (Call.approve id who c) = after service (approve_case sv service id who c)
perform sv service (Call.reject id who reason) =
    after service (reject_case sv service id who reason)

unfoldable pub perform_all : Services → ApprovalService → List Call → ApprovalService
perform_all sv service [] = service
perform_all sv service (c ∷ cs) = perform_all sv (perform sv service c) cs

settle-decided :
    (service : ApprovalService) (j : String) (k : AgentState → AgentState × Option AuditLogger)
    (who id : String) (s : AgentState)
    → lookup id service.decided ≡ some s
    → lookup id (after service (settle service j k (checked j who (get_pending service j)))).decided
      ≡ some s
unfolding settle checked get_pending
settle-decided service j k who id s h = grind (arith, lookup-insert, str_eq_iff)

perform-decided :
    (sv : Services) (service : ApprovalService) (c : Call) (id : String) (s : AgentState)
    → lookup id service.decided ≡ some s
    → lookup id (perform sv service c).decided ≡ some s
unfolding perform register_pending approve_case reject_case
perform-decided sv service (Call.register t) id s h = ground arith
perform-decided sv service (Call.approve j who c) id s h = settle-decided service j _ who id s h
perform-decided sv service (Call.reject j who r) id s h = settle-decided service j _ who id s h

perform_all-decided :
    (sv : Services) (service : ApprovalService) (cs : List Call) (id : String) (s : AgentState)
    → lookup id service.decided ≡ some s
    → lookup id (perform_all sv service cs).decided ≡ some s
unfolding perform_all
perform_all-decided sv service [] id s h = h
perform_all-decided sv service (c ∷ cs) id s h =
    perform_all-decided sv (perform sv service c) cs id s (perform-decided sv service c id s h)

refuses :
    (service : ApprovalService) (id who : String) (s : AgentState)
    → lookup id service.decided ≡ some s
    → checked id who (get_pending service id)
      ≡ Outcome.raised (ApprovalError.already_decided id s.approval_status)
unfolding checked get_pending
refuses service id who s h = ground arith

-- A decision is final: whatever calls follow, the state of a decided case stays what it was, and to
-- approve or to reject it again is refused with the status of the first decision.
pub perform_all-keeps_decided :
    (sv : Services) (service : ApprovalService) (cs : List Call) (id : String) (s : AgentState)
    (who reason : String) (c : Option String)
    → lookup id service.decided ≡ some s
    → (lookup id (perform_all sv service cs).decided ≡ some s)
      × (approve_case sv (perform_all sv service cs) id who c
          ≡ Outcome.raised (ApprovalError.already_decided id s.approval_status))
      × (reject_case sv (perform_all sv service cs) id who reason
          ≡ Outcome.raised (ApprovalError.already_decided id s.approval_status))
unfolding approve_case reject_case settle
perform_all-keeps_decided sv service cs id s who reason c h =
    let h' = perform_all-decided sv service cs id s h in
    let r = refuses (perform_all sv service cs) id who s h' in
    (
      h',
      ap (settle (perform_all sv service cs) id _) r,
      ap (settle (perform_all sv service cs) id _) r,
    )

-- Whatever waits has the status of a waiting case.
abbrev pub AllWaiting : ApprovalService → Type 0
AllWaiting service =
    (id : String) (s : AgentState)
    → lookup id service.pending ≡ some s
    → s.status ≡ some CaseStatus.waiting_approval

settle-AllWaiting :
    (service : ApprovalService) (j : String) (k : AgentState → AgentState × Option AuditLogger)
    → AllWaiting service
    → (o : Outcome AgentState) → AllWaiting (after service (settle service j k o))
unfolding settle
settle-AllWaiting service j k w (Outcome.raised e) id s h = w id s h
settle-AllWaiting service j k w (Outcome.returned t) id s h =
    w id s (ground (arith, lookup-erase j id service.pending))

register-AllWaiting :
    (service : ApprovalService) (t : AgentState)
    → AllWaiting service
    → AllWaiting (after service (register_pending service t))
unfolding register_pending
register-AllWaiting service t w id s h =
    ground (arith, w id s, lookup-insert (text_or_empty t.case_id) id t service.pending)

perform-AllWaiting :
    (sv : Services) (service : ApprovalService) (c : Call)
    → AllWaiting service
    → AllWaiting (perform sv service c)
unfolding perform approve_case reject_case
perform-AllWaiting sv service (Call.register t) w = register-AllWaiting service t w
perform-AllWaiting sv service (Call.approve j who c) w = settle-AllWaiting service j _ w _
perform-AllWaiting sv service (Call.reject j who r) w = settle-AllWaiting service j _ w _

keeps_waiting :
    (sv : Services) (service : ApprovalService) (cs : List Call)
    → AllWaiting service
    → AllWaiting (perform_all sv service cs)
unfolding perform_all
keeps_waiting sv service [] w = w
keeps_waiting sv service (c ∷ cs) w =
    keeps_waiting sv (perform sv service c) cs (perform-AllWaiting sv service c w)

abbrev pub new_service : Option AuditLogger → ApprovalService
new_service audit = record { pending = []; decided = []; audit = audit }

started_waiting :
    (sv : Services) (audit : Option AuditLogger) (cs : List Call)
    → AllWaiting (perform_all sv (new_service audit) cs)
unfolding lookup
started_waiting sv audit cs =
    keeps_waiting sv (new_service audit) cs (λ id s h. absurd (ground arith))

-- After any calls on a new service, a case that is pending has the status of a case that waits for
-- approval.
pub new_service-pending :
    (sv : Services) (audit : Option AuditLogger) (cs : List Call) (id : String) (s : AgentState)
    → lookup id (perform_all sv (new_service audit) cs).pending ≡ some s
    → s.status ≡ some CaseStatus.waiting_approval
new_service-pending sv audit cs id s h = started_waiting sv audit cs id s h

settle-is_pending :
    (service : ApprovalService) (j : String) (k : AgentState → AgentState × Option AuditLogger)
    (who id : String) (s : AgentState)
    → lookup id service.decided ≡ some s
    → is_pending service id ≡ true
    → is_pending (after service (settle service j k (checked j who (get_pending service j)))) id
      ≡ true
unfolding settle checked get_pending is_pending contains
settle-is_pending service j k who id s d p = grind (arith, lookup-erase, str_eq_iff)

perform-is_pending :
    (sv : Services) (service : ApprovalService) (c : Call) (id : String) (s : AgentState)
    → lookup id service.decided ≡ some s
    → is_pending service id ≡ true
    → is_pending (perform sv service c) id ≡ true
unfolding perform register_pending approve_case reject_case
perform-is_pending sv service (Call.register t) id s d p =
    unfold is_pending contains in
    ground (arith, lookup-insert (text_or_empty t.case_id) id t service.pending)
perform-is_pending sv service (Call.approve j who c) id s d p =
    settle-is_pending service j _ who id s d p
perform-is_pending sv service (Call.reject j who r) id s d p =
    settle-is_pending service j _ who id s d p

-- A case that is both decided and pending stays pending through every history of calls.
pub perform_all-stuck :
    (sv : Services) (service : ApprovalService) (cs : List Call) (id : String) (s : AgentState)
    → lookup id service.decided ≡ some s
    → is_pending service id ≡ true
    → is_pending (perform_all sv service cs) id ≡ true
unfolding perform_all
perform_all-stuck sv service [] id s d p = p
perform_all-stuck sv service (c ∷ cs) id s d p =
    perform_all-stuck sv (perform sv service c) cs id s (perform-decided sv service c id s d)
      (perform-is_pending sv service c id s d p)
