-- ===== src/Audit/Trail.antt =====
-- What the audit trail keeps.
use back_office_fintech.Common.{ℕ, Bool, List, [], ◌∷◌, ◌≡◌, if◌then◌else◌}
use back_office_fintech.Common.Value.{Fields}
use back_office_fintech.Audit.{
  AuditEnv, AuditEvent, AuditLogger, EventSpec, log_event, sanitize_fields,
}

-- Several calls of `log_event`, one after the other.
unfoldable pub log_all : AuditEnv → AuditLogger → List EventSpec → AuditLogger
log_all env logger [] = logger
log_all env logger (x ∷ xs) = log_all env (log_event env logger x).0 xs

-- What is stored of the details.
abbrev masked_if : AuditEnv → Bool → Fields → Fields
masked_if env masks d = if masks then sanitize_fields env.mask_pii d else d

-- The event has what the caller wrote, with the details masked where the logger masks.
pub record IsEventOf (env : AuditEnv) (masks : Bool) (x : EventSpec) (e : AuditEvent) : Type 0 where
  pub id : (n : ℕ) × (e.event_id ≡ env.new_event_id n)
  pub case_id : e.case_id ≡ x.case_id
  pub actor : e.actor ≡ x.actor
  pub event_type : e.event_type ≡ x.event_type
  pub previous : e.previous_status ≡ x.previous_status
  pub new : e.new_status ≡ x.new_status
  pub correlation : e.correlation_id ≡ x.correlation_id
  pub details : e.details ≡ masked_if env masks x.details

-- One event for each call, in the order of the calls.
abbrev pub AreEventsOf : AuditEnv → Bool → List EventSpec → List AuditEvent → Type 0
AreEventsOf env masks [] [] = Unit
AreEventsOf env masks [] (e ∷ es) = ⊥
AreEventsOf env masks (x ∷ xs) [] = ⊥
AreEventsOf env masks (x ∷ xs) (e ∷ es) = IsEventOf env masks x e × AreEventsOf env masks xs es
