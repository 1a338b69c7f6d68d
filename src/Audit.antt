-- ===== src/Audit.antt =====
-- The audit trail (src/fintech_agent/audit/audit_logger.py, src/fintech_agent/schemas/audit.py).
-- Parameters, in `AuditEnv`: the random identifiers (`uuid4`) and the masking of personal data
-- (src/fintech_agent/safety/pii_masking.py). The time stamp and the optional log file are not
-- modelled.
pub mod Trail
use back_office_fintech.Common.{
  ℕ, String, Bool, true, false, ◌&&◌, Option, none, some, List, [], ◌∷◌, ◌++◌, length, filter_by,
  str_eq, if◌then◌else◌,
}
use back_office_fintech.Common.Text.{concat}
use back_office_fintech.Common.Value.{Value, Elements, Fields, nat}
use back_office_fintech.Common.Value
use back_office_fintech.Schemas.Enums.{AuditEventType, audit_event_type_value}

pub record AuditEvent : Type 0 where
  pub event_id : String
  pub case_id : String
  pub actor : String
  pub event_type : AuditEventType
  pub previous_status : Option String
  pub new_status : Option String
  pub correlation_id : Option String
  pub details : Fields

-- What a caller of `log_event` writes.
pub record EventSpec : Type 0 where
  pub case_id : String
  pub actor : String
  pub event_type : AuditEventType
  pub previous_status : Option String
  pub new_status : Option String
  pub correlation_id : Option String
  pub details : Fields

pub record AuditLogger : Type 0 where
  pub events : List AuditEvent
  pub masks : Bool  -- `mask_pii_in_details`

pub record AuditEnv : Type 0 where
  pub new_event_id : ℕ → String
  pub mask_pii : String → String

-- `AuditLogger()`
abbrev pub new_logger : AuditLogger
new_logger = record { events = []; masks = true }

-- Texts are masked at the top and inside nested dictionaries; the texts of a list are left alone.
unfoldable mutual
  pub sanitize_value : (String → String) → Value → Value
  sanitize_value mask (Value.text s) = Value.text (mask s)
  sanitize_value mask (Value.dict d) = Value.dict (sanitize_fields mask d)
  sanitize_value mask (Value.list xs) = Value.list xs
  sanitize_value mask (Value.num n) = Value.num n
  sanitize_value mask (Value.bool b) = Value.bool b
  sanitize_value mask Value.null = Value.null

  pub sanitize_fields : (String → String) → Fields → Fields
  sanitize_fields mask Fields.no_fields = Fields.no_fields
  sanitize_fields mask (Fields.with_field k v rest) =
      Fields.with_field k (sanitize_value mask v) (sanitize_fields mask rest)

-- `_sanitize_details`
unfoldable pub sanitize_details : AuditEnv → AuditLogger → Fields → Fields
sanitize_details env logger d = if logger.masks then sanitize_fields env.mask_pii d else d

abbrev event_of : AuditEnv → AuditLogger → EventSpec → AuditEvent
event_of env logger spec = record {
  event_id = env.new_event_id (length logger.events);
  case_id = spec.case_id;
  actor = spec.actor;
  event_type = spec.event_type;
  previous_status = spec.previous_status;
  new_status = spec.new_status;
  correlation_id = spec.correlation_id;
  details = sanitize_details env logger spec.details;
}

unfoldable pub log_event : AuditEnv → AuditLogger → EventSpec → AuditLogger × AuditEvent
log_event env logger spec =
    let event = event_of env logger spec in
    (record logger { events = logger.events ++ event ∷ [] }, event)

unfoldable pub get_events_by_case : AuditLogger → String → List AuditEvent
get_events_by_case logger id = filter_by (λ e. str_eq e.case_id id) logger.events

abbrev same_type : AuditEventType → AuditEventType → Bool
same_type a b = str_eq (audit_event_type_value a) (audit_event_type_value b)

unfoldable pub get_events_by_type : AuditLogger → String → AuditEventType → List AuditEvent
get_events_by_type logger id t =
    filter_by (λ e. str_eq e.case_id id && same_type e.event_type t) logger.events

abbrev has_correlation : String → Option String → Bool
has_correlation id none = false
has_correlation id (some c) = str_eq c id

unfoldable pub get_events_by_correlation : AuditLogger → String → List AuditEvent
get_events_by_correlation logger id =
    filter_by (λ e. has_correlation id e.correlation_id) logger.events

unfoldable pub event_count : AuditLogger → ℕ
event_count logger = length logger.events

-- `if audit: ev = audit.log_event(...); audit_ids.append(ev.event_id)`
unfoldable pub log_if :
    AuditEnv → Option AuditLogger → EventSpec → List String → Option AuditLogger × List String
log_if env none spec ids = (none, ids)
log_if env (some logger) spec ids =
    let (logger', event) = log_event env logger spec in (some logger', ids ++ event.event_id ∷ [])

-- An event with no status, no correlation and the default actor.
abbrev pub spec_of : String → AuditEventType → Fields → EventSpec
spec_of id t d = record {
  case_id = id;
  actor = "agent";
  event_type = t;
  previous_status = none;
  new_status = none;
  correlation_id = none;
  details = d;
}
