-- ===== src/Models/Audit.antt =====
-- app/models/audit.py and the create schema of app/schemas/audit.py.
use vixa_system_config_be.Base.{
  ℕ, String, Option, none, some, Bool, false, is_some, ◌≡◌, arith, ◌||◌, str_eq, eq_iff,
  if◌then◌else◌,
}
use vixa_system_config_be.Json.{Fields}
use vixa_system_config_be.Runtime.{Key, Time}

pub data AuditSeverity : Type 0 where
  critical warning info : AuditSeverity

pub data AuditEventType : Type 0 where
  state_change auth_event config_change policy_eval tenant_lifecycle key_operation
        anomaly_detected :
      AuditEventType

unfoldable pub severity_value : AuditSeverity → String
severity_value critical = "critical"
severity_value warning = "warning"
severity_value info = "info"

unfoldable pub event_type_value : AuditEventType → String
event_type_value state_change = "state_change"
event_type_value auth_event = "auth_event"
event_type_value config_change = "config_change"
event_type_value policy_eval = "policy_eval"
event_type_value tenant_lifecycle = "tenant_lifecycle"
event_type_value key_operation = "key_operation"
event_type_value anomaly_detected = "anomaly_detected"

-- The member that an `Enum` column with `validate_strings` stores for a text: it is looked up among
-- the members, which compare as their values, and among their names. Other texts are refused.
unfoldable pub severity_of : String → Option AuditSeverity
severity_of s =
    if str_eq s "critical" || str_eq s "CRITICAL"
    then some critical
    else if str_eq s "warning" || str_eq s "WARNING"
    then some warning
    else if str_eq s "info" || str_eq s "INFO"
    then some info
    else none

unfoldable pub event_type_valued : String → Option AuditEventType
event_type_valued s =
    if str_eq s "state_change"
    then some state_change
    else if str_eq s "auth_event"
    then some auth_event
    else if str_eq s "config_change"
    then some config_change
    else if str_eq s "policy_eval"
    then some policy_eval
    else if str_eq s "tenant_lifecycle"
    then some tenant_lifecycle
    else if str_eq s "key_operation"
    then some key_operation
    else if str_eq s "anomaly_detected"
    then some anomaly_detected
    else none

unfoldable pub event_type_named : String → Option AuditEventType
event_type_named s =
    if str_eq s "STATE_CHANGE"
    then some state_change
    else if str_eq s "AUTH_EVENT"
    then some auth_event
    else if str_eq s "CONFIG_CHANGE"
    then some config_change
    else if str_eq s "POLICY_EVAL"
    then some policy_eval
    else if str_eq s "TENANT_LIFECYCLE"
    then some tenant_lifecycle
    else if str_eq s "KEY_OPERATION"
    then some key_operation
    else if str_eq s "ANOMALY_DETECTED"
    then some anomaly_detected
    else none

-- a text that is the name of a member, not its value
unfoldable pub is_severity_name : String → Bool
is_severity_name s = str_eq s "CRITICAL" || (str_eq s "WARNING" || (str_eq s "INFO"))

unfoldable pub is_event_type_name : String → Bool
is_event_type_name s = is_some (event_type_named s)

unfoldable pub event_type_of : String → Option AuditEventType
event_type_of s = if is_event_type_name s then event_type_named s else event_type_valued s

-- Unless the text is a name, the stored member has the text that was given.
pub severity_value-of :
    (s : String) (v : AuditSeverity)
    → severity_of s ≡ some v
    → is_severity_name s ≡ false
    → severity_value v ≡ s
unfolding severity_of severity_value is_severity_name
severity_value-of s v h n = ground (arith, eq_iff s "critical", eq_iff s "warning", eq_iff s "info")

event_type_value-valued :
    (s : String) (v : AuditEventType) → event_type_valued s ≡ some v → event_type_value v ≡ s
unfolding event_type_valued event_type_value
event_type_value-valued s v h = ground (
  arith,
  eq_iff s "state_change",
  eq_iff s "auth_event",
  eq_iff s "config_change",
  eq_iff s "policy_eval",
  eq_iff s "tenant_lifecycle",
  eq_iff s "key_operation",
  eq_iff s "anomaly_detected",
)

pub event_type_value-of :
    (s : String) (v : AuditEventType)
    → event_type_of s ≡ some v
    → is_event_type_name s ≡ false
    → event_type_value v ≡ s
unfolding event_type_of
event_type_value-of s v h n = event_type_value-valued s v (rw n at h)

pub record AuditLogEntry : Type 0 where
  pub id : Key
  pub sequence : ℕ
  pub occurred_at : Time
  pub severity : AuditSeverity
  pub event_type : AuditEventType
  pub event_subtype : String
  pub tenant_id : Option Key
  pub tenant_slug : Option String
  pub actor : String
  pub source_ip : Option String
  pub description : String
  pub metadata_json : Fields
  pub prev_hash : Option String
  pub entry_hash : String
  pub signing_key_id : String
  pub signature : String
  pub created_at : Time

pub record AuditLogEntryCreate : Type 0 where
  pub severity : String
  pub event_type : String
  pub event_subtype : String
  pub actor : String
  pub description : String
  pub tenant_id : Option Key
  pub tenant_slug : Option String
  pub source_ip : Option String
  pub metadata_json : Fields
