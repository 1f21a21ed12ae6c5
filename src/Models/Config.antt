-- ===== src/Models/Config.antt =====
-- app/models/config.py.
use vixa_system_config_be.Base.{
  ℕ, String, Option, none, some, Bool, true, false, List, not, str_eq, is_some,
}
use vixa_system_config_be.Json.{Fields}
use vixa_system_config_be.Runtime.{Key, Time}

pub data ConfigTier : Type 0 where
  critical necessary optional : ConfigTier

pub data ConfigValueType : Type 0 where
  string integer boolean duration enum json : ConfigValueType

pub record ConfigParameter : Type 0 where
  pub id : Key
  pub key : String
  pub section : String
  pub tier : ConfigTier
  pub value_type : ConfigValueType
  pub active_value : String
  pub pending_value : Option String
  pub allowed_values : Option String
  pub is_sensitive : Bool
  pub requires_restart : Bool
  pub description : Option String

unfoldable pub has_pending_change : ConfigParameter → Bool
has_pending_change p = elim p.pending_value [
  | none ↦ false
  | some v ↦ not (str_eq v p.active_value)
]

pub data ConfigChangeStatus : Type 0 where
  pending applied reverted : ConfigChangeStatus

abbrev pub is_pending : ConfigChangeStatus → Bool
is_pending pending = true
is_pending _ = false

pub record ConfigChange : Type 0 where
  pub id : Key
  pub parameter_id : Key
  pub previous_value : String
  pub new_value : String
  pub reason : Option String
  pub changed_by : String
  pub status : ConfigChangeStatus
  pub applied_at : Option Time

pub data ConfigurationStatus : Type 0 where
  draft active archived : ConfigurationStatus

abbrev pub is_active : ConfigurationStatus → Bool
is_active active = true
is_active _ = false

abbrev pub is_archived : ConfigurationStatus → Bool
is_archived archived = true
is_archived _ = false

pub record Configuration : Type 0 where
  pub id : Key
  pub name : String
  pub version : ℕ
  pub status : ConfigurationStatus
  pub payload : Fields
  pub sensitive_keys : List String
  pub checksum : String
  pub description : Option String
  pub created_by : String
  pub activated_at : Option Time
  pub archived_at : Option Time
  pub deleted_at : Option Time

-- the property `is_deleted`
unfoldable pub is_deleted : Configuration → Bool
is_deleted c = is_some c.deleted_at
