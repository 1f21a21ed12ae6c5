-- ===== src/Models/Tenancy.antt =====
-- Tenants and their rows, app/models/tenancy.py. The only numbers of the isolation score are 0, 20
-- and 40, so it is a natural number here; other floats are kept as their literals.
use vixa_system_config_be.Base.{
  ℕ, ◌+◌, ◌*◌, ◌/◌, String, Option, Bool, true, false, List, [], ◌∷◌, ◌||◌, not, length,
  if◌then◌else◌,
}
use vixa_system_config_be.Runtime.{Key, Time}

pub data TenantTier : Type 0 where
  enterprise premium standard : TenantTier

pub data IsolationMode : Type 0 where
  strict standard shared : IsolationMode

pub data TenantStatus : Type 0 where
  active provisioning suspended decommissioned : TenantStatus

abbrev pub is_provisioning : TenantStatus → Bool
is_provisioning provisioning = true
is_provisioning _ = false

pub record Tenant : Type 0 where
  pub id : Key
  pub slug : String
  pub org_id : String
  pub display_name : String
  pub tier : TenantTier
  pub isolation_mode : IsolationMode
  pub status : TenantStatus
  pub region : String
  pub db_schema_name : String
  pub db_schema_valid : Bool
  pub network_cidr : Option String
  pub network_vpc : Option String
  pub network_shared : Bool
  pub dek_label : Option String
  pub encryption_valid : Bool
  pub events_per_second : String

-- the properties `isolation_score` and `isolation_level`
unfoldable pub isolation_score : Tenant → ℕ
isolation_score t =
    (if t.db_schema_valid then 40 else 0)
    + (if not t.network_shared then 20 else 0)
    + (if t.encryption_valid then 40 else 0)

pub data IsolationLevel : Type 0 where
  strict partial breach pending : IsolationLevel

unfoldable pub isolation_level : Tenant → IsolationLevel
isolation_level t =
    if is_provisioning t.status
    then pending
    else if not t.db_schema_valid || not t.encryption_valid
    then breach
    else if t.network_shared
    then partial
    else IsolationLevel.strict

pub data TenantMemberRole : Type 0 where
  owner admin analyst viewer : TenantMemberRole

pub record TenantMember : Type 0 where
  pub id : Key
  pub tenant_id : Key
  pub user_id : Key
  pub role : TenantMemberRole
  pub created_at : Time

pub data BreachSeverity : Type 0 where
  critical warning : BreachSeverity

pub record BreachAlert : Type 0 where
  pub id : Key
  pub severity : BreachSeverity
  pub title : String
  pub description : String
  pub source_tenant_id : Option Key
  pub target_tenant_id : Option Key
  pub resource : Option String
  pub principal : Option String
  pub action_taken : Option String
  pub detected_at : Time
  pub dismissed : Bool
  pub dismissed_at : Option Time

-- `PROVISIONING_STEPS`
unfoldable pub provisioning_steps : List String
provisioning_steps =
    "org_namespace_created" ∷ "network_policy_applied" ∷ "schema_migration" ∷ "dek_generation"
    ∷ "isolation_validation" ∷ "initial_snapshot" ∷ []

pub data ProvisioningJobStatus : Type 0 where
  running paused complete aborted : ProvisioningJobStatus

abbrev pub is_running : ProvisioningJobStatus → Bool
is_running running = true
is_running _ = false

pub record TenantProvisioningJob : Type 0 where
  pub id : Key
  pub tenant_id : Key
  pub status : ProvisioningJobStatus
  pub completed_steps : List String
  pub current_step : Option String
  pub eta_seconds : Option ℕ
  pub created_at : Time

-- The property `percent_complete`: `round(n / 6 * 100)`, whose argument is never halfway between
-- two numbers.
unfoldable pub percent_complete : TenantProvisioningJob → ℕ
percent_complete j = (length j.completed_steps * 100 + 3) / 6

pub record TenantSchemaValidation : Type 0 where
  pub id : Key
  pub tenant_id : Key
  pub schema_name : String
  pub schema_version : String
  pub table_count : Option ℕ
  pub status : String
  pub detail : Option String
  pub validated_at : Time

pub data SnapshotStatus : Type 0 where
  current stale pending : SnapshotStatus

abbrev pub is_pending_snapshot : SnapshotStatus → Bool
is_pending_snapshot SnapshotStatus.pending = true
is_pending_snapshot _ = false

pub record TenantBackupSnapshot : Type 0 where
  pub id : Key
  pub tenant_id : Key
  pub status : SnapshotStatus
  pub size_bytes : Option ℕ
  pub taken_at : Option Time
  pub retention_days : ℕ
  pub retained_count : ℕ
  pub stale_reason : Option String
