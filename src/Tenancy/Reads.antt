-- ===== src/Tenancy/Reads.antt =====
-- What app/services/tenancy_service.py answers about tenants, provisioning jobs and snapshots.
use vixa_system_config_be.Base.{
  ℕ, ◌+◌, ◌-◌, ◌*◌, String, Option, none, some, Bool, true, false, List, [], ◌∷◌, ◌&&◌, not, str_eq,
  ltb, length, any, if◌then◌else◌,
}
use vixa_system_config_be.Runtime.{Key, Time}
use vixa_system_config_be.Models.User.{User}
use vixa_system_config_be.Models.Tenancy.{
  TenantTier, enterprise, premium, IsolationMode, TenantStatus, active, provisioning, suspended,
  decommissioned, Tenant, isolation_score, isolation_level, IsolationLevel, partial, breach,
  TenantMember, TenantMemberRole, owner, admin, analyst, viewer, BreachSeverity, critical, warning,
  TenantProvisioningJob, provisioning_steps, percent_complete, ProvisioningJobStatus, running,
  paused, complete, aborted, TenantBackupSnapshot, is_pending_snapshot,
}

-- the `value` of each enumeration
unfoldable pub tenant_tier_value : TenantTier → String
tenant_tier_value enterprise = "enterprise"
tenant_tier_value premium = "premium"
tenant_tier_value TenantTier.standard = "standard"

unfoldable pub isolation_mode_value : IsolationMode → String
isolation_mode_value IsolationMode.strict = "strict"
isolation_mode_value IsolationMode.standard = "standard"
isolation_mode_value IsolationMode.shared = "shared"

unfoldable pub tenant_status_value : TenantStatus → String
tenant_status_value active = "active"
tenant_status_value provisioning = "provisioning"
tenant_status_value suspended = "suspended"
tenant_status_value decommissioned = "decommissioned"

unfoldable pub member_role_value : TenantMemberRole → String
member_role_value owner = "owner"
member_role_value admin = "admin"
member_role_value analyst = "analyst"
member_role_value viewer = "viewer"

unfoldable pub breach_severity_value : BreachSeverity → String
breach_severity_value critical = "critical"
breach_severity_value warning = "warning"

unfoldable pub job_status_value : ProvisioningJobStatus → String
job_status_value running = "running"
job_status_value paused = "paused"
job_status_value complete = "complete"
job_status_value aborted = "aborted"

unfoldable pub isolation_level_value : IsolationLevel → String
isolation_level_value IsolationLevel.strict = "strict"
isolation_level_value partial = "partial"
isolation_level_value breach = "breach"
isolation_level_value IsolationLevel.pending = "pending"

pub record TenantRead : Type 0 where
  pub id : Key
  pub slug : String
  pub org_id : String
  pub display_name : String
  pub tier : String
  pub isolation_mode : String
  pub status : String
  pub region : String
  pub db_schema_name : String
  pub db_schema_valid : Bool
  pub network_cidr : Option String
  pub network_vpc : Option String
  pub network_shared : Bool
  pub dek_label : Option String
  pub encryption_valid : Bool
  pub events_per_second : String
  pub isolation_score : ℕ
  pub isolation_level : String

unfoldable pub tenant_to_read : Tenant → TenantRead
tenant_to_read t = record {
  id = t.id;
  slug = t.slug;
  org_id = t.org_id;
  display_name = t.display_name;
  tier = tenant_tier_value t.tier;
  isolation_mode = isolation_mode_value t.isolation_mode;
  status = tenant_status_value t.status;
  region = t.region;
  db_schema_name = t.db_schema_name;
  db_schema_valid = t.db_schema_valid;
  network_cidr = t.network_cidr;
  network_vpc = t.network_vpc;
  network_shared = t.network_shared;
  dek_label = t.dek_label;
  encryption_valid = t.encryption_valid;
  events_per_second = t.events_per_second;
  isolation_score = isolation_score t;
  isolation_level = isolation_level_value (isolation_level t);
}

pub record IsolationSummary : Type 0 where
  pub enforced : ℕ
  pub partial : ℕ
  pub breach : ℕ
  pub pending : ℕ
  pub total : ℕ

-- the four counters, after one more tenant
unfoldable pub add_level : IsolationLevel → IsolationSummary → IsolationSummary
add_level IsolationLevel.strict c = record c { enforced = c.enforced + 1 }
add_level partial c = record c { partial = c.partial + 1 }
add_level breach c = record c { breach = c.breach + 1 }
add_level IsolationLevel.pending c = record c { pending = c.pending + 1 }

unfoldable pub level_counts : List Tenant → IsolationSummary
level_counts [] = record { enforced = 0; partial = 0; breach = 0; pending = 0; total = 0 }
level_counts (t ∷ ts) = add_level (isolation_level t) (level_counts ts)

unfoldable pub isolation_summary : List Tenant → IsolationSummary
isolation_summary tenants = record (level_counts tenants) { total = length tenants }

-- `s in completed_steps`
abbrev pub has_text : String → List String → Bool
has_text s ss = any (λ x. str_eq x s) ss

-- `_STEP_LABELS[key]`, for the six keys
unfoldable pub step_label : String → String
step_label key =
    if str_eq key "org_namespace_created"
    then "Org namespace created"
    else if str_eq key "network_policy_applied"
    then "VPC + network policy applied"
    else if str_eq key "schema_migration"
    then "Schema migration running"
    else if str_eq key "dek_generation"
    then "DEK generation & HSM binding"
    else if str_eq key "isolation_validation"
    then "Isolation boundary validation"
    else "Initial backup snapshot"

pub record ProvisioningStepRead : Type 0 where
  pub key : String
  pub label : String
  pub status : String

pub record ProvisioningJobRead : Type 0 where
  pub id : Key
  pub tenant_slug : String
  pub status : String
  pub percent_complete : ℕ
  pub steps : List ProvisioningStepRead
  pub eta_seconds : Option ℕ

-- `job.current_step == step_key`
abbrev pub is_current : Option String → String → Bool
is_current none key = false
is_current (some c) key = str_eq c key

-- the loop over the steps; the flag is `reached_current`
unfoldable pub step_reads : TenantProvisioningJob → Bool → List String → List ProvisioningStepRead
step_reads job reached [] = []
step_reads job reached (key ∷ keys) =
    if has_text key job.completed_steps
    then record { key = key; label = step_label key; status = "done" } ∷ step_reads job reached keys
    else if not reached && is_current job.current_step key
    then record { key = key; label = step_label key; status = "in_progress" }
      ∷ step_reads job true keys
    else record { key = key; label = step_label key; status = "pending" }
      ∷ step_reads job reached keys

unfoldable pub provisioning_job_to_read : TenantProvisioningJob → String → ProvisioningJobRead
provisioning_job_to_read job tenant_slug = record {
  id = job.id;
  tenant_slug = tenant_slug;
  status = job_status_value job.status;
  percent_complete = percent_complete job;
  steps = step_reads job false provisioning_steps;
  eta_seconds = job.eta_seconds;
}

-- 24 hours; the comparison is of microseconds
abbrev pub stale_snapshot_after : Time
stale_snapshot_after = 24 * 3_600_000_000

-- `_effective_snapshot_status`; a snapshot taken after `now` is as young as one taken now
unfoldable pub effective_snapshot_status : TenantBackupSnapshot → Time → String
effective_snapshot_status s now =
    if is_pending_snapshot s.status then "pending" else elim s.taken_at [
      | none ↦ "current"
      | some taken ↦ if ltb stale_snapshot_after (now - taken) then "stale" else "current"
    ]

pub record TenantMemberRead : Type 0 where
  pub id : Key
  pub tenant_id : Key
  pub user_id : Key
  pub email : String
  pub display_name : String
  pub role : String
  pub created_at : Time

unfoldable pub tenant_member_to_read : TenantMember → User → TenantMemberRead
tenant_member_to_read m u = record {
  id = m.id;
  tenant_id = m.tenant_id;
  user_id = m.user_id;
  email = u.email;
  display_name = u.display_name;
  role = member_role_value m.role;
  created_at = m.created_at;
}
