-- ===== src/Tenancy/Overview.antt =====
-- The reads of app/services/tenancy_service.py over several tables: members, usage and overview.
use vixa_system_config_be.Base.{
  ℕ, ◌-◌, String, Option, none, some, Bool, true, List, [], ◌∷◌, ◌&&◌, not, ◌==◌, leb, map, filter,
  count, sort_by, order_asc, order_desc, take,
}
use vixa_system_config_be.Runtime.{Runtime, Key, Time}
use vixa_system_config_be.Models.Tenancy.{
  Tenant, isolation_score, isolation_level, TenantMember, BreachAlert, TenantProvisioningJob,
  is_running, TenantSchemaValidation, TenantBackupSnapshot, is_pending_snapshot,
}
use vixa_system_config_be.Database.{Database}
use vixa_system_config_be.Tx.{Tx, lookup, ◌>>=◌, ◌>>◌, pure, or_raise, gets, now}
use vixa_system_config_be.Tenancy.Reads.{
  TenantRead, tenant_to_read, tenant_status_value, isolation_level_value, IsolationSummary,
  isolation_summary, breach_severity_value, ProvisioningJobRead, provisioning_job_to_read,
  stale_snapshot_after, effective_snapshot_status, TenantMemberRead,
}
use vixa_system_config_be.Tenancy.Tables.{find_tenant, get_tenant, member_to_read}

-- a list comprehension whose rows are read one by one
unfoldable pub read_each : {A B : Type 0} → (A → Tx B) → List A → Tx (List B)
read_each read [] = pure []
read_each read (x ∷ xs) = do y ← read x; ys ← read_each read xs; pure (y ∷ ys)

unfoldable pub list_tenant_members : Key → Tx (List TenantMemberRead)
list_tenant_members tenant_id = do
  get_tenant tenant_id
  rows ← gets (λ d.
      order_asc (λ (m : TenantMember). m.created_at)
        (filter (λ (m : TenantMember). m.tenant_id == tenant_id) d.tenant_members))
  read_each member_to_read rows

pub record TenantUsageSummary : Type 0 where
  pub tenant_id : Key
  pub slug : String
  pub display_name : String
  pub status : String
  pub member_count : ℕ
  pub events_per_second : String
  pub provisioning_jobs_total : ℕ
  pub active_provisioning_jobs : ℕ
  pub schema_validations_total : ℕ
  pub backup_snapshots_total : ℕ
  pub current_backup_snapshots : ℕ
  pub isolation_score : ℕ
  pub isolation_level : String

-- the condition of the count of current snapshots
unfoldable pub is_current_snapshot : Key → Time → TenantBackupSnapshot → Bool
is_current_snapshot tenant_id stale_cutoff s =
    s.tenant_id == tenant_id
    && (not (is_pending_snapshot s.status)
        && elim s.taken_at [ none ↦ true | some taken ↦ leb stale_cutoff taken ])

pub record BreachAlertRead : Type 0 where
  pub id : Key
  pub severity : String
  pub title : String
  pub description : String
  pub source_tenant_slug : Option String
  pub target_tenant_slug : Option String
  pub resource : Option String
  pub principal : Option String
  pub action_taken : Option String
  pub detected_at : Time
  pub dismissed : Bool

pub record TenantSchemaValidationRead : Type 0 where
  pub tenant_slug : String
  pub schema_name : String
  pub schema_version : String
  pub table_count : Option ℕ
  pub status : String
  pub detail : Option String
  pub validated_at : Time

pub record BackupSnapshotRead : Type 0 where
  pub tenant_slug : String
  pub status : String
  pub size_bytes : Option ℕ
  pub taken_at : Option Time
  pub age_hours : Option String
  pub retention_days : ℕ
  pub retained_count : ℕ
  pub stale_reason : Option String

pub record TenancyOverview : Type 0 where
  pub tenants : List TenantRead
  pub isolation_summary : IsolationSummary
  pub breach_alerts : List BreachAlertRead
  pub active_provisioning : List ProvisioningJobRead
  pub schema_validations : List TenantSchemaValidationRead
  pub backup_snapshots : List BackupSnapshotRead
  pub total_events_per_second : String

-- `tenants_by_id.get(id).slug if id in tenants_by_id else None`
abbrev pub slug_of : Database → Option Key → Option String
slug_of d none = none
slug_of d (some id) = elim (find_tenant id d) [ none ↦ none | some t ↦ some t.slug ]

unfoldable pub breach_alert_to_read : Database → BreachAlert → BreachAlertRead
breach_alert_to_read d a = record {
  id = a.id;
  severity = breach_severity_value a.severity;
  title = a.title;
  description = a.description;
  source_tenant_slug = slug_of d a.source_tenant_id;
  target_tenant_slug = slug_of d a.target_tenant_id;
  resource = a.resource;
  principal = a.principal;
  action_taken = a.action_taken;
  detected_at = a.detected_at;
  dismissed = a.dismissed;
}

-- `if j.tenant is not None`
unfoldable pub jobs_with_tenant : Database → List TenantProvisioningJob → List ProvisioningJobRead
jobs_with_tenant d [] = []
jobs_with_tenant d (j ∷ js) = elim (find_tenant j.tenant_id d) [
  | none ↦ jobs_with_tenant d js
  | some t ↦ provisioning_job_to_read j t.slug ∷ jobs_with_tenant d js
]

-- `row.tenant`, whose slug the answer reads
unfoldable pub tenant_of : Key → Tx Tenant
tenant_of tenant_id = do found ← gets (find_tenant tenant_id); or_raise found (lookup "tenants")

unfoldable pub validation_to_read : TenantSchemaValidation → Tx TenantSchemaValidationRead
validation_to_read v = do
  tenant ← tenant_of v.tenant_id
  pure (record {
    tenant_slug = tenant.slug;
    schema_name = v.schema_name;
    schema_version = v.schema_version;
    table_count = v.table_count;
    status = v.status;
    detail = v.detail;
    validated_at = v.validated_at;
  })

module _ ⦃rt : Runtime⦄ where
  unfoldable pub snapshot_to_read : Time → TenantBackupSnapshot → Tx BackupSnapshotRead
  snapshot_to_read at s = do
    tenant ← tenant_of s.tenant_id
    pure (record {
      tenant_slug = tenant.slug;
      status = effective_snapshot_status s at;
      size_bytes = s.size_bytes;
      taken_at = s.taken_at;
      age_hours = elim s.taken_at [ none ↦ none | some taken ↦ some (rt.hours_text at taken) ];
      retention_days = s.retention_days;
      retained_count = s.retained_count;
      stale_reason = s.stale_reason;
    })

  unfoldable pub get_tenancy_overview : Tx TenancyOverview
  get_tenancy_overview = do
    at ← now
    tenants ←
        gets (λ d. sort_by (λ (a b : Tenant). rt.collate a.display_name b.display_name) d.tenants)
    alerts ← gets (λ d. map (breach_alert_to_read d) (
        order_desc (λ (a : BreachAlert). a.detected_at)
          (filter (λ (a : BreachAlert). not a.dismissed) d.breach_alerts)))
    jobs ← gets (λ d.
        jobs_with_tenant d
          (order_desc (λ (j : TenantProvisioningJob). j.created_at) d.provisioning_jobs))
    rows ← gets (λ d.
        take 20 (order_desc (λ (v : TenantSchemaValidation). v.validated_at) d.schema_validations))
    snapshots ← gets (λ d. d.backup_snapshots)
    validations ← read_each validation_to_read rows
    backups ← read_each (snapshot_to_read at) snapshots
    pure (record {
      tenants = map tenant_to_read tenants;
      isolation_summary = isolation_summary tenants;
      breach_alerts = alerts;
      active_provisioning = jobs;
      schema_validations = validations;
      backup_snapshots = backups;
      total_events_per_second = rt.sum_text (map (λ (t : Tenant). t.events_per_second) tenants);
    })

  unfoldable pub get_tenant_usage : Key → Tx TenantUsageSummary
  get_tenant_usage tenant_id = do
    tenant ← get_tenant tenant_id
    at ← now
    gets (λ d. record {
      tenant_id = tenant.id;
      slug = tenant.slug;
      display_name = tenant.display_name;
      status = tenant_status_value tenant.status;
      member_count = count (λ (m : TenantMember). m.tenant_id == tenant_id) d.tenant_members;
      events_per_second = tenant.events_per_second;
      provisioning_jobs_total =
          count (λ (j : TenantProvisioningJob). j.tenant_id == tenant_id) d.provisioning_jobs;
      active_provisioning_jobs =
          count (λ (j : TenantProvisioningJob). j.tenant_id == tenant_id && is_running j.status)
            d.provisioning_jobs;
      schema_validations_total =
          count (λ (v : TenantSchemaValidation). v.tenant_id == tenant_id) d.schema_validations;
      backup_snapshots_total =
          count (λ (s : TenantBackupSnapshot). s.tenant_id == tenant_id) d.backup_snapshots;
      current_backup_snapshots =
          count (is_current_snapshot tenant_id (at - stale_snapshot_after)) d.backup_snapshots;
      isolation_score = isolation_score tenant;
      isolation_level = isolation_level_value (isolation_level tenant);
    })
