-- ===== src/Tenancy/Tables.antt =====
-- The requests and the rows of app/services/tenancy_service.py: lookups, insertions with their
-- unique columns, writes and the cascade of a deletion.
use vixa_system_config_be.Base.{
  String, Option, none, some, Bool, true, false, [], ◌∷◌, ◌++◌, ◌&&◌, ◌||◌, str_eq, ◌==◌, map, find,
  any, update, delete, if◌then◌else◌,
}
use vixa_system_config_be.Runtime.{Key}
use vixa_system_config_be.Models.User.{User}
use vixa_system_config_be.Models.Anomaly.{AnomalyEvent}
use vixa_system_config_be.Models.Tenancy.{
  TenantTier, IsolationMode, TenantStatus, active, provisioning, suspended, decommissioned, Tenant,
  TenantMember, TenantMemberRole, BreachAlert, TenantProvisioningJob, TenantSchemaValidation,
  TenantBackupSnapshot,
}
use vixa_system_config_be.Database.{Database}
use vixa_system_config_be.Tx.{
  Tx, http, integrity, lookup, ◌>>=◌, ◌>>◌, pure, raise, or_raise, gets, modify, add_unless,
  rollback,
}
use vixa_system_config_be.Patch.{Patch, is_null, patch, patch_nullable}
use vixa_system_config_be.Tenancy.Reads.{TenantMemberRead, tenant_member_to_read}

pub record TenantCreate : Type 0 where
  pub slug : String
  pub org_id : String
  pub display_name : String
  pub tier : TenantTier
  pub isolation_mode : IsolationMode
  pub region : String
  pub db_schema_name : String
  pub network_cidr : Option String
  pub network_vpc : Option String
  pub network_shared : Bool
  pub dek_label : Option String

pub record TenantUpdate : Type 0 where
  pub display_name : Patch String
  pub tier : Patch TenantTier
  pub isolation_mode : Patch IsolationMode
  pub region : Patch String
  pub network_cidr : Patch String
  pub network_vpc : Patch String
  pub network_shared : Patch Bool
  pub dek_label : Patch String
  pub db_schema_valid : Patch Bool
  pub encryption_valid : Patch Bool
  pub events_per_second : Patch String

pub record TenantMemberCreate : Type 0 where
  pub user_id : Key
  pub role : TenantMemberRole

-- whether the flush violates a not-null constraint
unfoldable pub nulls_required : TenantUpdate → Bool
nulls_required p =
    is_null p.display_name
    || (is_null p.tier
        || (is_null p.isolation_mode
            || (is_null p.region
                || (is_null p.network_shared
                    || (is_null p.db_schema_valid
                        || (is_null p.encryption_valid || is_null p.events_per_second))))))

-- the `setattr` loop
unfoldable pub patched : TenantUpdate → Tenant → Tenant
patched p t = record t {
  display_name = patch p.display_name t.display_name;
  tier = patch p.tier t.tier;
  isolation_mode = patch p.isolation_mode t.isolation_mode;
  region = patch p.region t.region;
  network_cidr = patch_nullable p.network_cidr t.network_cidr;
  network_vpc = patch_nullable p.network_vpc t.network_vpc;
  network_shared = patch p.network_shared t.network_shared;
  dek_label = patch_nullable p.dek_label t.dek_label;
  db_schema_valid = patch p.db_schema_valid t.db_schema_valid;
  encryption_valid = patch p.encryption_valid t.encryption_valid;
  events_per_second = patch p.events_per_second t.events_per_second;
}

unfoldable pub new_tenant : Key → TenantCreate → Tenant
new_tenant id payload = record {
  id = id;
  slug = payload.slug;
  org_id = payload.org_id;
  display_name = payload.display_name;
  tier = payload.tier;
  isolation_mode = payload.isolation_mode;
  status = provisioning;
  region = payload.region;
  db_schema_name = payload.db_schema_name;
  db_schema_valid = false;
  network_cidr = payload.network_cidr;
  network_vpc = payload.network_vpc;
  network_shared = payload.network_shared;
  dek_label = payload.dek_label;
  encryption_valid = false;
  events_per_second = "0.0";
}

abbrev pub same_status : TenantStatus → TenantStatus → Bool
same_status active active = true
same_status provisioning provisioning = true
same_status suspended suspended = true
same_status decommissioned decommissioned = true
same_status _ _ = false

-- `db.get` by the primary key
abbrev pub find_tenant : Key → Database → Option Tenant
find_tenant id d = find (λ (t : Tenant). t.id == id) d.tenants

abbrev pub find_user : Key → Database → Option User
find_user id d = find (λ (u : User). u.id == id) d.users

abbrev pub find_alert : Key → Database → Option BreachAlert
find_alert id d = find (λ (a : BreachAlert). a.id == id) d.breach_alerts

abbrev pub find_job : Key → Database → Option TenantProvisioningJob
find_job id d = find (λ (j : TenantProvisioningJob). j.id == id) d.provisioning_jobs

unfoldable pub get_tenant : Key → Tx Tenant
get_tenant tenant_id = do
  found ← gets (find_tenant tenant_id)
  or_raise found (http 404 "Tenant not found")

-- `db.add(row); try: flush; except IntegrityError: rollback; raise`
unfoldable pub add_or_conflict : (Database → Bool) → String → (Database → Database) → Tx (Unit {0})
add_or_conflict clash detail f = do
  clashed ← gets clash
  if clashed then (rollback >> raise (http 409 detail)) else modify f

unfoldable pub add_tenant : Tenant → Tx (Unit {0})
add_tenant x =
    add_or_conflict
      (λ d.
        any (λ (r : Tenant). r.id == x.id || (str_eq r.slug x.slug || str_eq r.org_id x.org_id))
          d.tenants)
      "A tenant with this slug or org_id already exists"
      (λ d. record d { tenants = d.tenants ++ x ∷ [] })

unfoldable pub add_job : TenantProvisioningJob → Tx (Unit {0})
add_job x =
    add_unless (λ d. any (λ (r : TenantProvisioningJob). r.id == x.id) d.provisioning_jobs)
      (integrity "tenant_provisioning_jobs")
      (λ d. record d { provisioning_jobs = d.provisioning_jobs ++ x ∷ [] })

abbrev pub joins : Key → Key → TenantMember → Bool
joins tenant_id user_id m = m.tenant_id == tenant_id && m.user_id == user_id

unfoldable pub add_member : TenantMember → Tx (Unit {0})
add_member x =
    add_or_conflict
      (λ d.
        any (λ (r : TenantMember). r.id == x.id || joins x.tenant_id x.user_id r) d.tenant_members)
      "User is already a member of this tenant"
      (λ d. record d { tenant_members = d.tenant_members ++ x ∷ [] })

unfoldable pub write_tenant : Key → (Tenant → Tenant) → Tx (Unit {0})
write_tenant id f =
    modify (λ d. record d { tenants = update (λ (t : Tenant). t.id == id) f d.tenants })

unfoldable pub write_job : Key → (TenantProvisioningJob → TenantProvisioningJob) → Tx (Unit {0})
write_job id f = modify (λ d. record d {
  provisioning_jobs = update (λ (j : TenantProvisioningJob). j.id == id) f d.provisioning_jobs;
})

unfoldable pub write_alert : Key → (BreachAlert → BreachAlert) → Tx (Unit {0})
write_alert id f =
    modify
      (λ d. record d { breach_alerts = update (λ (a : BreachAlert). a.id == id) f d.breach_alerts })

-- the `user` of a member, which the answer reads
unfoldable pub member_to_read : TenantMember → Tx TenantMemberRead
member_to_read m = do
  found ← gets (find_user m.user_id)
  user ← or_raise found (lookup "users")
  pure (tenant_member_to_read m user)

-- `column == id`, for a column that may be null
abbrev pub is_key : Key → Option Key → Bool
is_key id none = false
is_key id (some k) = k == id

-- ON DELETE SET NULL
abbrev pub set_null : Key → Option Key → Option Key
set_null id o = if is_key id o then none else o

-- a tenant is deleted: its rows go with it, the other rows that name it forget it
unfoldable pub without_tenant : Key → Database → Database
without_tenant id d = record d {
  tenants = delete (λ (t : Tenant). t.id == id) d.tenants;
  tenant_members = delete (λ (m : TenantMember). m.tenant_id == id) d.tenant_members;
  provisioning_jobs = delete (λ (j : TenantProvisioningJob). j.tenant_id == id) d.provisioning_jobs;
  schema_validations =
      delete (λ (v : TenantSchemaValidation). v.tenant_id == id) d.schema_validations;
  backup_snapshots = delete (λ (s : TenantBackupSnapshot). s.tenant_id == id) d.backup_snapshots;
  breach_alerts =
      map
        (λ (a : BreachAlert). record a {
          source_tenant_id = set_null id a.source_tenant_id;
          target_tenant_id = set_null id a.target_tenant_id;
        })
        d.breach_alerts;
  anomaly_events =
      map (λ (e : AnomalyEvent). record e { tenant_id = set_null id e.tenant_id }) d.anomaly_events;
}
