-- ===== src/Tenancy/Cascade.antt =====
-- Deleting a tenant: what it leaves of the tables, and that they stay sound.
use vixa_system_config_be.Base.{
  Option, none, some, Bool, true, false, not, List, [], ◌∷◌, ◌≡◌, refl, arith, ◌==◌, map, filter,
  delete-filter, In-delete, any-delete, IsPairwise-delete, if◌then◌else◌,
}
use vixa_system_config_be.Runtime.{Key}
use vixa_system_config_be.Models.Tenancy.{
  Tenant, TenantMember, TenantProvisioningJob, TenantSchemaValidation, TenantBackupSnapshot,
  BreachAlert,
}
use vixa_system_config_be.Models.Anomaly.{AnomalyEvent}
use vixa_system_config_be.Database.{Database}
use vixa_system_config_be.Tenancy.Tables.{without_tenant, set_null}
use vixa_system_config_be.Tenancy.Sound.{HasTenant, IsSound, OtherJob, Apart}

-- a tenant that is not the deleted one is stored still
still_stored :
    (id k : Key) (d : Database)
    → HasTenant k d
    → (k == id) ≡ false
    → HasTenant k (without_tenant id d)
unfolding without_tenant
still_stored id k d h e =
    any-delete (λ (t : Tenant). t.id == k) (λ (t : Tenant). t.id == id) d.tenants
      (λ t same. ground arith) h

pub IsSound-without_tenant : (id : Key) (d : Database) → IsSound d → IsSound (without_tenant id d)
unfolding without_tenant
IsSound-without_tenant id d s = record {
  job_ids = IsPairwise-delete OtherJob _ d.provisioning_jobs s.job_ids;
  progress = λ j i. s.progress j (In-delete _ d.provisioning_jobs j i).0;
  members_apart = IsPairwise-delete Apart _ d.tenant_members s.members_apart;
  job_tenant = λ j i.
      let (k, e) = In-delete _ d.provisioning_jobs j i in
      still_stored id j.tenant_id d (s.job_tenant j k) e;
  member_tenant = λ m i.
      let (k, e) = In-delete _ d.tenant_members m i in
      still_stored id m.tenant_id d (s.member_tenant m k) e;
  member_user = λ m i. s.member_user m (In-delete _ d.tenant_members m i).0;
  validation_tenant = λ v i.
      let (k, e) = In-delete _ d.schema_validations v i in
      still_stored id v.tenant_id d (s.validation_tenant v k) e;
  snapshot_tenant = λ x i.
      let (k, e) = In-delete _ d.backup_snapshots x i in
      still_stored id x.tenant_id d (s.snapshot_tenant x k) e;
}

-- a foreign key that has been set to null where it was the given one
abbrev forgets : Key → Option Key → Option Key
forgets id none = none
forgets id (some k) = if k == id then none else some k

-- The tables after the deletion of a tenant, table by table.
pub record IsWithout (id : Key) (before after : Database) : Type 0 where
  pub tenants : after.tenants ≡ filter (λ (t : Tenant). not (t.id == id)) before.tenants
  pub members :
      after.tenant_members
      ≡ filter (λ (m : TenantMember). not (m.tenant_id == id)) before.tenant_members
  pub jobs :
      after.provisioning_jobs
      ≡ filter (λ (j : TenantProvisioningJob). not (j.tenant_id == id)) before.provisioning_jobs
  pub validations :
      after.schema_validations
      ≡ filter (λ (v : TenantSchemaValidation). not (v.tenant_id == id)) before.schema_validations
  pub snapshots :
      after.backup_snapshots
      ≡ filter (λ (s : TenantBackupSnapshot). not (s.tenant_id == id)) before.backup_snapshots
  pub alerts :
      after.breach_alerts
      ≡ map
          (λ (a : BreachAlert). record a {
            source_tenant_id = forgets id a.source_tenant_id;
            target_tenant_id = forgets id a.target_tenant_id;
          })
          before.breach_alerts
  pub anomalies :
      after.anomaly_events
      ≡ map
          (λ (e : AnomalyEvent). record e { tenant_id = forgets id e.tenant_id })
          before.anomaly_events
  pub others : after ≡ record before {
    tenants = after.tenants;
    tenant_members = after.tenant_members;
    provisioning_jobs = after.provisioning_jobs;
    schema_validations = after.schema_validations;
    backup_snapshots = after.backup_snapshots;
    breach_alerts = after.breach_alerts;
    anomaly_events = after.anomaly_events;
  }

map-same : {A B : Type 0} (f g : A → B) (xs : List A) → ((x : A) → f x ≡ g x) → map f xs ≡ map g xs
map-same f g [] h = refl
map-same f g (x ∷ xs) h = rw (h x, map-same f g xs h) refl

twice : (b : Bool) → b ≡ not (not b)
twice true = refl
twice false = refl

set_null-forgets : (id : Key) (o : Option Key) → set_null id o ≡ forgets id o
set_null-forgets id none = refl
set_null-forgets id (some k) = refl

pub without_tenant-IsWithout : (id : Key) (d : Database) → IsWithout id d (without_tenant id d)
unfolding without_tenant
without_tenant-IsWithout id d = record {
  tenants = delete-filter _ _ d.tenants (λ t i. twice (t.id == id));
  members = delete-filter _ _ d.tenant_members (λ m i. twice (m.tenant_id == id));
  jobs = delete-filter _ _ d.provisioning_jobs (λ j i. twice (j.tenant_id == id));
  validations = delete-filter _ _ d.schema_validations (λ v i. twice (v.tenant_id == id));
  snapshots = delete-filter _ _ d.backup_snapshots (λ s i. twice (s.tenant_id == id));
  alerts = map-same _ _ d.breach_alerts (λ a.
      rw (set_null-forgets id a.source_tenant_id, set_null-forgets id a.target_tenant_id) refl);
  anomalies = map-same _ _ d.anomaly_events (λ e. rw (set_null-forgets id e.tenant_id) refl);
  others = refl;
}
