-- ===== src/Tenancy/Sound.antt =====
-- What the tables of tenants, members and provisioning jobs keep.
use vixa_system_config_be.Base.{
  ℕ, Bool, true, false, List, [], ◌∷◌, ◌++◌, ◌≡◌, ◌≢◌, ap, ◌∙◌, inl, inr, arith, ◌==◌, ◌||◌, delete,
  In, In-append, In-delete, any, any_none, any-append_left, any-update, IsPairwise, IsPairwise-snoc,
  IsPairwise-delete,
}
use vixa_system_config_be.Runtime.{Key}
use vixa_system_config_be.Models.User.{User}
use vixa_system_config_be.Models.Tenancy.{
  Tenant, TenantMember, BreachAlert, TenantProvisioningJob, TenantSchemaValidation,
  TenantBackupSnapshot,
}
use vixa_system_config_be.Database.{Database}
use vixa_system_config_be.Tx.Keeps.{Keeps, Keeps-modify}
use vixa_system_config_be.Tenancy.Tables.{joins, write_tenant, write_alert}
use vixa_system_config_be.Tenancy.Orderly.{IsAt}

-- a row with the key
abbrev pub HasTenant : Key → Database → Type 0
HasTenant id d = any (λ (t : Tenant). t.id == id) d.tenants ≡ true

abbrev pub HasUser : Key → Database → Type 0
HasUser id d = any (λ (u : User). u.id == id) d.users ≡ true

abbrev pub Apart : TenantMember → TenantMember → Type 0
Apart a b = joins a.tenant_id a.user_id b ≡ false

abbrev pub OtherJob : TenantProvisioningJob → TenantProvisioningJob → Type 0
OtherJob a b = a.id ≢ b.id

-- Job ids are distinct and each job is some steps along; a user is a member of a tenant once; and
-- every member, job, validation and snapshot refers to a stored tenant, every member to a stored
-- user.
pub record IsSound (d : Database) : Type 0 where
  pub job_ids : IsPairwise OtherJob d.provisioning_jobs
  pub progress : (j : TenantProvisioningJob) → In j d.provisioning_jobs → (n : ℕ) × IsAt n j
  pub members_apart : IsPairwise Apart d.tenant_members
  pub job_tenant : (j : TenantProvisioningJob) → In j d.provisioning_jobs → HasTenant j.tenant_id d
  pub member_tenant : (m : TenantMember) → In m d.tenant_members → HasTenant m.tenant_id d
  pub member_user : (m : TenantMember) → In m d.tenant_members → HasUser m.user_id d
  pub validation_tenant :
      (v : TenantSchemaValidation) → In v d.schema_validations → HasTenant v.tenant_id d
  pub snapshot_tenant :
      (s : TenantBackupSnapshot) → In s d.backup_snapshots → HasTenant s.tenant_id d

-- The tenants have changed, and the stored tenants are stored still.
tenants_change :
    (d : Database) (ts : List Tenant)
    → ((id : Key) → HasTenant id d → any (λ (t : Tenant). t.id == id) ts ≡ true)
    → IsSound d
    → IsSound (record d { tenants = ts })
tenants_change d ts h s = record {
  job_ids = s.job_ids;
  progress = s.progress;
  members_apart = s.members_apart;
  job_tenant = λ j i. h j.tenant_id (s.job_tenant j i);
  member_tenant = λ m i. h m.tenant_id (s.member_tenant m i);
  member_user = s.member_user;
  validation_tenant = λ v i. h v.tenant_id (s.validation_tenant v i);
  snapshot_tenant = λ x i. h x.tenant_id (s.snapshot_tenant x i);
}

pub write_tenant-Keeps :
    (id : Key) (f : Tenant → Tenant)
    → ((t : Tenant) → (f t).id ≡ t.id)
    → Keeps IsSound (write_tenant id f)
unfolding write_tenant
write_tenant-Keeps id f same = Keeps-modify _ λ d s.
    tenants_change d _
      (λ k h.
        any-update (λ (t : Tenant). t.id == k) (λ (t : Tenant). t.id == id) f d.tenants
          (λ t. ap (λ x. x == k) (same t))
        ∙ h)
      s

pub write_alert-Keeps :
    (id : Key) (f : BreachAlert → BreachAlert) → Keeps IsSound (write_alert id f)
unfolding write_alert
write_alert-Keeps id f = Keeps-modify _ λ d s. record {
  job_ids = s.job_ids;
  progress = s.progress;
  members_apart = s.members_apart;
  job_tenant = s.job_tenant;
  member_tenant = s.member_tenant;
  member_user = s.member_user;
  validation_tenant = s.validation_tenant;
  snapshot_tenant = s.snapshot_tenant;
}

pub IsSound-new_tenant :
    (d : Database) (x : Tenant) → IsSound d → IsSound (record d { tenants = d.tenants ++ x ∷ [] })
IsSound-new_tenant d x s =
    tenants_change d _ (λ k h. any-append_left (λ (t : Tenant). t.id == k) d.tenants (x ∷ []) h) s

pub IsSound-new_job :
    (d : Database) (x : TenantProvisioningJob)
    → any (λ (r : TenantProvisioningJob). r.id == x.id) d.provisioning_jobs ≡ false
    → HasTenant x.tenant_id d
    → IsAt 0 x
    → IsSound d
    → IsSound (record d { provisioning_jobs = d.provisioning_jobs ++ x ∷ [] })
IsSound-new_job d x fresh tenant at s = record {
  job_ids =
      IsPairwise-snoc OtherJob d.provisioning_jobs x s.job_ids
        (λ q i. let k = any_none _ d.provisioning_jobs q fresh i in λ e. ground arith);
  progress = λ j i. elim (In-append j d.provisioning_jobs (x ∷ []) i) [
    | inl old ↦ s.progress j old
    | inr (inl e) ↦ (0, rw e at)
    | inr (inr nowhere) ↦ absurd nowhere
  ];
  members_apart = s.members_apart;
  job_tenant = λ j i. elim (In-append j d.provisioning_jobs (x ∷ []) i) [
    | inl old ↦ s.job_tenant j old
    | inr (inl e) ↦ rw e tenant
    | inr (inr nowhere) ↦ absurd nowhere
  ];
  member_tenant = s.member_tenant;
  member_user = s.member_user;
  validation_tenant = s.validation_tenant;
  snapshot_tenant = s.snapshot_tenant;
}

pub IsSound-new_member :
    (d : Database) (x : TenantMember)
    → any (λ (r : TenantMember). r.id == x.id || joins x.tenant_id x.user_id r) d.tenant_members
      ≡ false
    → HasTenant x.tenant_id d
    → HasUser x.user_id d
    → IsSound d
    → IsSound (record d { tenant_members = d.tenant_members ++ x ∷ [] })
IsSound-new_member d x fresh tenant user s = record {
  job_ids = s.job_ids;
  progress = s.progress;
  members_apart =
      IsPairwise-snoc Apart d.tenant_members x s.members_apart
        (λ q i. let k = any_none _ d.tenant_members q fresh i in ground arith);
  job_tenant = s.job_tenant;
  member_tenant = λ m i. elim (In-append m d.tenant_members (x ∷ []) i) [
    | inl old ↦ s.member_tenant m old
    | inr (inl e) ↦ rw e tenant
    | inr (inr nowhere) ↦ absurd nowhere
  ];
  member_user = λ m i. elim (In-append m d.tenant_members (x ∷ []) i) [
    | inl old ↦ s.member_user m old
    | inr (inl e) ↦ rw e user
    | inr (inr nowhere) ↦ absurd nowhere
  ];
  validation_tenant = s.validation_tenant;
  snapshot_tenant = s.snapshot_tenant;
}

pub IsSound-fewer_members :
    (d : Database) (p : TenantMember → Bool)
    → IsSound d
    → IsSound (record d { tenant_members = delete p d.tenant_members })
IsSound-fewer_members d p s = record {
  job_ids = s.job_ids;
  progress = s.progress;
  members_apart = IsPairwise-delete Apart p d.tenant_members s.members_apart;
  job_tenant = s.job_tenant;
  member_tenant = λ m i. s.member_tenant m (In-delete p d.tenant_members m i).0;
  member_user = λ m i. s.member_user m (In-delete p d.tenant_members m i).0;
  validation_tenant = s.validation_tenant;
  snapshot_tenant = s.snapshot_tenant;
}
