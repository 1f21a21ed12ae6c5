-- ===== src/Tests/TenancyRuns.antt =====
-- Runs of provisioning, usage and deletion of tenants.
use vixa_system_config_be.Base.{
  none, some, true, false, List, [], ◌∷◌, ◌≡◌, ◌⊎◌, false, ◌≤◌, ◌↔◌, refl, inl, inr, find, any,
  count, update, delete, head?,
}
use vixa_system_config_be.Models.Tenancy.{
  Tenant, premium, IsolationMode, provisioning, active, decommissioned, aborted,
  TenantProvisioningJob, running, provisioning_steps, percent_complete, TenantBackupSnapshot,
  SnapshotStatus, isolation_level, isolation_score, viewer,
}
use vixa_system_config_be.Tenancy.Tables.{TenantCreate, get_tenant, write_job, write_tenant}
use vixa_system_config_be.Tenancy.Reads.{tenant_status_value, isolation_level_value}
use vixa_system_config_be.Tenancy.Overview.{
  TenantUsageSummary, get_tenant_usage, get_tenancy_overview, is_current_snapshot,
}
use vixa_system_config_be.Tenancy.{
  TenancyRequest, creating, joining, advancing, manage, manage_all, advance_provisioning_job,
  advance_step, remaining_steps, advanced, activate_if_done, delete_tenant,
}
use vixa_system_config_be.Tenancy.Orderly.{IsAt-fresh}
use vixa_system_config_be.Tenancy.Sound.{IsSound}
use vixa_system_config_be.Tenancy.Progress.{
  advance_times, IsProvisioned, provisioning_completes, percent_in_bounds,
}
use vixa_system_config_be.Tenancy.Cascade.{IsWithout}
use vixa_system_config_be.Tenancy.Answers.{
  overview_answers, usage_counts_current, delete_tenant_outcome, is_said_current,
}
use vixa_system_config_be.Tx.{World, ok, is_ok, request, discard, ◌>>=◌}
use vixa_system_config_be.Tests.Demo.{demo, blank}

abbrev acme : Tenant
acme = record {
  id = 1;
  slug = "acme";
  org_id = "ORG-1";
  display_name = "Acme";
  tier = premium;
  isolation_mode = IsolationMode.strict;
  status = provisioning;
  region = "eu";
  db_schema_name = "acme";
  db_schema_valid = false;
  network_cidr = none;
  network_vpc = none;
  network_shared = false;
  dek_label = none;
  encryption_valid = false;
  events_per_second = "0.0";
}

abbrev job : TenantProvisioningJob
job = record {
  id = 5;
  tenant_id = 1;
  status = running;
  completed_steps = [];
  current_step = head? provisioning_steps;
  eta_seconds = none;
  created_at = 0;
}

abbrev snapshot : TenantBackupSnapshot
snapshot = record {
  id = 8;
  tenant_id = 1;
  status = SnapshotStatus.current;
  size_bytes = none;
  taken_at = some 0;
  retention_days = 30;
  retained_count = 1;
  stale_reason = none;
}

abbrev started : World
started = record blank {
  database = record blank.database {
    tenants = acme ∷ [];
    provisioning_jobs = job ∷ [];
    backup_snapshots = snapshot ∷ [];
  };
}

started-IsSound : IsSound started.database
unfolding any
started-IsSound = record {
  job_ids = ((λ q i. absurd i), tt);
  progress =
      λ j i. elim i [ inl e ↦ (0, rw e (IsAt-fresh job refl refl)) | inr nowhere ↦ absurd nowhere ];
  members_apart = tt;
  job_tenant = λ j i. elim i [ inl e ↦ rw e refl | inr nowhere ↦ absurd nowhere ];
  member_tenant = λ m i. absurd i;
  member_user = λ m i. absurd i;
  validation_tenant = λ v i. absurd i;
  snapshot_tenant = λ s i. elim i [ inl e ↦ rw e refl | inr nowhere ↦ absurd nowhere ];
}

abbrev another : TenantCreate
another = record {
  slug = "globex";
  org_id = "ORG-2";
  display_name = "Globex";
  tier = premium;
  isolation_mode = IsolationMode.strict;
  region = "eu";
  db_schema_name = "globex";
  network_cidr = none;
  network_vpc = none;
  network_shared = false;
  dek_label = none;
}

abbrev work : List TenancyRequest
work = advancing 5 ∷ creating another ∷ joining 1 (record { user_id = 9; role = viewer }) ∷ []

overview_answers_example : is_ok (request get_tenancy_overview (manage_all started work)).0 ≡ true
overview_answers_example = overview_answers work started started-IsSound

abbrev further : TenantProvisioningJob
further = record job {
  completed_steps = "org_namespace_created" ∷ [];
  current_step = some "network_policy_applied";
}

one_advance : (manage_all started (advancing 5 ∷ [])).database.provisioning_jobs ≡ further ∷ []
unfolding manage_all manage request discard advance_provisioning_job advance_step remaining_steps
    advanced activate_if_done write_job provisioning_steps find update delete any ◌>>=◌
one_advance = refl

percent_in_bounds_example :
    (percent_complete further ≤ 100)
    × ((percent_complete further ≡ 100) ↔ (further.current_step ≡ none))
percent_in_bounds_example =
    percent_in_bounds (advancing 5 ∷ []) started further started-IsSound (rw one_advance (inl refl))

provisioning_completes_example :
    ((advance_times 6 5 started).0 ≡ true)
    × IsProvisioned job started.database (advance_times 6 5 started).1.database
unfolding find
provisioning_completes_example =
    provisioning_completes 5 0 job started refl (IsAt-fresh job refl refl) refl

abbrev usage : TenantUsageSummary
usage = record {
  tenant_id = 1;
  slug = "acme";
  display_name = "Acme";
  status = "provisioning";
  member_count = 0;
  events_per_second = "0.0";
  provisioning_jobs_total = 1;
  active_provisioning_jobs = 1;
  schema_validations_total = 0;
  backup_snapshots_total = 1;
  current_backup_snapshots = 1;
  isolation_score = 20;
  isolation_level = "pending";
}

usage_runs : (request (get_tenant_usage 1) started).0 ≡ ok usage
unfolding request get_tenant_usage get_tenant find count is_current_snapshot tenant_status_value
    isolation_level_value isolation_level isolation_score ◌>>=◌
usage_runs = refl

usage_counts_current_example :
    1 ≡ count (is_said_current 1 (demo.now 0)) started.database.backup_snapshots
usage_counts_current_example = usage_counts_current 1 started usage usage_runs

delete_tenant_outcome_example :
    let after = (request (delete_tenant 1) started).1.database in
    let answered = is_ok (request (delete_tenant 1) started).0 in
    ((true ≡ true) × (answered ≡ true) × IsWithout 1 started.database after)
    ⊎ ((true ≡ false) × (answered ≡ false) × (after ≡ started.database))
unfolding any
delete_tenant_outcome_example = delete_tenant_outcome 1 started

-- The last step of an aborted job of a decommissioned tenant activates the tenant.
abbrev aborted_job : TenantProvisioningJob
aborted_job = record job {
  status = aborted;
  completed_steps =
      "org_namespace_created" ∷ "network_policy_applied" ∷ "schema_migration" ∷ "dek_generation"
      ∷ "isolation_validation" ∷ [];
  current_step = some "initial_snapshot";
}

abbrev given_up : World
given_up = record started {
  database = record started.database {
    tenants = record acme { status = decommissioned } ∷ [];
    provisioning_jobs = aborted_job ∷ [];
  };
}

aborted_then_active :
    (request (advance_provisioning_job 5) given_up).1.database.tenants
    ≡ record acme { status = active } ∷ []
unfolding request advance_provisioning_job advance_step remaining_steps advanced activate_if_done
    write_job write_tenant provisioning_steps find update delete any ◌>>=◌
aborted_then_active = refl
