-- ===== src/Tenancy.antt =====
-- Tenants with their members and provisioning jobs, app/services/tenancy_service.py. `Reads` and
-- `Overview` hold what it answers.
pub mod Reads
pub mod Tables
pub mod Overview
pub mod Orderly
pub mod Sound
pub mod Cascade
pub mod Advance
pub mod Invariant
pub mod Progress
pub mod Answers
use vixa_system_config_be.Base.{
  ℕ, ◌-◌, ◌*◌, ◌+◌, String, ◌⧺◌, Option, none, some, Bool, true, false, List, [], ◌∷◌, ◌++◌, ◌&&◌,
  ◌||◌, str_eq, ◌==◌, leb, map, length, filter, find, any, count, sort_by, order_asc, update,
  delete, take, drop, head?, if◌then◌else◌,
}
use vixa_system_config_be.Runtime.{Runtime, Key, Time}
use vixa_system_config_be.Models.Audit.{AuditLogEntry}
use vixa_system_config_be.Models.User.{User}
use vixa_system_config_be.Models.Anomaly.{AnomalyEvent}
use vixa_system_config_be.Models.Tenancy.{
  TenantStatus, active, provisioning, Tenant, TenantMember, BreachAlert, TenantProvisioningJob,
  provisioning_steps, running, complete, TenantSchemaValidation, TenantBackupSnapshot,
}
use vixa_system_config_be.Database.{Database}
use vixa_system_config_be.Tx.{
  Tx, World, Error, http, integrity, lookup, ◌>>=◌, ◌>>◌, pure, raise, raise_if, or_raise, gets,
  modify, add_unless, rollback, commit, now, uuid4, request, discard,
}
use vixa_system_config_be.Tenancy.Reads.{has_text, TenantRead, tenant_to_read, TenantMemberRead}
use vixa_system_config_be.Tenancy.Tables.*

-- `[s for s in PROVISIONING_STEPS if s not in completed]`
unfoldable pub remaining_steps : List String → List String
remaining_steps completed = delete (λ s. has_text s completed) provisioning_steps

-- the job with one more step behind it, given what then remains
unfoldable pub advanced : String → List String → TenantProvisioningJob → TenantProvisioningJob
advanced step still j = record j {
  completed_steps = j.completed_steps ++ step ∷ [];
  current_step = head? still;
  status = elim still [ [] ↦ complete | _ ∷ _ ↦ j.status ];
}

unfoldable pub activate_if_done : List String → Key → Tx (Unit {0})
activate_if_done [] tenant_id = write_tenant tenant_id (λ t. record t { status = active })
activate_if_done (s ∷ ss) tenant_id = pure tt

unfoldable pub advance_step : TenantProvisioningJob → List String → Tx TenantProvisioningJob
advance_step job [] = pure job
advance_step job (step ∷ steps) = do
  let still : List String = remaining_steps (job.completed_steps ++ step ∷ [])
  write_job job.id (advanced step still)
  activate_if_done still job.tenant_id
  commit
  again ← gets (find_job job.id)
  or_raise again (lookup "tenant_provisioning_jobs")

unfoldable pub advance_provisioning_job : Key → Tx TenantProvisioningJob
advance_provisioning_job job_id = do
  found ← gets (find_job job_id)
  job ← or_raise found (http 404 "Provisioning job not found")
  advance_step job (remaining_steps job.completed_steps)

module _ ⦃rt : Runtime⦄ where
  unfoldable pub dismiss_breach_alert : Key → Tx BreachAlert
  dismiss_breach_alert alert_id = do
    found ← gets (find_alert alert_id)
    or_raise found (http 404 "Alert not found")
    t ← now
    write_alert alert_id (λ a. record a { dismissed = true; dismissed_at = some t })
    commit
    again ← gets (find_alert alert_id)
    or_raise again (lookup "breach_alerts")

  unfoldable pub tenant_matches : Option TenantStatus → Option String → Tenant → Bool
  tenant_matches status_filter search t =
      elim status_filter [ none ↦ true | some s ↦ same_status t.status s ] && elim search [
        | none ↦ true
        | some q ↦
            str_eq q ""
            || (rt.ilike t.display_name ("%" ⧺ q ⧺ "%") || rt.ilike t.slug ("%" ⧺ q ⧺ "%"))
      ]

  -- the page (from 1), and the total
  unfoldable pub list_tenants :
      ℕ → ℕ → Option TenantStatus → Option String → Tx (List TenantRead × ℕ)
  list_tenants page page_size status_filter search = gets (λ d.
      let rows = filter (tenant_matches status_filter search) d.tenants in
      (
        map tenant_to_read (
            take page_size (
              drop ((page - 1) * page_size)
                (sort_by (λ (a b : Tenant). rt.collate a.display_name b.display_name) rows))),
        length rows,
      ))

  unfoldable pub create_tenant : TenantCreate → Tx Tenant
  create_tenant payload = do
    id ← uuid4
    add_tenant (new_tenant id payload)
    job_id ← uuid4
    t ← now
    add_job (record {
      id = job_id;
      tenant_id = id;
      status = running;
      completed_steps = [];
      current_step = head? provisioning_steps;
      eta_seconds = none;
      created_at = t;
    })
    commit
    found ← gets (find_tenant id)
    or_raise found (lookup "tenants")

  unfoldable pub update_tenant : Key → TenantUpdate → Tx Tenant
  update_tenant tenant_id payload = do
    get_tenant tenant_id
    raise_if (nulls_required payload) (integrity "tenants")
    write_tenant tenant_id (patched payload)
    commit
    found ← gets (find_tenant tenant_id)
    or_raise found (lookup "tenants")

  unfoldable pub set_tenant_status : Key → TenantStatus → Tx Tenant
  set_tenant_status tenant_id new_status = do
    get_tenant tenant_id
    write_tenant tenant_id (λ t. record t { status = new_status })
    commit
    found ← gets (find_tenant tenant_id)
    or_raise found (lookup "tenants")

  -- The foreign key of the audit log is set to null, an update that its trigger refuses.
  unfoldable pub delete_tenant : Key → Tx (Unit {0})
  delete_tenant tenant_id = do
    get_tenant tenant_id
    named ← gets (λ d. any (λ (e : AuditLogEntry). is_key tenant_id e.tenant_id) d.audit_log)
    raise_if named (integrity "audit_log_entries")
    modify (without_tenant tenant_id)
    commit

  unfoldable pub add_tenant_member : Key → TenantMemberCreate → Tx TenantMemberRead
  add_tenant_member tenant_id payload = do
    get_tenant tenant_id
    found ← gets (find_user payload.user_id)
    or_raise found (http 404 "User not found")
    id ← uuid4
    t ← now
    add_member (record {
      id = id;
      tenant_id = tenant_id;
      user_id = payload.user_id;
      role = payload.role;
      created_at = t;
    })
    commit
    again ← gets (λ d. find (λ (m : TenantMember). m.id == id) d.tenant_members)
    member ← or_raise again (lookup "tenant_members")
    member_to_read member

  unfoldable pub remove_tenant_member : Key → Key → Tx (Unit {0})
  remove_tenant_member tenant_id user_id = do
    found ← gets (λ d. find (joins tenant_id user_id) d.tenant_members)
    member ← or_raise found (http 404 "Tenant membership not found")
    modify (λ d. record d {
      tenant_members = delete (λ (m : TenantMember). m.id == member.id) d.tenant_members;
    })
    commit

-- The requests of app/api/v1/endpoints/tenancy.py that write, after the guard.
pub data TenancyRequest : Type 0 where
  dismissing advancing deleting : Key → TenancyRequest
  creating : TenantCreate → TenancyRequest
  updating : Key → TenantUpdate → TenancyRequest
  setting : Key → TenantStatus → TenancyRequest
  joining : Key → TenantMemberCreate → TenancyRequest
  leaving : Key → Key → TenancyRequest

module _ ⦃rt : Runtime⦄ where
  unfoldable pub manage : TenancyRequest → Tx (Unit {0})
  manage (dismissing id) = discard (dismiss_breach_alert id)
  manage (advancing id) = discard (advance_provisioning_job id)
  manage (deleting id) = delete_tenant id
  manage (creating payload) = discard (create_tenant payload)
  manage (updating id payload) = discard (update_tenant id payload)
  manage (setting id status) = discard (set_tenant_status id status)
  manage (joining id payload) = discard (add_tenant_member id payload)
  manage (leaving id user_id) = remove_tenant_member id user_id

  -- one request after another, each with its own session
  unfoldable pub manage_all : World → List TenancyRequest → World
  manage_all w [] = w
  manage_all w (o ∷ os) = manage_all (request (manage o) w).1 os
