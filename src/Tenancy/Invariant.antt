-- ===== src/Tenancy/Invariant.antt =====
-- Every request on tenants keeps their tables sound.
use vixa_system_config_be.Base.{
  String, Bool, true, false, List, [], ◌∷◌, ◌≡◌, refl, sym, ◌==◌, ==_iff, delete, any-snoc_self,
  if◌then◌else◌,
}
use vixa_system_config_be.Runtime.{Runtime, Key}
use vixa_system_config_be.Models.User.{User}
use vixa_system_config_be.Models.Tenancy.{Tenant, TenantMember, TenantStatus}
use vixa_system_config_be.Database.{Database}
use vixa_system_config_be.Tx.{World, request, open_session, modify, ◌>>◌, rollback, raise, http}
use vixa_system_config_be.Tx.Keeps.{
  Keeps, Keeps-modify, Keeps-discard, keeps_rules, Triple-kept, Keeps-run,
}
use vixa_system_config_be.Tx.Rules.{
  Triple, Triple-bind, Triple-gets, Triple-or_raise, Triple-modify, Triple-uuid4, Triple-now,
  Triple-add_unless, Triple-raise,
}
use vixa_system_config_be.Tenancy.Tables.{
  TenantCreate, TenantUpdate, TenantMemberCreate, write_tenant, without_tenant, get_tenant,
  add_tenant, add_job, add_member, add_or_conflict, member_to_read, new_tenant, patched,
  find_tenant, find_user,
}
use vixa_system_config_be.Tenancy.{
  dismiss_breach_alert, create_tenant, update_tenant, set_tenant_status, delete_tenant,
  add_tenant_member, remove_tenant_member, TenancyRequest, dismissing, advancing, deleting,
  creating, updating, setting, joining, leaving, manage, manage_all,
}
use vixa_system_config_be.Tenancy.Orderly.{IsAt-fresh}
use vixa_system_config_be.Tenancy.Cascade.{IsSound-without_tenant}
use vixa_system_config_be.Tenancy.Advance.{found_in, advance-Keeps}
use vixa_system_config_be.Tenancy.Sound.{
  HasTenant, HasUser, IsSound, write_tenant-Keeps, write_alert-Keeps, IsSound-new_tenant,
  IsSound-new_job, IsSound-new_member, IsSound-fewer_members,
}

get_tenant-Triple : (id : Key) → Triple IsSound (λ _. Unit) (get_tenant id) (λ t d. HasTenant id d)
unfolding get_tenant
get_tenant-Triple id =
    Triple-bind (λ o d. o ≡ find_tenant id d) _ _ (Triple-gets _ (λ d p. refl))
      λ o.
        Triple-or_raise o _
          (λ t e d p. (found_in (λ (x : Tenant). x.id == id) (λ x. x.tenants) o t d p e).1)

get_tenant-Keeps : (id : Key) → Keeps IsSound (get_tenant id)
get_tenant-Keeps id = Keeps-run _ (get_tenant-Triple id)

patch-Keeps :
    (id : Key) (payload : TenantUpdate) → Keeps IsSound (write_tenant id (patched payload))
unfolding patched
patch-Keeps id payload = write_tenant-Keeps id _ (λ t. refl)

status-Keeps :
    (id : Key) (s : TenantStatus) → Keeps IsSound (write_tenant id (λ t. record t { status = s }))
status-Keeps id s = write_tenant-Keeps id _ (λ t. refl)

cascade-Keeps : (id : Key) → Keeps IsSound (modify (without_tenant id))
cascade-Keeps id = Keeps-modify _ (IsSound-without_tenant id)

fewer_members-Keeps :
    (p : TenantMember → Bool)
    → Keeps IsSound (modify (λ d. record d { tenant_members = delete p d.tenant_members }))
fewer_members-Keeps p = Keeps-modify _ (λ d s. IsSound-fewer_members d p s)

ruleset tenancy_rules = (
  keeps_rules, get_tenant-Keeps, patch-Keeps, status-Keeps, cascade-Keeps, write_alert-Keeps,
  fewer_members-Keeps,
)

-- An insertion that a unique column may refuse.
module _ (P : Database → Type 0) (Q : Unit {0} → Database → Type 0) where
  conflicted-Triple :
      (clash : Database → Bool) (detail : String) (f : Database → Database) (b : Bool)
      → ((d : Database) → P d → clash d ≡ false → IsSound d → IsSound (f d) × Q tt (f d))
      → Triple IsSound
          (λ d. (b ≡ clash d) × P d)
          (if b then (rollback >> raise (http 409 detail)) else modify f)
          Q
  conflicted-Triple clash detail f true h =
      Triple-bind _ _ _ (Triple-kept _ (search keeps_rules)) λ _. Triple-raise _
  conflicted-Triple clash detail f false h = Triple-modify _ (λ d g (e, p). h d p (sym e) g)

  add_or_conflict-Triple :
      (clash : Database → Bool) (detail : String) (f : Database → Database)
      → ((d : Database) → P d → clash d ≡ false → IsSound d → IsSound (f d) × Q tt (f d))
      → Triple IsSound P (add_or_conflict clash detail f) Q
  unfolding add_or_conflict
  add_or_conflict-Triple clash detail f h =
      Triple-bind (λ b d. (b ≡ clash d) × P d) _ _ (Triple-gets _ (λ d p. (refl, p)))
        λ b. conflicted-Triple clash detail f b h

module _ ⦃rt : Runtime⦄ where
  dismiss-Keeps : (id : Key) → Keeps IsSound (dismiss_breach_alert id)
  unfolding dismiss_breach_alert
  dismiss-Keeps id = search tenancy_rules depth 16

  update-Keeps : (id : Key) (payload : TenantUpdate) → Keeps IsSound (update_tenant id payload)
  unfolding update_tenant
  update-Keeps id payload = search tenancy_rules depth 16

  set_status-Keeps : (id : Key) (s : TenantStatus) → Keeps IsSound (set_tenant_status id s)
  unfolding set_tenant_status
  set_status-Keeps id s = search tenancy_rules depth 16

  delete-Keeps : (id : Key) → Keeps IsSound (delete_tenant id)
  unfolding delete_tenant
  delete-Keeps id = search tenancy_rules depth 16

  remove-Keeps : (id user_id : Key) → Keeps IsSound (remove_tenant_member id user_id)
  unfolding remove_tenant_member
  remove-Keeps id user_id = search tenancy_rules depth 16

  member_to_read-Keeps : (m : TenantMember) → Keeps IsSound (member_to_read m)
  unfolding member_to_read
  member_to_read-Keeps m = search keeps_rules depth 12

  create-Keeps : (payload : TenantCreate) → Keeps IsSound (create_tenant payload)
  unfolding create_tenant add_tenant add_job new_tenant
  create-Keeps payload = Keeps-run _ (
      Triple-bind (λ _ _. Unit) _ _ (Triple-uuid4 (λ _ _ p. p))
        λ id.
          Triple-bind (λ _ d. HasTenant id d) _ _
            (add_or_conflict-Triple _ _ _ _ _ λ d p free g. (
              IsSound-new_tenant d (new_tenant id payload) g,
              any-snoc_self (λ (t : Tenant). t.id == id) d.tenants (new_tenant id payload)
                  ((==_iff id id).1 refl),
            ))
            λ _.
              Triple-bind (λ _ d. HasTenant id d) _ _ (Triple-uuid4 (λ _ _ p. p))
                λ job_id.
                  Triple-bind (λ _ d. HasTenant id d) _ _ (Triple-now (λ _ _ p. p))
                    λ t.
                      Triple-bind (λ _ _. Unit) _ _
                        (Triple-add_unless _ _ _
                          λ d free g p. (IsSound-new_job d _ free p (IsAt-fresh _ refl refl) g, tt))
                        λ _. Triple-kept _ (search keeps_rules depth 12))

  add_member-Keeps :
      (id : Key) (payload : TenantMemberCreate) → Keeps IsSound (add_tenant_member id payload)
  unfolding add_tenant_member add_member
  add_member-Keeps id payload = Keeps-run _ (
      Triple-bind (λ _ d. HasTenant id d) _ _ (get_tenant-Triple id)
        λ t.
          Triple-bind (λ o d. (o ≡ find_user payload.user_id d) × HasTenant id d) _ _
            (Triple-gets _ (λ d p. (refl, p)))
            λ o.
              Triple-bind (λ _ d. HasUser payload.user_id d × HasTenant id d) _ _
                (Triple-or_raise o _ (λ u e d (same, p). (
                  (found_in (λ (x : User). x.id == payload.user_id) (λ x. x.users) o u d same e).1,
                  p,
                )))
                λ u.
                  Triple-bind (λ _ d. HasUser payload.user_id d × HasTenant id d) _ _
                    (Triple-uuid4 (λ _ _ p. p))
                    λ member_id.
                      Triple-bind (λ _ d. HasUser payload.user_id d × HasTenant id d) _ _
                        (Triple-now (λ _ _ p. p))
                        λ at.
                          Triple-bind (λ _ _. Unit) _ _
                            (add_or_conflict-Triple _ _ _ _ _ λ d (user, tenant) free g.
                              (IsSound-new_member d _ free tenant user g, tt))
                            λ _.
                              Triple-kept _ (search (keeps_rules, member_to_read-Keeps) depth 12))

  manage-Keeps : (o : TenancyRequest) → Keeps IsSound (manage o)
  unfolding manage
  manage-Keeps (dismissing id) = Keeps-discard _ (dismiss-Keeps id)
  manage-Keeps (advancing id) = Keeps-discard _ (advance-Keeps id)
  manage-Keeps (deleting id) = delete-Keeps id
  manage-Keeps (creating payload) = Keeps-discard _ (create-Keeps payload)
  manage-Keeps (updating id payload) = Keeps-discard _ (update-Keeps id payload)
  manage-Keeps (setting id status) = Keeps-discard _ (set_status-Keeps id status)
  manage-Keeps (joining id payload) = Keeps-discard _ (add_member-Keeps id payload)
  manage-Keeps (leaving id user_id) = remove-Keeps id user_id

  pub manage_all-IsSound :
      (os : List TenancyRequest) (w : World)
      → IsSound w.database
      → IsSound (manage_all w os).database
  unfolding manage_all request
  manage_all-IsSound [] w s = s
  manage_all-IsSound (o ∷ os) w s =
      manage_all-IsSound os (request (manage o) w).1 ((manage-Keeps o).kept (open_session w) s s).1
