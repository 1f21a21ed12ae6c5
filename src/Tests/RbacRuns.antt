-- ===== src/Tests/RbacRuns.antt =====
-- Runs of role assignment and of deactivation.
use vixa_system_config_be.Base.{
  sort_by, none, some, true, false, [], ◌∷◌, ◌≡◌, refl, ◌==◌, find, any, update, filter, delete,
  str_eq, if◌then◌else◌,
}
use vixa_system_config_be.Runtime.{Runtime}
use vixa_system_config_be.Models.User.{User}
use vixa_system_config_be.Models.Rbac.{Role}
use vixa_system_config_be.Auth.{
  authenticate_user, find_by_email, with_password, active_only, redeem_refresh_token, hash_password,
}
use vixa_system_config_be.Auth.Endpoints.{get_current_user, refreshing, signing_in, answer_all}
use vixa_system_config_be.Rbac.Tables.{
  RbacUserCreate, get_user_orm, get_role_orm, add_user_role, add_user, write_user, missing_ids,
  raise_missing_roles,
}
use vixa_system_config_be.Rbac.Reads.{
  RoleAssignmentResult, RbacUserRead, roles_by_user, joined_roles, user_to_read,
}
use vixa_system_config_be.Rbac.Reads as Reads
use vixa_system_config_be.Rbac.{
  assign_role, assign_unless, remove_role, assignment_result, set_user_active, create_user,
  grant_roles, add_user_roles,
}
use vixa_system_config_be.Rbac.Assignment.{assign_then_remove}
use vixa_system_config_be.Rbac.Lockout.{deactivation_locks_out, answers, is_account}
use vixa_system_config_be.Tx.{World, ok, is_ok, request, ◌>>=◌}
use vixa_system_config_be.Tests.Demo.{demo, blank}
use vixa_system_config_be.Tests.AuthRuns.{signed_in}

abbrev auditor : Role
auditor = record { id = 7; name = "auditor"; description = none; is_active = true; created_at = 0 }

abbrev staffed : World
staffed = record signed_in { database = record signed_in.database { roles = auditor ∷ [] } }

abbrev assigned : RoleAssignmentResult
assigned = record {
  detail = "Role assigned";
  user_id = 1;
  role_id = 7;
  roles = record { id = 7; name = "auditor" } ∷ [];
}

assign_runs : (request (assign_role 1 7 "root") staffed).0 ≡ ok assigned
unfolding request assign_role assign_unless assignment_result get_user_orm get_role_orm
    add_user_role roles_by_user joined_roles filter find any sort_by ◌>>=◌
assign_runs = refl

assign_then_remove_example :
    let w' = (request (assign_role 1 7 "root") staffed).1 in
    (is_ok (request (remove_role 1 7) w').0 ≡ true)
    × ((request (remove_role 1 7) w').1.database ≡ staffed.database)
unfolding find
assign_then_remove_example = assign_then_remove 1 7 "root" staffed assigned refl assign_runs

abbrev locked_ada : RbacUserRead
locked_ada = record {
  id = 1;
  email = "ada";
  display_name = "Ada";
  is_active = false;
  is_admin = false;
  created_at = 0;
  roles = [];
}

locking_runs : (request (set_user_active 1 false) signed_in).0 ≡ ok locked_ada
unfolding request set_user_active get_user_orm write_user Reads.get_user roles_by_user joined_roles
    user_to_read find update sort_by ◌>>=◌
locking_runs = refl

deactivation_locks_out_example :
    let w' =
      answer_all
        (request (set_user_active 1 false) signed_in).1
        (refreshing "raw" ∷ signing_in "ada" "secret" ∷ []) in
    (answers (is_account 1) (request (authenticate_user "ada" "secret") w').0 ≡ false)
    × (answers (is_account 1) (request (redeem_refresh_token "raw") w').0 ≡ false)
    × (answers (λ (u : User). u.id == 1) (request (get_current_user (some "1")) w').0 ≡ false)
deactivation_locks_out_example =
    deactivation_locks_out 1 signed_in locked_ada
      (refreshing "raw" ∷ signing_in "ada" "secret" ∷ []) "ada" "secret" "raw" (some "1")
      locking_runs

-- With a lower case that is not the identity: a user created with a capital in the address is not
-- found by the address that was given.
abbrev lowering : Runtime
lowering = record demo { lower = λ s. if str_eq s "Ada" then "ada" else s }

abbrev capital : RbacUserCreate
capital = record {
  email = "Ada";
  display_name = "Ada";
  password = "secret";
  is_admin = false;
  role_ids = [];
}

never_signs_in :
    let w' = (request (create_user ⦃rt = lowering⦄ capital) blank).1 in
    (request (authenticate_user ⦃rt = lowering⦄ "Ada" "secret") w').0 ≡ ok none
unfolding request create_user grant_roles add_user_roles add_user hash_password missing_ids
    authenticate_user find_by_email with_password active_only find any filter delete
    raise_missing_roles Reads.get_user get_user_orm ◌>>=◌
never_signs_in = refl
