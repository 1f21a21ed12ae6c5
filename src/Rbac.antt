-- ===== src/Rbac.antt =====
-- Users, roles and permissions as administrators see them, app/services/rbac_service.py.
-- The association rows are unique by their two keys; a new row has a key of its own.
pub mod Tables
pub mod Reads
pub mod Assignment
pub mod Lockout
use vixa_system_config_be.Base.{
  ℕ, String, ◌⧺◌, Option, none, some, Bool, true, false, List, [], ◌∷◌, ◌++◌, ◌&&◌, ◌||◌, not,
  str_eq, ◌==◌, map, length, filter, find, any, count, sort_by, update, delete, unique_by, is_some,
  is_none, or_else, join_with, if◌then◌else◌,
}
use vixa_system_config_be.Runtime.{Runtime, Key, Time}
use vixa_system_config_be.Models.User.{User}
use vixa_system_config_be.Models.Rbac.{Role, Permission, UserRole, RolePermission}
use vixa_system_config_be.Database.{Database}
use vixa_system_config_be.Auth.{hash_password}
use vixa_system_config_be.Tx.{
  Tx, Error, http, integrity, lookup, ◌>>=◌, ◌>>◌, pure, raise, raise_if, or_raise, gets, modify,
  add_unless, rollback, commit, now, uuid4,
}
use vixa_system_config_be.Rbac.Tables.*
use vixa_system_config_be.Rbac.Reads.*

module _ ⦃rt : Runtime⦄ where
  unfoldable pub add_user_roles : Key → List Role → Tx (Unit {0})
  add_user_roles user_id [] = pure tt
  add_user_roles user_id (r ∷ rs) = do
    id ← uuid4
    add_user_role (record { id = id; user_id = user_id; role_id = r.id; assigned_by = none })
    add_user_roles user_id rs

  unfoldable pub add_role_permissions : Key → List Key → Tx (Unit {0})
  add_role_permissions role_id [] = pure tt
  add_role_permissions role_id (p ∷ ps) = do
    id ← uuid4
    add_role_permission (record { id = id; role_id = role_id; permission_id = p })
    add_role_permissions role_id ps

  -- `_validate_permission_ids`; for no ids nothing is missing
  unfoldable pub validate_permission_ids : List Key → Tx (Unit {0})
  validate_permission_ids ids = do
    found ← gets (λ d.
        map (λ (p : Permission). p.id) (filter (λ (p : Permission). has p.id ids) d.permissions))
    raise_missing "permission" (map rt.uuid_text (missing_ids ids found))

  -- the roles of a new user
  unfoldable pub grant_roles : Key → List Key → Tx (Unit {0})
  grant_roles user_id role_ids = do
    roles ← gets (λ d. filter (λ (r : Role). has r.id role_ids) d.roles)
    raise_missing_roles (map rt.uuid_text (missing_ids role_ids (map (λ (r : Role). r.id) roles)))
    add_user_roles user_id roles

  unfoldable pub create_user : RbacUserCreate → Tx RbacUserRead
  create_user payload = do
    existing ← gets (λ d. find (λ (u : User). str_eq u.email payload.email) d.users)
    raise_if (is_some existing) (http 409 "A user with this email already exists")
    id ← uuid4
    hashed ← hash_password payload.password
    t ← now
    add_user (record {
      id = id;
      email = payload.email;
      display_name = payload.display_name;
      hashed_password = hashed;
      is_active = true;
      is_admin = payload.is_admin;
      created_at = t;
    })
    grant_roles id payload.role_ids
    commit
    get_user id

  unfoldable pub update_user : Key → RbacUserUpdate → Tx RbacUserRead
  update_user user_id payload = do
    user ← get_user_orm user_id
    write_given payload.display_name (λ n. write_user user.id (λ u. record u { display_name = n }))
    write_given payload.is_admin (λ b. write_user user.id (λ u. record u { is_admin = b }))
    commit
    get_user user.id

  unfoldable pub set_user_active : Key → Bool → Tx RbacUserRead
  set_user_active user_id active = do
    user ← get_user_orm user_id
    write_user user.id (λ u. record u { is_active = active })
    commit
    get_user user.id

  unfoldable pub create_role : RoleCreate → Tx RoleRead
  create_role payload = do
    existing ← gets (λ d. find (λ (r : Role). str_eq r.name payload.name) d.roles)
    raise_if (is_some existing) (http 409 "A role with this name already exists")
    validate_permission_ids payload.permission_ids
    id ← uuid4
    t ← now
    add_role (record {
      id = id;
      name = payload.name;
      description = payload.description;
      is_active = true;
      created_at = t;
    })
    add_role_permissions id (unique_by same_key payload.permission_ids)
    commit
    role_read_for id

  -- the wholesale replacement of the permissions of a role
  unfoldable pub replace_permissions : Key → List Key → Tx (Unit {0})
  replace_permissions role_id ids = do
    validate_permission_ids ids
    modify (λ d. record d {
      role_permissions = delete (λ (l : RolePermission). l.role_id == role_id) d.role_permissions;
    })
    add_role_permissions role_id (unique_by same_key ids)

  unfoldable pub update_role : Key → RoleUpdate → Tx RoleRead
  update_role role_id payload = do
    role ← get_role_orm role_id
    check_rename role payload.name
    write_given payload.name (λ n. write_role role.id (λ r. record r { name = n }))
    write_given payload.description
        (λ t. write_role role.id (λ r. record r { description = some t }))
    write_given payload.is_active (λ b. write_role role.id (λ r. record r { is_active = b }))
    write_given payload.permission_ids (replace_permissions role.id)
    commit
    role_read_for role.id

  unfoldable pub create_permission : PermissionCreate → Tx Permission
  create_permission payload = do
    existing ← gets (λ d. find (λ (p : Permission). str_eq p.name payload.name) d.permissions)
    raise_if (is_some existing) (http 409 "A permission with this name already exists")
    id ← uuid4
    let permission : Permission = record {
      id = id;
      name = payload.name;
      description = payload.description;
      resource = payload.resource;
      action = payload.action;
    }
    add_permission permission
    commit
    pure permission

  -- the answer of both, with the roles that the user then has
  unfoldable pub assignment_result : String → Key → Key → Tx RoleAssignmentResult
  assignment_result detail user_id role_id = gets (λ d. record {
    detail = detail;
    user_id = user_id;
    role_id = role_id;
    roles = map summarize (roles_by_user user_id d);
  })

  -- the branch of `assign_role`, with the text that it answers
  unfoldable pub assign_unless : Key → Key → String → Option UserRole → Tx String
  assign_unless user_id role_id assigned_by (some link) = pure "Role already assigned"
  assign_unless user_id role_id assigned_by none = do
    id ← uuid4
    add_user_role
        (record { id = id; user_id = user_id; role_id = role_id; assigned_by = some assigned_by })
    commit
    pure "Role assigned"

  unfoldable pub assign_role : Key → Key → String → Tx RoleAssignmentResult
  assign_role user_id role_id assigned_by = do
    get_user_orm user_id
    get_role_orm role_id
    existing ← gets (λ d. find (links user_id role_id) d.user_roles)
    detail ← assign_unless user_id role_id assigned_by existing
    assignment_result detail user_id role_id

  unfoldable pub remove_role : Key → Key → Tx RoleAssignmentResult
  remove_role user_id role_id = do
    get_user_orm user_id
    get_role_orm role_id
    found ← gets (λ d. find (links user_id role_id) d.user_roles)
    link ← or_raise found (http 404 "This role is not assigned to the user")
    modify (λ d. record d { user_roles = delete (λ (l : UserRole). l.id == link.id) d.user_roles })
    commit
    assignment_result "Role removed" user_id role_id
