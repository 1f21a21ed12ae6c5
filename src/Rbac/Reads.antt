-- ===== src/Rbac/Reads.antt =====
-- What app/services/rbac_service.py answers: users with their roles, roles with their permissions.
use vixa_system_config_be.Base.{
  ℕ, String, ◌⧺◌, Option, none, some, Bool, true, List, [], ◌∷◌, ◌++◌, ◌&&◌, ◌||◌, not, str_eq,
  ◌==◌, map, length, filter, find, count, sort_by, if◌then◌else◌,
}
use vixa_system_config_be.Runtime.{Runtime, Key, Time}
use vixa_system_config_be.Models.User.{User}
use vixa_system_config_be.Models.Rbac.{Role, Permission, UserRole, RolePermission}
use vixa_system_config_be.Database.{Database}
use vixa_system_config_be.Tx.{Tx, lookup, ◌>>=◌, or_raise, gets}
use vixa_system_config_be.Rbac.Tables.{get_user_orm}

abbrev pub same_bool : Bool → Bool → Bool
same_bool a b = if a then b else not b

pub record RoleSummary : Type 0 where
  pub id : Key
  pub name : String

pub record RbacUserRead : Type 0 where
  pub id : Key
  pub email : String
  pub display_name : String
  pub is_active : Bool
  pub is_admin : Bool
  pub created_at : Time
  pub roles : List RoleSummary

pub record RoleRead : Type 0 where
  pub id : Key
  pub name : String
  pub description : Option String
  pub is_active : Bool
  pub permission_count : ℕ
  pub user_count : ℕ
  pub permissions : List Permission
  pub created_at : Time

pub record RoleAssignmentResult : Type 0 where
  pub detail : String
  pub user_id : Key
  pub role_id : Key
  pub roles : List RoleSummary

abbrev pub summarize : Role → RoleSummary
summarize r = record { id = r.id; name = r.name }

-- the joins of `_roles_by_user` and `_permissions_by_role`, for one key
unfoldable pub joined_roles : Key → List UserRole → List Role → List Role
joined_roles user_id [] roles = []
joined_roles user_id (l ∷ ls) roles =
    (if l.user_id == user_id then filter (λ (r : Role). r.id == l.role_id) roles else [])
    ++ joined_roles user_id ls roles

unfoldable pub joined_permissions : Key → List RolePermission → List Permission → List Permission
joined_permissions role_id [] permissions = []
joined_permissions role_id (l ∷ ls) permissions =
    (if l.role_id == role_id
      then filter (λ (p : Permission). p.id == l.permission_id) permissions
      else [])
    ++ joined_permissions role_id ls permissions

-- `_user_counts_by_role`, for one role
unfoldable pub user_count_of : Key → List UserRole → ℕ
user_count_of role_id t = count (λ (l : UserRole). l.role_id == role_id) t

-- `_user_to_read` and `_role_to_read`
unfoldable pub user_to_read : User → List Role → RbacUserRead
user_to_read u roles = record {
  id = u.id;
  email = u.email;
  display_name = u.display_name;
  is_active = u.is_active;
  is_admin = u.is_admin;
  created_at = u.created_at;
  roles = map summarize roles;
}

unfoldable pub role_to_read : Role → List Permission → ℕ → RoleRead
role_to_read r permissions user_count = record {
  id = r.id;
  name = r.name;
  description = r.description;
  is_active = r.is_active;
  permission_count = length permissions;
  user_count = user_count;
  permissions = permissions;
  created_at = r.created_at;
}

module _ ⦃rt : Runtime⦄ where
  unfoldable pub roles_by_user : Key → Database → List Role
  roles_by_user user_id d =
      sort_by (λ (a b : Role). rt.collate a.name b.name) (joined_roles user_id d.user_roles d.roles)

  unfoldable pub permissions_by_role : Key → Database → List Permission
  permissions_by_role role_id d =
      sort_by (λ (a b : Permission). rt.collate a.name b.name)
        (joined_permissions role_id d.role_permissions d.permissions)

  abbrev pub read_user_in : Database → User → RbacUserRead
  read_user_in d u = user_to_read u (roles_by_user u.id d)

  abbrev pub read_role_in : Database → Role → RoleRead
  read_role_in d r = role_to_read r (permissions_by_role r.id d) (user_count_of r.id d.user_roles)

  unfoldable pub get_user : Key → Tx RbacUserRead
  get_user user_id = do user ← get_user_orm user_id; gets (λ d. read_user_in d user)

  -- `_role_read_for`, of the row that the commit has refreshed
  unfoldable pub role_read_for : Key → Tx RoleRead
  role_read_for role_id = do
    found ← gets (λ d. find (λ (r : Role). r.id == role_id) d.roles)
    role ← or_raise found (lookup "roles")
    gets (λ d. read_role_in d role)

  -- the conditions of `list_users`, and the list
  unfoldable pub user_matches : Option Bool → Option String → User → Bool
  user_matches is_active search u =
      elim is_active [ none ↦ true | some b ↦ same_bool u.is_active b ] && elim search [
        | none ↦ true
        | some q ↦
            str_eq q ""
            || (rt.ilike u.display_name ("%" ⧺ q ⧺ "%") || rt.ilike u.email ("%" ⧺ q ⧺ "%"))
      ]

  unfoldable pub list_users : Option Bool → Option String → Tx (List RbacUserRead)
  list_users is_active search = gets (λ d. map (read_user_in d) (
      sort_by (λ (a b : User). rt.collate a.display_name b.display_name)
        (filter (user_matches is_active search) d.users)))

  unfoldable pub list_roles : Tx (List RoleRead)
  list_roles =
      gets (λ d. map (read_role_in d) (sort_by (λ (a b : Role). rt.collate a.name b.name) d.roles))

  unfoldable pub list_permissions : Option String → Tx (List Permission)
  list_permissions resource = gets (λ d.
      sort_by
        (λ (a b : Permission).
          if str_eq a.resource b.resource
          then rt.collate a.action b.action
          else rt.collate a.resource b.resource)
        (filter
          (λ (p : Permission). elim resource [
            | none ↦ true
            | some r ↦ str_eq r "" || str_eq p.resource r
          ])
          d.permissions))
