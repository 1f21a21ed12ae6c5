-- ===== src/Rbac/Tables.antt =====
-- The requests and the rows of app/services/rbac_service.py: lookups, insertions with their unique
-- columns, and writes.
use vixa_system_config_be.Base.{
  String, ◌⧺◌, Option, none, some, Bool, List, [], ◌∷◌, ◌++◌, ◌&&◌, ◌||◌, not, str_eq, ◌==◌, find,
  any, update, delete, is_some, join_with,
}
use vixa_system_config_be.Runtime.{Key}
use vixa_system_config_be.Models.User.{User}
use vixa_system_config_be.Models.Rbac.{Role, Permission, UserRole, RolePermission}
use vixa_system_config_be.Tx.{
  Tx, http, integrity, ◌>>=◌, ◌>>◌, pure, raise, raise_if, or_raise, gets, modify, add_unless,
  rollback,
}

-- `k in ks`
abbrev pub has : Key → List Key → Bool
has k ks = any (λ x. x == k) ks

abbrev pub same_key : Key → Key → Bool
same_key a b = a == b

pub record RbacUserCreate : Type 0 where
  pub email : String
  pub display_name : String
  pub password : String
  pub is_admin : Bool
  pub role_ids : List Key

pub record RbacUserUpdate : Type 0 where
  pub display_name : Option String
  pub is_admin : Option Bool

pub record RoleCreate : Type 0 where
  pub name : String
  pub description : Option String
  pub permission_ids : List Key

pub record RoleUpdate : Type 0 where
  pub name : Option String
  pub description : Option String
  pub is_active : Option Bool
  pub permission_ids : Option (List Key)

pub record PermissionCreate : Type 0 where
  pub name : String
  pub resource : String
  pub action : String
  pub description : Option String

-- `_get_user_orm` and `_get_role_orm`
unfoldable pub get_user_orm : Key → Tx User
get_user_orm user_id = do
  found ← gets (λ d. find (λ (u : User). u.id == user_id) d.users)
  or_raise found (http 404 "User not found")

unfoldable pub get_role_orm : Key → Tx Role
get_role_orm role_id = do
  found ← gets (λ d. find (λ (r : Role). r.id == role_id) d.roles)
  or_raise found (http 404 "Role not found")

-- `db.add`, with the keys and unique columns of each table
unfoldable pub add_user : User → Tx (Unit {0})
add_user u =
    add_unless (λ d. any (λ (r : User). r.id == u.id || str_eq r.email u.email) d.users)
      (integrity "users") (λ d. record d { users = d.users ++ u ∷ [] })

unfoldable pub add_role : Role → Tx (Unit {0})
add_role x =
    add_unless (λ d. any (λ (r : Role). r.id == x.id || str_eq r.name x.name) d.roles)
      (integrity "roles") (λ d. record d { roles = d.roles ++ x ∷ [] })

unfoldable pub add_permission : Permission → Tx (Unit {0})
add_permission x =
    add_unless (λ d. any (λ (r : Permission). r.id == x.id || str_eq r.name x.name) d.permissions)
      (integrity "permissions") (λ d. record d { permissions = d.permissions ++ x ∷ [] })

abbrev pub links : Key → Key → UserRole → Bool
links user_id role_id l = l.user_id == user_id && l.role_id == role_id

unfoldable pub add_user_role : UserRole → Tx (Unit {0})
add_user_role x =
    add_unless
      (λ d. any (λ (r : UserRole). r.id == x.id || links x.user_id x.role_id r) d.user_roles)
      (integrity "user_roles") (λ d. record d { user_roles = d.user_roles ++ x ∷ [] })

abbrev pub grants : Key → Key → RolePermission → Bool
grants role_id permission_id l = l.role_id == role_id && l.permission_id == permission_id

unfoldable pub add_role_permission : RolePermission → Tx (Unit {0})
add_role_permission x =
    add_unless
      (λ d.
        any (λ (r : RolePermission). r.id == x.id || grants x.role_id x.permission_id r)
          d.role_permissions)
      (integrity "role_permissions")
      (λ d. record d { role_permissions = d.role_permissions ++ x ∷ [] })

unfoldable pub write_user : Key → (User → User) → Tx (Unit {0})
write_user id f = modify (λ d. record d { users = update (λ (u : User). u.id == id) f d.users })

unfoldable pub write_role : Key → (Role → Role) → Tx (Unit {0})
write_role id f = modify (λ d. record d { roles = update (λ (r : Role). r.id == id) f d.roles })

-- `role.name = payload.name` and the like: nothing is written for `None`
abbrev pub write_given : {A : Type 0} → Option A → (A → Tx (Unit {0})) → Tx (Unit {0})
write_given none f = pure tt
write_given (some a) f = f a

-- the ids that no row has
unfoldable pub missing_ids : List Key → List Key → List Key
missing_ids ids found = delete (λ i. has i found) ids

-- `if missing: raise`; the text names each of them
unfoldable pub raise_missing : String → List String → Tx (Unit {0})
raise_missing what [] = pure tt
raise_missing what (m ∷ ms) =
    raise (http 404 ("Unknown " ⧺ what ⧺ " id(s): " ⧺ join_with ", " (m ∷ ms)))

-- where `create_user` also rolls the new user back
unfoldable pub raise_missing_roles : List String → Tx (Unit {0})
raise_missing_roles [] = pure tt
raise_missing_roles (m ∷ ms) = do rollback; raise_missing "role" (m ∷ ms)

-- the `if name is taken` of `update_role`
unfoldable pub check_rename : Role → Option String → Tx (Unit {0})
check_rename role none = pure tt
check_rename role (some name) = do
  clash ← gets (λ d. find (λ (r : Role). str_eq r.name name && not (r.id == role.id)) d.roles)
  raise_if (not (str_eq name role.name) && is_some clash)
      (http 409 "A role with this name already exists")
