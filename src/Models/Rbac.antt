-- ===== src/Models/Rbac.antt =====
-- Roles and permissions, app/models/rbac.py.
use vixa_system_config_be.Base.{String, Option, Bool}
use vixa_system_config_be.Runtime.{Key, Time}

pub record Role : Type 0 where
  pub id : Key
  pub name : String
  pub description : Option String
  pub is_active : Bool
  pub created_at : Time

pub record Permission : Type 0 where
  pub id : Key
  pub name : String
  pub description : Option String
  pub resource : String
  pub action : String

pub record UserRole : Type 0 where
  pub id : Key
  pub user_id : Key
  pub role_id : Key
  pub assigned_by : Option String

pub record RolePermission : Type 0 where
  pub id : Key
  pub role_id : Key
  pub permission_id : Key
