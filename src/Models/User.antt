-- ===== src/Models/User.antt =====
-- app/models/user.py. The timestamps of the mixin are kept where a service reads them.
use vixa_system_config_be.Base.{String, Option, Bool}
use vixa_system_config_be.Runtime.{Key, Time}

pub record User : Type 0 where
  pub id : Key
  pub email : String
  pub display_name : String
  pub hashed_password : String
  pub is_active : Bool
  pub is_admin : Bool
  pub created_at : Time

pub record RefreshToken : Type 0 where
  pub id : Key
  pub user_id : Key
  pub token_hash : String
  pub expires_at : Time
  pub revoked_at : Option Time
  pub created_at : Time

pub record PasswordResetToken : Type 0 where
  pub id : Key
  pub user_id : Key
  pub token_hash : String
  pub expires_at : Time
  pub used_at : Option Time
