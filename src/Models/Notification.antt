-- ===== src/Models/Notification.antt =====
-- Notifications and alert rules, app/models/notification.py.
use vixa_system_config_be.Base.{ℕ, String, Option, Bool}
use vixa_system_config_be.Runtime.{Key, Time}

pub data NotificationSeverity : Type 0 where
  critical warning info : NotificationSeverity

pub data AlertChannel : Type 0 where
  in_app email slack webhook : AlertChannel

pub record Notification : Type 0 where
  pub id : Key
  pub user_id : Key
  pub severity : NotificationSeverity
  pub category : String
  pub title : String
  pub body : String
  pub source : String
  pub link : Option String
  pub is_read : Bool
  pub read_at : Option Time
  pub created_at : Time

pub record AlertRule : Type 0 where
  pub id : Key
  pub name : String
  pub description : Option String
  pub source : String
  pub condition : String
  pub threshold_severity : NotificationSeverity
  pub channel : AlertChannel
  pub target : String
  pub is_enabled : Bool
  pub created_by : String
  pub last_triggered_at : Option Time
  pub trigger_count : ℕ
  pub created_at : Time
