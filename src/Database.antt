-- ===== src/Database.antt =====
-- The tables that the modelled services read and write.
use vixa_system_config_be.Base.{List, []}
use vixa_system_config_be.Models.Audit.{AuditLogEntry}
use vixa_system_config_be.Models.Config.{ConfigParameter, ConfigChange, Configuration}
use vixa_system_config_be.Models.User.{User, RefreshToken, PasswordResetToken}
use vixa_system_config_be.Models.Hsm.{
  HsmSlot, MasterKey, KeyCeremony, KeyCustodianApproval, SecurityOperation,
}
use vixa_system_config_be.Models.Rbac.{Role, Permission, UserRole, RolePermission}
use vixa_system_config_be.Models.Tenancy.{
  Tenant, TenantMember, BreachAlert, TenantProvisioningJob, TenantSchemaValidation,
  TenantBackupSnapshot,
}
use vixa_system_config_be.Models.Anomaly.{AnomalyEvent, Incident}
use vixa_system_config_be.Models.Notification.{Notification, AlertRule}

pub record Database : Type 0 where
  pub audit_log : List AuditLogEntry
  pub parameters : List ConfigParameter
  pub changes : List ConfigChange
  pub configurations : List Configuration
  pub users : List User
  pub refresh_tokens : List RefreshToken
  pub password_reset_tokens : List PasswordResetToken
  pub hsm_slots : List HsmSlot
  pub master_keys : List MasterKey
  pub ceremonies : List KeyCeremony
  pub approvals : List KeyCustodianApproval
  pub operations : List SecurityOperation
  pub roles : List Role
  pub permissions : List Permission
  pub user_roles : List UserRole
  pub role_permissions : List RolePermission
  pub tenants : List Tenant
  pub tenant_members : List TenantMember
  pub breach_alerts : List BreachAlert
  pub provisioning_jobs : List TenantProvisioningJob
  pub schema_validations : List TenantSchemaValidation
  pub backup_snapshots : List TenantBackupSnapshot
  pub anomaly_events : List AnomalyEvent
  pub incidents : List Incident
  pub notifications : List Notification
  pub alert_rules : List AlertRule

abbrev pub empty : Database
empty = record {
  audit_log = [];
  parameters = [];
  changes = [];
  configurations = [];
  users = [];
  refresh_tokens = [];
  password_reset_tokens = [];
  hsm_slots = [];
  master_keys = [];
  ceremonies = [];
  approvals = [];
  operations = [];
  roles = [];
  permissions = [];
  user_roles = [];
  role_permissions = [];
  tenants = [];
  tenant_members = [];
  breach_alerts = [];
  provisioning_jobs = [];
  schema_validations = [];
  backup_snapshots = [];
  anomaly_events = [];
  incidents = [];
  notifications = [];
  alert_rules = [];
}
