-- ===== src/Models.antt =====
-- The rows of the database, app/models/*.py.
pub mod Audit
pub mod Config
pub mod User
pub mod Hsm
pub mod Rbac
pub mod Tenancy
pub mod Anomaly
pub mod Notification
