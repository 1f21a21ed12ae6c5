-- ===== src/Tests.antt =====
-- Runs at concrete inputs.
mod Demo
mod ParameterRuns
mod HsmRuns
mod AuthRuns
mod AuditRuns
mod ConfigurationRuns
mod RbacRuns
mod TenancyRuns
mod NotificationRuns
mod AnomalyRuns
