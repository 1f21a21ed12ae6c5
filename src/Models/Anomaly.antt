-- ===== src/Models/Anomaly.antt =====
-- Anomalies, app/models/anomaly.py.
use vixa_system_config_be.Base.{ℕ, String, Option, leb, if◌then◌else◌}
use vixa_system_config_be.Json.{Fields}
use vixa_system_config_be.Runtime.{Key, Time}

-- A score (0..1) is kept as a number of millionths.
abbrev pub Score : Type 0
Score = ℕ

pub data AnomalySeverity : Type 0 where
  critical high medium low : AnomalySeverity

unfoldable pub anomaly_severity_value : AnomalySeverity → String
anomaly_severity_value critical = "critical"
anomaly_severity_value high = "high"
anomaly_severity_value medium = "medium"
anomaly_severity_value low = "low"

-- `AnomalySeverity.from_score`
unfoldable pub from_score : Score → AnomalySeverity
from_score score =
    if leb 900_000 score
    then critical
    else if leb 700_000 score
    then high
    else if leb 400_000 score
    then medium
    else low

pub data AnomalyStatus : Type 0 where
  open_status investigating resolved dismissed : AnomalyStatus

unfoldable pub anomaly_status_value : AnomalyStatus → String
anomaly_status_value open_status = "open"
anomaly_status_value investigating = "investigating"
anomaly_status_value resolved = "resolved"
anomaly_status_value dismissed = "dismissed"

pub record AnomalyEvent : Type 0 where
  pub id : Key
  pub tenant_id : Option Key
  pub category : String
  pub score : Score
  pub severity : AnomalySeverity
  pub status : AnomalyStatus
  pub title : String
  pub description : String
  pub actor : Option String
  pub source_ip : Option String
  pub baseline_sigma : Option String
  pub metadata_json : Fields
  pub occurred_at : Time
  pub resolved_at : Option Time

pub data IncidentSeverity : Type 0 where
  p1 p2 p3 : IncidentSeverity

pub data IncidentStatus : Type 0 where
  unassigned in_progress resolved : IncidentStatus

pub record Incident : Type 0 where
  pub id : Key
  pub code : String
  pub severity : IncidentSeverity
  pub status : IncidentStatus
  pub summary : String
  pub sla_minutes : ℕ
  pub resolved_at : Option Time
  pub created_at : Time
