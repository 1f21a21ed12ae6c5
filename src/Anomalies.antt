-- ===== src/Anomalies.antt =====
-- Anomalies and their audit entries, app/services/anomaly_service.py. `Reads` holds what it answers.
pub mod Reads
pub mod Atomic
pub mod Selection
pub mod Bulk
pub mod Recorded
pub mod Entries
pub mod History
pub mod Trends
use vixa_system_config_be.Base.{
  ℕ, String, ◌⧺◌, Option, none, some, Bool, true, false, List, [], ◌∷◌, ◌++◌, ◌||◌, not, str_eq,
  ◌==◌, map, length, filter, find, any, update, delete, unique_by, if◌then◌else◌,
}
use vixa_system_config_be.Json.{Json, Fields, num, text, obj, end, field}
use vixa_system_config_be.Runtime.{Runtime, Key, Time}
use vixa_system_config_be.Models.Audit.{AuditLogEntryCreate}
use vixa_system_config_be.Models.Anomaly.{
  Score, AnomalySeverity, anomaly_severity_value, from_score, AnomalyStatus, open_status, resolved,
  anomaly_status_value, AnomalyEvent,
}
use vixa_system_config_be.Models.Tenancy.{Tenant}
use vixa_system_config_be.Database.{Database}
use vixa_system_config_be.Audit.{append_entry_in_transaction}
use vixa_system_config_be.Tx.{
  Tx, http, integrity, lookup, ◌>>=◌, ◌>>◌, pure, raise, or_raise, gets, modify, add_unless,
  rollback, commit, now, uuid4, rolling_back,
}
use vixa_system_config_be.Rbac.Tables.{has, same_key}

pub record AnomalyEventCreate : Type 0 where
  pub category : String
  pub score : Score
  pub title : String
  pub description : String
  pub actor : Option String
  pub source_ip : Option String
  pub tenant_id : Option Key
  pub baseline_sigma : Option String
  pub metadata_json : Fields

pub record BulkStatusResponse : Type 0 where
  pub new_status : String
  pub requested : ℕ
  pub updated : ℕ
  pub updated_ids : List Key
  pub not_found_ids : List Key

-- `_audit_actor`: `a or b or "system"`, where an empty text is false
unfoldable pub or_text : Option String → String → String
or_text none other = other
or_text (some s) other = if str_eq s "" then other else s

unfoldable pub audit_actor : Option String → Option String → String
audit_actor primary fallback = or_text primary (or_text fallback "system")

-- the entry that `_audit_metadata` adds
unfoldable pub previous_field : Option AnomalyStatus → Fields
previous_field none = end
previous_field (some s) = field "previous_status" (text (anomaly_status_value s)) end

-- the two branches on the new status
unfoldable pub transition : AnomalyStatus → Time → AnomalyEvent → AnomalyEvent
transition resolved at e = record e { status = resolved; resolved_at = some at }
transition open_status at e = record e { status = open_status; resolved_at = none }
transition status at e = record e { status = status }

unfoldable pub find_event : Key → Database → Option AnomalyEvent
find_event id d = find (λ (e : AnomalyEvent). e.id == id) d.anomaly_events

-- the foreign key of a new row
unfoldable pub lacks_tenant : AnomalyEvent → Database → Bool
lacks_tenant x d = elim x.tenant_id [
  | none ↦ false
  | some id ↦ not (any (λ (t : Tenant). t.id == id) d.tenants)
]

unfoldable pub add_event : AnomalyEvent → Tx (Unit {0})
add_event x =
    add_unless (λ d. any (λ (r : AnomalyEvent). r.id == x.id) d.anomaly_events || lacks_tenant x d)
      (integrity "anomaly_events") (λ d. record d { anomaly_events = d.anomaly_events ++ x ∷ [] })

unfoldable pub write_event : Key → (AnomalyEvent → AnomalyEvent) → Tx (Unit {0})
write_event id f = modify (λ d. record d {
  anomaly_events = update (λ (e : AnomalyEvent). e.id == id) f d.anomaly_events;
})

unfoldable pub get_anomaly_event : Key → Tx AnomalyEvent
get_anomaly_event event_id = do
  found ← gets (find_event event_id)
  or_raise found (http 404 "Anomaly not found")

module _ ⦃rt : Runtime⦄ where
  unfoldable pub audit_metadata : AnomalyEvent → Option AnomalyStatus → Fields
  audit_metadata e previous_status = field "anomaly_id" (text (rt.uuid_text e.id)) (
      field "category" (text e.category) (
        field "severity" (text (anomaly_severity_value e.severity)) (
          field "status" (text (anomaly_status_value e.status)) (
            field "score" (num (rt.score_text e.score))
              (field "metadata_json" (obj e.metadata_json) (previous_field previous_status))))))

  unfoldable pub append_anomaly_audit :
      AnomalyEvent → String → String → String → Option AnomalyStatus → Tx (Unit {0})
  append_anomaly_audit e actor subtype description previous_status =
      append_entry_in_transaction (record {
        severity = "info";
        event_type = "anomaly_detected";
        event_subtype = subtype;
        actor = actor;
        description = description;
        tenant_id = e.tenant_id;
        tenant_slug = none;
        source_ip = e.source_ip;
        metadata_json = audit_metadata e previous_status;
      })
      >>= λ _. pure tt

  -- the body of the `try`
  unfoldable pub ingest : AnomalyEventCreate → Option String → Tx AnomalyEvent
  ingest payload actor = do
    id ← uuid4
    t ← now
    let event : AnomalyEvent = record {
      id = id;
      tenant_id = payload.tenant_id;
      category = payload.category;
      score = payload.score;
      severity = from_score payload.score;
      status = open_status;
      title = payload.title;
      description = payload.description;
      actor = payload.actor;
      source_ip = payload.source_ip;
      baseline_sigma = payload.baseline_sigma;
      metadata_json = payload.metadata_json;
      occurred_at = t;
      resolved_at = none;
    }
    add_event event
    append_anomaly_audit event (audit_actor actor payload.actor) "ANOMALY_CREATED"
        ("Anomaly created: " ⧺ event.title) none
    commit
    pure event

  unfoldable pub create_anomaly_event : AnomalyEventCreate → Option String → Tx AnomalyEvent
  create_anomaly_event payload actor = rolling_back (ingest payload actor)

  -- the flush of the new status, with its audit entry
  unfoldable pub record_transition :
      AnomalyStatus → Time → Option String → AnomalyEvent → Tx (Unit {0})
  record_transition status t actor event = do
    write_event event.id (transition status t)
    append_anomaly_audit (transition status t event) (audit_actor actor event.actor)
        "ANOMALY_STATUS_UPDATED"
        ("Anomaly status updated: "
          ⧺ anomaly_status_value event.status
          ⧺ " -> "
          ⧺ anomaly_status_value status)
        (some event.status)

  -- the clock is read for every status; its value is used for `resolved` only
  unfoldable pub update_found :
      AnomalyStatus → Option String → Option AnomalyEvent → Tx (Option AnomalyEvent)
  update_found status actor none = do rollback; pure none
  update_found status actor (some event) = do
    t ← now
    record_transition status t actor event
    commit
    pure (some (transition status t event))

  unfoldable pub update_anomaly_status :
      Key → AnomalyStatus → Option String → Tx (Option AnomalyEvent)
  update_anomaly_status event_id status actor =
      rolling_back (gets (find_event event_id) >>= λ found. update_found status actor found)

  -- the loop of `bulk_update_anomaly_status`
  unfoldable pub transition_all :
      AnomalyStatus → Time → Option String → List AnomalyEvent → Tx (Unit {0})
  transition_all status t actor [] = pure tt
  transition_all status t actor (e ∷ es) = do
    record_transition status t actor e
    transition_all status t actor es

  -- the body of the `try`; it answers the events that were selected
  unfoldable pub bulk_transition : List Key → AnomalyStatus → Option String → Tx (List AnomalyEvent)
  bulk_transition unique_ids status actor = do
    events ← gets (λ d. filter (λ (e : AnomalyEvent). has e.id unique_ids) d.anomaly_events)
    t ← now
    transition_all status t actor events
    commit
    pure events

  unfoldable pub bulk_response : List Key → AnomalyStatus → List AnomalyEvent → BulkStatusResponse
  bulk_response unique_ids status events =
      let found = map (λ (e : AnomalyEvent). e.id) events in
      let updated_ids = filter (λ i. has i found) unique_ids in
      record {
        new_status = anomaly_status_value status;
        requested = length unique_ids;
        updated = length updated_ids;
        updated_ids = updated_ids;
        not_found_ids = delete (λ i. has i found) unique_ids;
      }

  unfoldable pub bulk_update_anomaly_status :
      List Key → AnomalyStatus → Option String → Tx BulkStatusResponse
  bulk_update_anomaly_status event_ids status actor =
      let unique_ids = unique_by same_key event_ids in
      rolling_back (bulk_transition unique_ids status actor) >>= λ events.
      pure (bulk_response unique_ids status events)
